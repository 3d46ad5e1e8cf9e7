-- ===== src/RecentServers/Tests.antt =====
-- Tests of the recent servers.
use couch_companion_ui.Prelude.{◌≡◌, refl, some, List, [], ◌∷◌, codes}
use couch_companion_ui.RecentServers.{RecentServer, record_recent_server, sort_mru, get_last_server}
use couch_companion_ui.RecentServers.Laws.{IsMru, record_recent_server-IsMru}

abbrev two_servers : List RecentServer
two_servers =
    record { url = codes "http://a"; last_used = 7 }
    ∷ record { url = codes "http://b"; last_used = 5 }
    ∷ []

record_b :
    record_recent_server (codes "http://b") 9 two_servers
    ≡ record { url = codes "http://b"; last_used = 9 }
      ∷ record { url = codes "http://a"; last_used = 7 }
      ∷ []
unfolding record_recent_server sort_mru
record_b = refl

record_recent_server-IsMru_example : IsMru (record_recent_server (codes "http://b") 9 two_servers)
record_recent_server-IsMru_example =
    record_recent_server-IsMru (codes "http://b") 9 two_servers (refl, (refl, tt))

last_server :
    get_last_server (record_recent_server (codes "http://b") 9 two_servers)
    ≡ some (codes "http://b")
unfolding record_recent_server sort_mru
last_server = refl
