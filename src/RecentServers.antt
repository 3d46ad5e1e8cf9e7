-- ===== src/RecentServers.antt =====
-- src/services/recent-servers.ts: the most recently used servers that the browser remembers.
--
-- What `localStorage` holds, parsed and filtered, is a list of entries; `last_used` is a natural
-- number, as `Date.now` gives it, and the clock is an argument.
pub mod Laws
mod Tests
use couch_companion_ui.Prelude.{
  ℕ, Bool, not, Option, none, some, List, [], ◌∷◌, Text, if◌then◌else◌, ◌===◌, text_eq, leb, filter,
  take,
}

pub record RecentServer : Type 0 where
  pub url : Text
  pub last_used : ℕ

abbrev pub max_entries : ℕ
max_entries = 20

-- One step of the stable sort, newest first.
abbrev pub insert_entry : RecentServer → List RecentServer → List RecentServer
insert_entry e [] = e ∷ []
insert_entry e (f ∷ fs) =
    let rest = insert_entry e fs in if leb f.last_used e.last_used then e ∷ f ∷ fs else f ∷ rest

unfoldable pub sort_mru : List RecentServer → List RecentServer
sort_mru [] = []
sort_mru (e ∷ es) = insert_entry e (sort_mru es)

unfoldable pub record_recent_server : Text → ℕ → List RecentServer → List RecentServer
record_recent_server url now stored =
    take max_entries
      (sort_mru (record { url = url; last_used = now } ∷ filter (λ e. not (e.url === url)) stored))

abbrev pub get_last_server : List RecentServer → Option Text
get_last_server stored = elim (sort_mru stored) [ [] ↦ none | e ∷ es ↦ some e.url ]
