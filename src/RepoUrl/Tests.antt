-- ===== src/RepoUrl/Tests.antt =====
-- Tests of the spellings of a repository's address.
use couch_companion_ui.Prelude.{◌≡◌, refl, true, some, codes, is_space, trim}
use couch_companion_ui.RepoUrl.{RepoUrl, parse_repo_url, repo_identity, repo_name_from_url}
use couch_companion_ui.RepoUrl.Spellings.{https_url, ssh_url, scp_url}
use couch_companion_ui.RepoUrl.Identity.{repo_identity-spellings, place_name}

abbrev widgets : RepoUrl
widgets = record { host = codes "GitHub.com"; owner = codes "Acme"; repo = codes "widgets" }

-- A `user@` in front of the host is not part of it, and what follows `?` or `#` is ignored.
with_user :
    parse_repo_url (codes "ssh://git@Example.org/acme/gears.git?x#y")
    ≡ some (record { host = codes "example.org"; owner = codes "acme"; repo = codes "gears" })
unfolding parse_repo_url is_space
with_user = refl

not_a_repository : repo_identity (codes " Widgets ") ≡ codes "widgets"
unfolding repo_identity parse_repo_url is_space trim
not_a_repository = refl

named_after_its_path :
    repo_name_from_url (codes "https://github.com/acme/widgets.git") ≡ codes "acme/widgets"
unfolding repo_name_from_url
named_after_its_path = refl

repo_identity-spellings_example :
    (repo_identity (https_url widgets true 1) ≡ place_name widgets)
    × (repo_identity (ssh_url widgets true 1) ≡ place_name widgets)
    × (repo_identity (scp_url widgets true 1) ≡ place_name widgets)
repo_identity-spellings_example =
    repo_identity-spellings widgets true 1
      (record { host = (refl, refl); owner = (refl, refl); repo = (refl, refl); bare = refl })
