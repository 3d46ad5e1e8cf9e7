-- ===== src/RepoTargets.antt =====
-- src/services/repo-targets.ts: which repository tracks which database; and `getRepo` of
-- src/services/design-mgmt-service.ts, which answers it for one database, on the list of repositories
-- that the store returns.
pub mod Index
mod Tests
use couch_companion_ui.Prelude.{
  Bool, true, false, ◌&&◌, ◌||◌, Option, none, some, List, [], ◌∷◌, ◌++◌, map, Text, codes,
  if◌then◌else◌, ◌===◌, text_eq, option_or, Dict, has, set, flat_map,
}

pub record RepoTarget : Type 0 where
  pub server_id : Text
  pub db_name : Text
  pub branch : Text
  pub path : Text

-- A field that is absent or `null` is `none`.
pub record GitRepo : Type 0 where
  pub id : Option Text
  pub rev : Option Text
  pub doc_type : Option Text
  pub name : Option Text
  pub provider : Option Text
  pub url : Option Text
  pub mode : Option Text
  pub account_id : Option Text
  pub sync_targets : Option (List RepoTarget)
  pub last_sync : Option Text
  pub sync_status : Option Text
  pub created_at : Option Text

pub record RepoTargetRow : Type 0 where
  pub key : Text
  pub repo : GitRepo
  pub target : RepoTarget

-- `${repo._id ?? repo.name}`
abbrev pub repo_label : GitRepo → Text
repo_label repo = elim repo.id [ none ↦ option_or repo.name (codes "undefined") | some id ↦ id ]

abbrev pub dash : Text
dash = codes "-"

abbrev pub row_for : GitRepo → RepoTarget → RepoTargetRow
row_for repo target = record {
  key =
      repo_label repo
      ++ dash
      ++ target.server_id
      ++ dash
      ++ target.db_name
      ++ dash
      ++ target.branch;
  repo = repo;
  target = target;
}

abbrev pub rows_of : GitRepo → List RepoTargetRow
rows_of repo = map (row_for repo) (option_or repo.sync_targets [])

unfoldable pub flatten_repos_to_targets : List GitRepo → List RepoTargetRow
flatten_repos_to_targets repos = flat_map rows_of repos

abbrev pub target_key : Text → Text → Text
target_key server_id db_name = server_id ++ 0 ∷ db_name

abbrev pub row_key : RepoTargetRow → Text
row_key row = target_key row.target.server_id row.target.db_name

abbrev pub index_rows : List RepoTargetRow → Dict Text RepoTargetRow → Dict Text RepoTargetRow
index_rows [] index = index
index_rows (row ∷ rows) index =
    index_rows rows (if has (row_key row) index then index else set (row_key row) row index)

unfoldable pub index_targets_by_database : List GitRepo → Dict Text RepoTargetRow
index_targets_by_database repos = index_rows (flatten_repos_to_targets repos) []

abbrev pub tracks : Text → Text → List RepoTarget → Bool
tracks server_id db_name [] = false
tracks server_id db_name (t ∷ ts) =
    (t.server_id === server_id && t.db_name === db_name) || tracks server_id db_name ts

unfoldable pub get_repo : Text → Text → List GitRepo → Option GitRepo
get_repo server_id db_name [] = none
get_repo server_id db_name (repo ∷ repos) =
    if tracks server_id db_name (option_or repo.sync_targets [])
    then some repo
    else get_repo server_id db_name repos
