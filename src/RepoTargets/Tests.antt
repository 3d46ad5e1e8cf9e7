-- ===== src/RepoTargets/Tests.antt =====
-- Tests of the tracked databases: two repositories claim the same one.
use couch_companion_ui.Prelude.{
  ◌≡◌, refl, Option, none, some, List, [], ◌∷◌, map, Text, codes, get, text_eq, text_eq,
}
use couch_companion_ui.RepoTargets.{
  RepoTarget, GitRepo, flatten_repos_to_targets, target_key, index_targets_by_database, get_repo,
}
use couch_companion_ui.RepoTargets.Index.{repo_in, index_targets-get_repo}

abbrev repo_tracking : Text → Option (List RepoTarget) → GitRepo
repo_tracking id targets = record {
  id = some id;
  rev = none;
  doc_type = none;
  name = none;
  provider = none;
  url = none;
  mode = none;
  account_id = none;
  sync_targets = targets;
  last_sync = none;
  sync_status = none;
  created_at = none;
}

abbrev tracked : Text → RepoTarget
tracked db_name = record {
  server_id = codes "local";
  db_name = db_name;
  branch = codes "main";
  path = [];
}

abbrev registered : List GitRepo
registered =
    repo_tracking (codes "r0") none
    ∷ repo_tracking (codes "r1") (some (tracked (codes "a") ∷ []))
    ∷ repo_tracking (codes "r2") (some (tracked (codes "b") ∷ tracked (codes "a") ∷ []))
    ∷ []

row_keys :
    map (λ r. r.key) (flatten_repos_to_targets registered)
    ≡ codes "r1-local-a-main" ∷ codes "r2-local-b-main" ∷ codes "r2-local-a-main" ∷ []
unfolding flatten_repos_to_targets
row_keys = refl

index_targets-get_repo_example :
    repo_in (get (target_key (codes "local") (codes "a")) (index_targets_by_database registered))
    ≡ some (repo_tracking (codes "r1") (some (tracked (codes "a") ∷ [])))
unfolding get_repo
index_targets-get_repo_example =
    index_targets-get_repo (codes "local") (codes "a") registered refl
      (tt, ((refl, tt), ((refl, (refl, tt)), tt)))
