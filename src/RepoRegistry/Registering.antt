-- ===== src/RepoRegistry/Registering.antt =====
-- src/services/design-mgmt-service.ts: `registerRepo`, which makes a repository track a database and
-- reclaims it from every other. `newId` and the clock are parameters.
use couch_companion_ui.Prelude.{
  Bool, false, not, ◌&&◌, Option, none, some, List, [], ◌∷◌, ◌++◌, Text, codes, if◌then◌else◌,
  ◌===◌, text_eq, option_or, is_nil, nat_eq,
}
use couch_companion_ui.RepoTargets.{RepoTarget, GitRepo}
use couch_companion_ui.RepoUrl.{repo_identity, repo_name_from_url}
use couch_companion_ui.RepoRegistry.{
  Account, Saved, Store, Result, done, Reply, reply, fail, RegisterRepoBody, targets_of,
  other_targets, truthy, claims_of, detach_claims,
}

abbrev pub target_for : Text → Text → RegisterRepoBody → RepoTarget
target_for server_id db_name body = record {
  server_id = server_id;
  db_name = db_name;
  branch = option_or body.branch (codes "main");
  path = option_or body.path [];
}

-- `a ?? b`
abbrev pub or_else : Option Text → Option Text → Option Text
or_else none o = o
or_else (some a) o = some a

abbrev pub has_identity : Text → Option Text → Bool
has_identity identity none = false
has_identity identity (some url) = not (is_nil url) && repo_identity url === identity

abbrev pub find_identity : Text → List GitRepo → Option GitRepo
find_identity identity [] = none
find_identity identity (r ∷ rs) =
    if has_identity identity r.url then some r else find_identity identity rs

abbrev pub id_of : Option GitRepo → Option Text
id_of none = none
id_of (some r) = r.id

abbrev pub merge_target : RegisterRepoBody → Option Text → RepoTarget → GitRepo → GitRepo
merge_target body provider t existing = record existing {
  account_id = or_else body.account_id existing.account_id;
  provider = or_else provider existing.provider;
  sync_targets = some (other_targets t.server_id t.db_name (targets_of existing) ++ t ∷ []);
}

abbrev pub new_repo : RegisterRepoBody → Option Text → RepoTarget → Text → GitRepo
new_repo body provider t now = record {
  id = none;
  rev = none;
  doc_type = some (codes "git_repo");
  name = some (option_or body.name (repo_name_from_url body.url));
  provider = provider;
  url = some body.url;
  mode = none;
  account_id = body.account_id;
  sync_targets = some (t ∷ []);
  last_sync = none;
  sync_status = some (codes "idle");
  created_at = some now;
}

-- What is put, and under which id.
pub record Registration : Type 0 where
  pub id : Text
  pub repo : GitRepo

abbrev pub registration :
    RegisterRepoBody → Option Text → RepoTarget → Text → Text → Option GitRepo → Registration
registration body provider t new_id now none = record {
  id = new_id;
  repo = new_repo body provider t now;
}
registration body provider t new_id now (some existing) = elim existing.id [
  | none ↦ record { id = new_id; repo = new_repo body provider t now }
  | some id ↦ record { id = id; repo = merge_target body provider t existing }
]

abbrev pub provider_of : Option Account → Option Text
provider_of none = none
provider_of (some a) = some a.provider

module _ {W : Type 0} (s : Store W) where
  abbrev pub reclaimed : GitRepo → Reply W Bool → Reply W (Result GitRepo)
  reclaimed repo r = if r.answer then reply r.world (done repo) else fail r.world

  abbrev pub reclaim :
      Text
      → Text
      → GitRepo
      → List GitRepo
      → Option Text
      → Reply W (Option Saved)
      → Reply W (Result GitRepo)
  reclaim server_id db_name repo repos kept r = elim r.answer [
    | none ↦ fail r.world
    | some saved ↦
        reclaimed (record repo { id = some saved.id; rev = some saved.rev })
          (detach_claims s server_id db_name (claims_of server_id db_name kept repos) r.world)
  ]

  abbrev pub register_listed :
      Text
      → Text
      → Text
      → Text
      → RegisterRepoBody
      → Option Text
      → Option (List GitRepo)
      → W
      → Reply W (Result GitRepo)
  register_listed new_id now server_id db_name body provider none w = fail w
  register_listed new_id now server_id db_name body provider (some repos) w =
      let existing = find_identity (repo_identity body.url) repos in
      let new =
        registration body provider (target_for server_id db_name body) new_id now existing in
      reclaim server_id db_name new.repo repos (id_of existing) (s.put new.id new.repo w)

  abbrev pub register_for :
      Text
      → Text
      → Text
      → Text
      → RegisterRepoBody
      → Option (Option Account)
      → W
      → Reply W (Result GitRepo)
  register_for new_id now server_id db_name body none w = fail w
  register_for new_id now server_id db_name body (some account) w =
      register_listed new_id now server_id db_name body (provider_of account) (s.list_repos w) w

  abbrev pub account_for : Option Text → W → Option (Option Account)
  account_for none w = some none
  account_for (some id) w = s.get_account id w

  unfoldable pub register_repo :
      Text → Text → Text → Text → RegisterRepoBody → W → Reply W (Result GitRepo)
  register_repo new_id now server_id db_name body w =
      register_for new_id now server_id db_name body (account_for (truthy body.account_id) w) w
