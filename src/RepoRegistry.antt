-- ===== src/RepoRegistry.antt =====
-- src/services/design-mgmt-service.ts: how a database comes to be tracked by a git repository and stops
-- being so: `registerRepo`, `detachTarget`, `unlinkRepo`, `deleteRepo` and `resolveSyncTarget`.
--
-- The store of documents is the interface `Store`, over the states `W` of the database behind it:
-- `CouchCompanionStore` of src/services/git/couchcompanion-store.ts implements it and is not modelled. A
-- call takes the state and answers with the next one. A request that fails still says in which state
-- it leaves the database. `Promise.all` over several repositories runs them one after the other, each
-- to its end.
pub mod Documented
pub mod Targets
pub mod Detaching
pub mod Sweeping
pub mod Claims
pub mod Removing
pub mod Registering
pub mod Exclusive
pub mod Registered
pub mod Putting
pub mod Outcome
pub mod Sole
pub mod Resolving
pub mod Lifecycle
pub mod Deleting
mod Memory
mod Tests
use couch_companion_ui.Prelude.{
  ℕ, Bool, true, false, not, ◌&&◌, ◌||◌, Option, none, some, List, [], ◌∷◌, ◌++◌, Text, codes,
  if◌then◌else◌, ◌===◌, text_eq, nat_eq, option_or, length, filter, is_nil, option_beq,
}
use couch_companion_ui.RepoTargets.{RepoTarget, GitRepo, tracks}

-- The documents that a repository owns: `sync:` and `conflict:`.
pub data DocKind : Type 0 where
  sync_kind : DocKind
  conflict_kind : DocKind

-- What the sweeps read of such a document; `database` is the `db_name` of a conflict.
pub record Entry : Type 0 where
  pub id : Text
  pub git_repo_id : Option Text
  pub database : Text

-- What `put` answers.
pub record Saved : Type 0 where
  pub id : Text
  pub rev : Text

pub record Account : Type 0 where
  pub provider : Text

-- The next state and the answer.
pub record Reply (W A : Type 0) : Type 0 where
  pub world : W
  pub answer : A

pub record Store (W : Type 0) : Type 0 where
  pub list_repos : W → Option (List GitRepo)
  pub list_entries : DocKind → W → Option (List Entry)
  pub get_repo_doc : Text → W → Option (Option GitRepo)
  pub get_account : Text → W → Option (Option Account)
  pub put : Text → GitRepo → W → Reply W (Option Saved)
  pub remove : Text → W → Reply W Bool
  pub remove_all : List Entry → W → Reply W Bool

pub data RepoError : Type 0 where
  request_failed : RepoError
  no_such_repository : Text → RepoError
  no_url : Text → RepoError
  not_a_target : Text → Text → RepoError
  no_account : Text → RepoError

pub data Result (A : Type 0) : Type 0 where
  done : A → Result A
  failed : RepoError → Result A

pub record Detached : Type 0 where
  pub removed : Bool
  pub deleted_sync_docs : ℕ
  pub remaining_targets : ℕ

pub record RegisterRepoBody : Type 0 where
  pub url : Text
  pub name : Option Text
  pub branch : Option Text
  pub path : Option Text
  pub account_id : Option Text

-- A repository and its `_id`.
pub record Claim : Type 0 where
  pub id : Text
  pub repo : GitRepo

abbrev pub reply : {W A : Type 0} → W → A → Reply W A
reply w a = record { world = w; answer = a }

abbrev pub fail : {W A : Type 0} → W → Reply W (Result A)
fail w = reply w (failed request_failed)

abbrev pub targets_of : GitRepo → List RepoTarget
targets_of repo = option_or repo.sync_targets []

abbrev pub is_target : Text → Text → RepoTarget → Bool
is_target server_id db_name t = t.server_id === server_id && t.db_name === db_name

abbrev pub other_targets : Text → Text → List RepoTarget → List RepoTarget
other_targets server_id db_name ts = filter (λ t. not (is_target server_id db_name t)) ts

abbrev pub with_targets : List RepoTarget → GitRepo → GitRepo
with_targets ts repo = record repo { sync_targets = some ts }

abbrev pub is_owned_by : Text → Entry → Bool
is_owned_by id e = option_beq e.git_repo_id (some id)

abbrev pub is_swept : Text → Text → Entry → Bool
is_swept id db_name e = is_owned_by id e && e.database === db_name

abbrev pub not_removed : ℕ → Detached
not_removed n = record { removed = false; deleted_sync_docs = 0; remaining_targets = n }

-- A string that is absent or empty is falsy.
abbrev pub truthy : Option Text → Option Text
truthy none = none
truthy (some s) = if is_nil s then none else some s

abbrev pub is_done : {A : Type 0} → Result A → Bool
is_done (done a) = true
is_done (failed e) = false

-- The repositories that still claim a target, but for the one of id `kept`.
abbrev pub claims_of : Text → Text → Option Text → List GitRepo → List Claim
claims_of server_id db_name kept [] = []
claims_of server_id db_name kept (r ∷ rs) =
    let rest = claims_of server_id db_name kept rs in
    elim r.id [
      | none ↦ rest
      | some k ↦
          if not (option_beq kept (some k)) && tracks server_id db_name (targets_of r)
          then record { id = k; repo = r } ∷ rest
          else rest
    ]

module _ {W : Type 0} (s : Store W) where
  -- What is left to write once the swept documents are gone.
  abbrev pub remove_repo : Text → ℕ → W → Reply W (Result Detached)
  remove_repo id n w =
      let r = s.remove id w in
      if r.answer
      then reply r.world
          (done (record { removed = true; deleted_sync_docs = n; remaining_targets = 0 }))
      else fail r.world

  abbrev pub saved_targets : ℕ → ℕ → Reply W (Option Saved) → Reply W (Result Detached)
  saved_targets n m r = elim r.answer [
    | none ↦ fail r.world
    | some saved ↦
        reply r.world
          (done (record { removed = true; deleted_sync_docs = n; remaining_targets = m }))
  ]

  abbrev pub write_targets : Text → GitRepo → ℕ → List RepoTarget → W → Reply W (Result Detached)
  write_targets id repo n [] w = remove_repo id n w
  write_targets id repo n (t ∷ ts) w =
      saved_targets n (length (t ∷ ts)) (s.put id (with_targets (t ∷ ts) repo) w)

  abbrev pub sweep_and_write :
      Text
      → GitRepo
      → Text
      → List RepoTarget
      → Option (List Entry)
      → Option (List Entry)
      → W
      → Reply W (Result Detached)
  sweep_and_write id repo db_name ts none cs w = fail w
  sweep_and_write id repo db_name ts (some ss) none w = fail w
  sweep_and_write id repo db_name ts (some ss) (some cs) w =
      let gone = filter (is_swept id db_name) ss in
      let r = s.remove_all (gone ++ filter (is_swept id db_name) cs) w in
      if r.answer then write_targets id repo (length gone) ts r.world else fail r.world

  -- `id` is the repository's `_id`.
  unfoldable pub detach_target : Text → GitRepo → Text → Text → W → Reply W (Result Detached)
  detach_target id repo server_id db_name w =
      let ts = other_targets server_id db_name (targets_of repo) in
      if length ts === length (targets_of repo)
      then reply w (done (not_removed (length (targets_of repo))))
      else sweep_and_write id repo db_name ts (s.list_entries sync_kind w)
          (s.list_entries conflict_kind w) w

  abbrev pub detach_claims : Text → Text → List Claim → W → Reply W Bool
  detach_claims server_id db_name [] w = reply w true
  detach_claims server_id db_name (c ∷ cs) w =
      let d = detach_target c.id c.repo server_id db_name w in
      let rest = detach_claims server_id db_name cs d.world in
      reply rest.world (is_done d.answer && rest.answer)
