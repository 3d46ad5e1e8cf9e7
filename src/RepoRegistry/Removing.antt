-- ===== src/RepoRegistry/Removing.antt =====
-- src/services/design-mgmt-service.ts: `unlinkRepo`, which takes one database from a repository, and
-- `deleteRepo`, which removes the repository.
use couch_companion_ui.Prelude.{
  ℕ, Bool, false, not, Option, none, some, List, ◌++◌, Text, if◌then◌else◌, ◌===◌, nat_eq, text_eq,
  filter,
}
use couch_companion_ui.RepoTargets.{GitRepo}
use couch_companion_ui.RepoRegistry.{
  sync_kind, conflict_kind, Entry, Store, no_such_repository, Result, done, failed, Reply, reply,
  fail, Detached, is_owned_by, detach_target,
}

pub data UnlinkAction : Type 0 where
  not_linked : UnlinkAction
  repo_deleted : UnlinkAction
  target_removed : UnlinkAction

pub record UnlinkRepoResponse : Type 0 where
  pub action : UnlinkAction
  pub repo_id : Text
  pub remaining_targets : ℕ
  pub deleted_sync_docs : ℕ

abbrev pub unlink_answer : Text → Result Detached → Result UnlinkRepoResponse
unlink_answer id (failed e) = failed e
unlink_answer id (done d) = done (record {
  action =
      if not d.removed
      then not_linked
      else if d.remaining_targets === 0
      then repo_deleted
      else target_removed;
  repo_id = id;
  remaining_targets = d.remaining_targets;
  deleted_sync_docs = d.deleted_sync_docs;
})

module _ {W : Type 0} (s : Store W) where
  abbrev pub unlink_found :
      Text → Text → Text → Option (Option GitRepo) → W → Reply W (Result UnlinkRepoResponse)
  unlink_found id server_id db_name none w = fail w
  unlink_found id server_id db_name (some none) w = reply w (failed (no_such_repository id))
  unlink_found id server_id db_name (some (some repo)) w =
      let d = detach_target s id repo server_id db_name w in
      reply d.world (unlink_answer id d.answer)

  unfoldable pub unlink_repo : Text → Text → Text → W → Reply W (Result UnlinkRepoResponse)
  unlink_repo id server_id db_name w = unlink_found id server_id db_name (s.get_repo_doc id w) w

  abbrev pub delete_swept : Text → Reply W Bool → Reply W Bool
  delete_swept id r = if r.answer then s.remove id r.world else reply r.world false

  abbrev pub delete_listed : Text → Option (List Entry) → Option (List Entry) → W → Reply W Bool
  delete_listed id none cs w = reply w false
  delete_listed id (some ss) none w = reply w false
  delete_listed id (some ss) (some cs) w =
      delete_swept id (s.remove_all (filter (is_owned_by id) ss ++ filter (is_owned_by id) cs) w)

  -- The answer is whether it does not throw.
  unfoldable pub delete_repo : Text → W → Reply W Bool
  delete_repo id w =
      delete_listed id (s.list_entries sync_kind w) (s.list_entries conflict_kind w) w
