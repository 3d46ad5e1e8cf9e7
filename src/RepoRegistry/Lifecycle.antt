-- ===== src/RepoRegistry/Lifecycle.antt =====
-- src/services/design-mgmt-service.ts: what `unlinkRepo` reports is what it did, and it leaves no
-- document without its repository.
use mathlib.Core.Path.{subst}
use couch_companion_ui.Prelude.{
  ◌≡◌, refl, sym, ◌∙◌, ap, ℕ, suc, nat_eq, true, false, Option, none, some, List, [], ◌∷◌, Text,
  if◌then◌else◌, ◌===◌, text_eq, is_some, length, if_rule, arith,
}
use couch_companion_ui.RepoTargets.{RepoTarget, GitRepo, tracks}
use couch_companion_ui.RepoRegistry.{
  Saved, Store, Result, done, failed, Reply, Detached, targets_of, other_targets, with_targets,
  detach_target, write_targets,
}
use couch_companion_ui.RepoRegistry.Removing.{
  UnlinkAction, not_linked, repo_deleted, target_removed, UnlinkRepoResponse, unlink_answer,
  unlink_found, unlink_repo,
}
use couch_companion_ui.RepoRegistry.Documented.{IsDocumented}
use couch_companion_ui.RepoRegistry.Detaching.{tracks_in, tracked_by, detach_target_rule}
use couch_companion_ui.RepoRegistry.Targets.{tracks-other_targets_same}
use couch_companion_ui.RepoRegistry.Claims.{IsOwned, detach_target-IsOwned}

abbrev action_of : Result UnlinkRepoResponse → UnlinkAction
action_of (done r) = r.action
action_of (failed e) = not_linked

suc_nonzero : (n : ℕ) → (suc n === 0) ≡ false
suc_nonzero n = ground arith

module _ {W : Type 0} (s : Store W) (doc : IsDocumented s) (id server_id db_name : Text) where
  -- What each reported action says of the database before and after.
  abbrev pub IsTold : W → W → UnlinkAction → Type 0
  IsTold w v not_linked = (tracked_by s doc server_id db_name id w ≡ false) × (v ≡ w)
  IsTold w v repo_deleted =
      (tracked_by s doc server_id db_name id w ≡ true) × (doc.repo_at id v ≡ none)
  IsTold w v target_removed =
      (tracked_by s doc server_id db_name id w ≡ true)
      × (is_some (doc.repo_at id v) ≡ true)
      × (tracked_by s doc server_id db_name id v ≡ false)

  write_targets-IsTold :
      (repo : GitRepo) (n : ℕ) (ts : List RepoTarget) (w v : W) (r : UnlinkRepoResponse)
      → tracked_by s doc server_id db_name id w ≡ true
      → tracks server_id db_name ts ≡ false
      → unlink_answer id (write_targets s id repo n ts v).answer ≡ done r
      → IsTold w (write_targets s id repo n ts v).world r.action
  unfolding tracked_by
  write_targets-IsTold repo n [] w v r before after =
      if_rule
        (λ (x : Reply W (Result Detached)).
          unlink_answer id x.answer ≡ done r → IsTold w x.world r.action)
        (s.remove id v).answer
        (λ ok e.
          subst (IsTold w (s.remove id v).world) (ap action_of e)
            (before, doc.remove_writes id v ok))
        (λ _ e. absurd (cc e))
  write_targets-IsTold repo n (t ∷ ts) w v r before after =
      put (s.put id (with_targets (t ∷ ts) repo) v).answer refl
    where
      put :
          (o : Option Saved)
          → (s.put id (with_targets (t ∷ ts) repo) v).answer ≡ o
          → unlink_answer id (write_targets s id repo n (t ∷ ts) v).answer ≡ done r
          → IsTold w (write_targets s id repo n (t ∷ ts) v).world r.action
      put none a e = absurd (cc (rw a at e))
      put (some saved) a e =
          let there = (doc.put_writes id (with_targets (t ∷ ts) repo) v saved a).1 in
          rw a (
            subst (IsTold w (s.put id (with_targets (t ∷ ts) repo) v).world)
              (sym (ap (λ b. if b then repo_deleted else target_removed) (suc_nonzero (length ts)))
                ∙ ap action_of (rw a at e))
              (before, rw there refl, ap (tracks_in server_id db_name) there ∙ after))

  detach_target-IsTold :
      (repo : GitRepo) (w : W) (r : UnlinkRepoResponse)
      → doc.repo_at id w ≡ some repo
      → unlink_answer id (detach_target s id repo server_id db_name w).answer ≡ done r
      → IsTold w (detach_target s id repo server_id db_name w).world r.action
  unfolding tracked_by
  detach_target-IsTold repo w r there =
      detach_target_rule s doc (λ x. unlink_answer id x.answer ≡ done r → IsTold w x.world r.action)
        id repo server_id db_name w
        (λ u e.
          subst (IsTold w w) (ap action_of e) (ap (tracks_in server_id db_name) there ∙ u, refl))
        (λ _ e. absurd (cc e)) (λ es _ e. absurd (cc e))
        (λ ss cs t _ _ _ e.
          subst (λ u. IsTold w u r.action) refl
            (write_targets-IsTold repo _ (other_targets server_id db_name (targets_of repo)) w _ r
              (ap (tracks_in server_id db_name) there ∙ t)
              (tracks-other_targets_same server_id db_name (targets_of repo)) e))

  -- An unlink that answers reports what it did. `not_linked`: the repository did not track the
  -- database, and nothing is changed. `repo_deleted`: it did, and is gone. `target_removed`: it did,
  -- is still there, and no longer tracks it.
  pub unlink_repo-IsTold :
      (w : W) (r : UnlinkRepoResponse)
      → (unlink_repo s id server_id db_name w).answer ≡ done r
      → IsTold w (unlink_repo s id server_id db_name w).world r.action
  unfolding unlink_repo
  unlink_repo-IsTold w r = go (s.get_repo_doc id w) refl
    where
      go :
          (o : Option (Option GitRepo))
          → s.get_repo_doc id w ≡ o
          → (unlink_found s id server_id db_name o w).answer ≡ done r
          → IsTold w (unlink_found s id server_id db_name o w).world r.action
      go none g e = absurd (cc e)
      go (some none) g e = absurd (cc e)
      go (some (some repo)) g e = detach_target-IsTold repo w r (doc.get_finds id w (some repo) g) e

  -- Whatever fails, unlinking leaves no document without its repository.
  pub unlink_repo-IsOwned :
      (w : W) → IsOwned s doc w → IsOwned s doc (unlink_repo s id server_id db_name w).world
  unfolding unlink_repo tracked_by
  unlink_repo-IsOwned w owned = go (s.get_repo_doc id w) refl
    where
      go :
          (o : Option (Option GitRepo))
          → s.get_repo_doc id w ≡ o
          → IsOwned s doc (unlink_found s id server_id db_name o w).world
      go none g = owned
      go (some none) g = owned
      go (some (some repo)) g =
          detach_target-IsOwned s doc server_id db_name (record { id = id; repo = repo }) w
            (λ a b _. ap (tracks_in a b) (doc.get_finds id w (some repo) g)) owned
