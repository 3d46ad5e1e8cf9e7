-- ===== src/RepoRegistry/Outcome.antt =====
-- src/services/design-mgmt-service.ts: what `registerRepo` leaves alone: no other database is
-- touched, and no document loses its repository.
use mathlib.Core.Path.{subst}
use couch_companion_ui.Prelude.{◌≡◌, refl, sym, ◌∙◌, ap, false, ◌&&◌, none, Text, ◌===◌, text_eq}
use couch_companion_ui.RepoRegistry.{Store, RegisterRepoBody}
use couch_companion_ui.RepoRegistry.Documented.{IsDocumented}
use couch_companion_ui.RepoRegistry.Detaching.{tracked_by}
use couch_companion_ui.RepoRegistry.Claims.{IsOwned, detach_claims-keeps, detach_claims-IsOwned}
use couch_companion_ui.RepoRegistry.Registering.{register_repo}
use couch_companion_ui.RepoRegistry.Registered.{register_repo_rule}
use couch_companion_ui.RepoRegistry.Putting.{
  reclaimed-world, put_for-keeps, others-IsCurrent, put_for-IsOwned,
}

module _ {W : Type 0} (s : Store W) (doc : IsDocumented s) (new_id now server_id db_name : Text)
    (body : RegisterRepoBody) (w : W) (fresh : doc.repo_at new_id w ≡ none) where
  -- Whichever request of a registration fails, every repository tracks, of the other databases, those
  -- that it tracked before. The new id is unused.
  pub register_repo-keeps :
      (a b k : Text)
      → (a === server_id && b === db_name) ≡ false
      → tracked_by s doc a b k (register_repo s new_id now server_id db_name body w).world
        ≡ tracked_by s doc a b k w
  register_repo-keeps a b k other =
      register_repo_rule s doc new_id now server_id db_name body
        (λ r. tracked_by s doc a b k r.world ≡ tracked_by s doc a b k w) w refl
        (λ p rs l. put_for-keeps s doc new_id now server_id db_name body w fresh p rs l a b k other)
        (λ p rs saved l _.
          ap (tracked_by s doc a b k) (reclaimed-world s doc _ _)
          ∙ detach_claims-keeps s doc server_id db_name _ _ a b k
              (others-IsCurrent s doc new_id now server_id db_name body w fresh p rs l) other
          ∙ put_for-keeps s doc new_id now server_id db_name body w fresh p rs l a b k other)

  -- Whichever request of a registration fails, every `sync:` and `conflict:` document that names a
  -- repository is of a database that this repository tracks, if that was so before. The new id is
  -- unused.
  pub register_repo-IsOwned :
      IsOwned s doc w → IsOwned s doc (register_repo s new_id now server_id db_name body w).world
  register_repo-IsOwned owned =
      register_repo_rule s doc new_id now server_id db_name body (λ r. IsOwned s doc r.world) w
        owned
        (λ p rs l. put_for-IsOwned s doc new_id now server_id db_name body w fresh p rs l owned)
        (λ p rs saved l _. subst (IsOwned s doc) (sym (reclaimed-world s doc _ _)) (
          detach_claims-IsOwned s doc server_id db_name _ _
            (others-IsCurrent s doc new_id now server_id db_name body w fresh p rs l)
            (put_for-IsOwned s doc new_id now server_id db_name body w fresh p rs l owned)))
