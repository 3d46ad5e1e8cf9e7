-- ===== src/RepoRegistry/Deleting.antt =====
-- src/services/design-mgmt-service.ts: `deleteRepo`, in the order that never leaves a document without
-- its repository.
use couch_companion_ui.Prelude.{
  ◌≡◌, refl, ◌∙◌, ap, Bool, true, false, Option, none, some, List, ◌++◌, Text, text_eq,
  option_beq_iff, filter, if_rule,
}
use couch_companion_ui.RepoRegistry.{
  DocKind, sync_kind, conflict_kind, Entry, Store, Reply, reply, is_owned_by,
}
use couch_companion_ui.RepoRegistry.Removing.{delete_listed, delete_repo}
use couch_companion_ui.RepoRegistry.Documented.{IsDocumented}
use couch_companion_ui.RepoRegistry.Detaching.{remove_all-sweeps, tracked_by, tracked_by-same}
use couch_companion_ui.RepoRegistry.Claims.{IsOwned}

module _ {W : Type 0} (s : Store W) (doc : IsDocumented s) (id : Text) where
  abbrev all_of : List Entry → List Entry → List Entry
  all_of ss cs = filter (is_owned_by id) ss ++ filter (is_owned_by id) cs

  -- What holds of each way in which `deleteRepo` ends.
  delete_repo_rule {ℓ} :
      (P : Reply W Bool → Type ℓ) (w : W)
      → P (reply w false)
      → ((es : List Entry) → P (reply (s.remove_all es w).world false))
      → ((ss cs : List Entry)
          → s.list_entries sync_kind w ≡ some ss
          → s.list_entries conflict_kind w ≡ some cs
          → (s.remove_all (all_of ss cs) w).answer ≡ true
          → P (s.remove id (s.remove_all (all_of ss cs) w).world))
      → P (delete_repo s id w)
  unfolding delete_repo
  delete_repo_rule P w unread unswept swept =
      listed (s.list_entries sync_kind w) (s.list_entries conflict_kind w) refl refl
    where
      listed :
          (o p : Option (List Entry))
          → s.list_entries sync_kind w ≡ o
          → s.list_entries conflict_kind w ≡ p
          → P (delete_listed s id o p w)
      listed none p g h = unread
      listed (some ss) none g h = unread
      listed (some ss) (some cs) g h =
          if_rule P (s.remove_all (all_of ss cs) w).answer (λ ok. swept ss cs g h ok)
            (λ _. unswept _)

  -- Whichever request of a delete fails, every `sync:` and `conflict:` document that names a repository
  -- is of a database that this repository tracks, if that was so before.
  pub delete_repo-IsOwned : (w : W) → IsOwned s doc w → IsOwned s doc (delete_repo s id w).world
  unfolding IsOwned
  delete_repo-IsOwned w owned =
      delete_repo_rule (λ r. IsOwned s doc r.world) w owned
        (λ es.
          kept (s.remove_all es w).world (doc.remove_all_adds_none es w)
            (λ kind e there k names. doc.remove_all_keeps es w k))
        (λ ss cs g h ok.
          let v = (s.remove_all (all_of ss cs) w).world in
          kept (s.remove id v).world
            (λ kind e there.
              doc.remove_all_adds_none _ w kind e (doc.remove_adds_none id v kind e there))
            (λ kind e there k names.
              doc.remove_elsewhere id v k (λ same.
                clash ((option_beq_iff e.git_repo_id (some id)).1 (names ∙ ap some same)) (
                  remove_all-sweeps s doc (is_owned_by id) ss cs w g h ok kind e
                    (doc.remove_adds_none id v kind e there)))
              ∙ doc.remove_all_keeps _ w k))
    where
      clash : {b : Bool} → b ≡ true → b ≡ false → ⊥
      clash h k = cc (h, k)

      kept :
          (v : W)
          → ((kind : DocKind) (e : Entry) → doc.Has kind e v → doc.Has kind e w)
          → ((kind : DocKind) (e : Entry)
              → doc.Has kind e v
              → (k : Text) → e.git_repo_id ≡ some k
              → doc.repo_at k v ≡ doc.repo_at k w)
          → IsOwned s doc v
      kept v old same kind e there k names = owner (owned kind e (old kind e there) k names)
        where
          owner :
              (a : Text) × (tracked_by s doc a e.database k w ≡ true)
              → (a : Text) × (tracked_by s doc a e.database k v ≡ true)
          owner (a, t) =
              (a, tracked_by-same s doc a e.database k v w (same kind e there k names) ∙ t)

  -- A delete that succeeds leaves neither the repository nor a document that names it.
  pub delete_repo-deletes :
      (w : W)
      → (delete_repo s id w).answer ≡ true
      → (doc.repo_at id (delete_repo s id w).world ≡ none)
        × ((kind : DocKind) (e : Entry)
            → doc.Has kind e (delete_repo s id w).world
            → is_owned_by id e ≡ false)
  delete_repo-deletes w =
      delete_repo_rule
        (λ r.
          r.answer ≡ true
          → (doc.repo_at id r.world ≡ none)
            × ((kind : DocKind) (e : Entry) → doc.Has kind e r.world → is_owned_by id e ≡ false))
        w (λ h. absurd (cc h)) (λ es h. absurd (cc h))
        (λ ss cs g h ok gone. (
          doc.remove_writes id _ gone,
          λ kind e there.
              remove_all-sweeps s doc (is_owned_by id) ss cs w g h ok kind e
                (doc.remove_adds_none id _ kind e there),
        ))
