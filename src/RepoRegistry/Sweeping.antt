-- ===== src/RepoRegistry/Sweeping.antt =====
-- src/services/design-mgmt-service.ts: what `detachTarget` keeps and what it takes away, whichever of
-- its requests fails.
use mathlib.Core.Path.{subst}
use couch_companion_ui.Prelude.{
  ◌≡◌, ◌≢◌, refl, sym, ◌∙◌, ap, true, false, ◌&&◌, ◌++◌, Text, ◌===◌, text_eq, text_beq_iff,
  ne_of_===, filter, Bool-cases, ◌⊎◌, inl, inr, arith,
}
use couch_companion_ui.RepoTargets.{GitRepo, tracks}
use couch_companion_ui.RepoRegistry.{
  DocKind, Entry, Store, Result, Reply, Detached, targets_of, other_targets, is_swept, is_done,
  detach_target,
}
use couch_companion_ui.RepoRegistry.Documented.{IsDocumented}
use couch_companion_ui.RepoRegistry.Detaching.{
  remove_all-sweeps, tracked_by, tracked_by-same, detach_target_rule, write_targets-world,
  written-elsewhere, written-at, written-adds_none, write_targets-done,
}
use couch_companion_ui.RepoRegistry.Targets.{tracks-other_targets, tracks-other_targets_same}

module _ {W : Type 0} (s : Store W) (doc : IsDocumented s) where
  abbrev IsKept : Text → Text → Text → W → Reply W (Result Detached) → Type 0
  IsKept a b k w r = tracked_by s doc a b k r.world ≡ tracked_by s doc a b k w

  pub detach_target-elsewhere :
      (id : Text) (repo : GitRepo) (server_id db_name : Text) (w : W) (k : Text)
      → k ≢ id
      → doc.repo_at k (detach_target s id repo server_id db_name w).world ≡ doc.repo_at k w
  detach_target-elsewhere id repo server_id db_name w k far =
      detach_target_rule s doc (λ r. doc.repo_at k r.world ≡ doc.repo_at k w) id repo server_id
        db_name w (λ _. refl) (λ _. refl) (λ es _. doc.remove_all_keeps es w k)
        (λ ss cs _ _ _ _.
          ap (doc.repo_at k) (write_targets-world s doc id repo _ _ _)
          ∙ written-elsewhere s doc id repo _ _ k far
          ∙ doc.remove_all_keeps _ w k)

  -- The repository tracks what it did, or what is left of the given targets.
  pub detach_target-at :
      (id : Text) (repo : GitRepo) (server_id db_name : Text) (w : W)
      → ((a b : Text) → IsKept a b id w (detach_target s id repo server_id db_name w))
        ⊎ ((a b : Text)
            → tracked_by s doc a b id (detach_target s id repo server_id db_name w).world
              ≡ tracks a b (other_targets server_id db_name (targets_of repo)))
  detach_target-at id repo server_id db_name w =
      detach_target_rule s doc
        (λ r.
          ((a b : Text) → IsKept a b id w r)
          ⊎ ((a b : Text)
              → tracked_by s doc a b id r.world
                ≡ tracks a b (other_targets server_id db_name (targets_of repo))))
        id repo server_id db_name w (λ _. inl (λ a b. refl)) (λ _. inl (λ a b. refl))
        (λ es _. inl (λ a b. tracked_by-same s doc a b id _ w (doc.remove_all_keeps es w id)))
        (λ ss cs _ _ _ _.
          let v =
            (s.remove_all (filter (is_swept id db_name) ss ++ filter (is_swept id db_name) cs)
              w).world in
          subst
            (λ u.
              ((a b : Text) → tracked_by s doc a b id u ≡ tracked_by s doc a b id w)
              ⊎ ((a b : Text)
                  → tracked_by s doc a b id u
                    ≡ tracks a b (other_targets server_id db_name (targets_of repo))))
            (sym (write_targets-world s doc id repo _ _ v))
            (elim (written-at s doc id repo (other_targets server_id db_name (targets_of repo)) v) [
              | inl still ↦
                  inl
                    (λ a b. tracked_by-same s doc a b id _ w (still ∙ doc.remove_all_keeps _ w id))
              | inr new ↦ inr new
            ]))

  -- Another database of the repository, and every database of another repository.
  pub detach_target-keeps :
      (id : Text) (repo : GitRepo) (server_id db_name : Text) (w : W) (a b k : Text)
      → tracked_by s doc a b id w ≡ tracks a b (targets_of repo)
      → ((k === id) && a === server_id && b === db_name) ≡ false
      → tracked_by s doc a b k (detach_target s id repo server_id db_name w).world
        ≡ tracked_by s doc a b k w
  detach_target-keeps id repo server_id db_name w a b k agree other = elim (Bool-cases (k === id)) [
    | inr far ↦
        tracked_by-same s doc a b k _ w
          (detach_target-elsewhere id repo server_id db_name w k (ne_of_=== far))
    | inl near ↦
        rw ((text_beq_iff k id).0 near) (elim (detach_target-at id repo server_id db_name w) [
          | inl still ↦ still a b
          | inr new ↦
              new a b
              ∙ ground
                  (arith, tracks-other_targets server_id db_name a b (targets_of repo), near, other)
              ∙ sym agree
        ])
  ]

  -- No repository comes to track the target.
  pub detach_target-claims_none :
      (id : Text) (repo : GitRepo) (server_id db_name : Text) (w : W) (k : Text)
      → tracked_by s doc server_id db_name k w ≡ false
      → tracked_by s doc server_id db_name k (detach_target s id repo server_id db_name w).world
        ≡ false
  detach_target-claims_none id repo server_id db_name w k h = elim (Bool-cases (k === id)) [
    | inr far ↦
        tracked_by-same s doc server_id db_name k _ w
          (detach_target-elsewhere id repo server_id db_name w k (ne_of_=== far))
        ∙ h
    | inl near ↦
        rw ((text_beq_iff k id).0 near) (elim (detach_target-at id repo server_id db_name w) [
          | inl still ↦ still server_id db_name ∙ rw (← (text_beq_iff k id).0 near) h
          | inr new ↦
              new server_id db_name ∙ tracks-other_targets_same server_id db_name (targets_of repo)
        ])
  ]

  pub detach_target-adds_none :
      (id : Text) (repo : GitRepo) (server_id db_name : Text) (w : W) (kind : DocKind) (e : Entry)
      → doc.Has kind e (detach_target s id repo server_id db_name w).world
      → doc.Has kind e w
  detach_target-adds_none id repo server_id db_name w kind e =
      detach_target_rule s doc (λ r. doc.Has kind e r.world → doc.Has kind e w) id repo server_id
        db_name w (λ _ h. h) (λ _ h. h) (λ es _ h. doc.remove_all_adds_none es w kind e h)
        (λ ss cs _ _ _ _ h. doc.remove_all_adds_none _ w kind e (
          written-adds_none s doc id repo _ _ kind e
            (subst (doc.Has kind e) (write_targets-world s doc id repo _ _ _) h)))

  -- Either every repository tracks what it did, or no document is left that the target owned.
  pub detach_target-sweeps :
      (id : Text) (repo : GitRepo) (server_id db_name : Text) (w : W)
      → ((a b k : Text) → IsKept a b k w (detach_target s id repo server_id db_name w))
        ⊎ ((kind : DocKind) (e : Entry)
            → doc.Has kind e (detach_target s id repo server_id db_name w).world
            → is_swept id db_name e ≡ false)
  detach_target-sweeps id repo server_id db_name w =
      detach_target_rule s doc
        (λ r.
          ((a b k : Text) → IsKept a b k w r)
          ⊎ ((kind : DocKind) (e : Entry) → doc.Has kind e r.world → is_swept id db_name e ≡ false))
        id repo server_id db_name w (λ _. inl (λ a b k. refl)) (λ _. inl (λ a b k. refl))
        (λ es _. inl (λ a b k. tracked_by-same s doc a b k _ w (doc.remove_all_keeps es w k)))
        (λ ss cs _ g h ok. inr (λ kind e there.
          let v =
            (s.remove_all (filter (is_swept id db_name) ss ++ filter (is_swept id db_name) cs)
              w).world in
          let here : doc.Has kind e v =
            written-adds_none s doc id repo _ v kind e
              (subst (doc.Has kind e) (write_targets-world s doc id repo _ _ v) there) in
          remove_all-sweeps s doc (is_swept id db_name) ss cs w g h ok kind e here))

  -- A target that was tracked no longer is.
  pub detach_target-drops :
      (id : Text) (repo : GitRepo) (server_id db_name : Text) (w : W)
      → tracks server_id db_name (targets_of repo) ≡ true
      → is_done (detach_target s id repo server_id db_name w).answer ≡ true
      → tracked_by s doc server_id db_name id (detach_target s id repo server_id db_name w).world
        ≡ false
  detach_target-drops id repo server_id db_name w t =
      detach_target_rule s doc
        (λ r. is_done r.answer ≡ true → tracked_by s doc server_id db_name id r.world ≡ false) id
        repo server_id db_name w (λ u. absurd (cc (t, u))) (λ _ h. absurd (cc h))
        (λ es _ h. absurd (cc h))
        (λ ss cs _ _ _ _ h.
          write_targets-done s doc id repo _ _ _ server_id db_name h
          ∙ tracks-other_targets_same server_id db_name (targets_of repo))
