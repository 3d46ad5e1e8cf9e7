-- ===== src/RepoRegistry/Putting.antt =====
-- src/services/design-mgmt-service.ts: the write of `registerRepo`, and the claims that it then takes
-- back.
use couch_companion_ui.Prelude.{
  ◌≡◌, refl, sym, ◌∙◌, ap, Bool, true, false, ◌&&◌, Option, none, some, List, Text, ◌===◌, text_eq,
  text_beq_iff, ne_of_===, Bool-cases, All, All-mono, if_rule, ◌⊎◌, inl, inr, arith,
}
use couch_companion_ui.RepoTargets.{GitRepo, tracks}
use couch_companion_ui.RepoRegistry.{Store, Result, Reply, Claim, RegisterRepoBody, targets_of}
use couch_companion_ui.RepoRegistry.Documented.{IsDocumented, stored}
use couch_companion_ui.RepoRegistry.Detaching.{tracks_in, tracked_by}
use couch_companion_ui.RepoRegistry.Claims.{IsOwned, IsCurrent}
use couch_companion_ui.RepoRegistry.Registering.{id_of, Registration, reclaimed}
use couch_companion_ui.RepoRegistry.Exclusive.{IsClaim, claims_of-IsClaim}
use couch_companion_ui.RepoRegistry.Registered.{
  found_in, new_for, put_for, others_in, IsFaithful, registration-IsFaithful,
}

module _ {W : Type 0} (s : Store W) (doc : IsDocumented s) where
  -- A put tracks what was tracked, and what it writes.
  pub put-tracks :
      (k : Text) (r : GitRepo) (w : W) (a b j : Text)
      → (tracked_by s doc a b j (s.put k r w).world ≡ tracked_by s doc a b j w)
        ⊎ ((j ≡ k) × (tracked_by s doc a b j (s.put k r w).world ≡ tracks a b (targets_of r)))
  unfolding tracked_by
  put-tracks k r w a b j = elim (Bool-cases (j === k)) [
    | inr far ↦ inl (ap (tracks_in a b) (doc.put_elsewhere k r w j (ne_of_=== far)))
    | inl near ↦ near_by ((text_beq_iff j k).0 near) (doc.put_at_most k r w)
  ]
    where
      near_by :
          j ≡ k
          → (doc.repo_at k (s.put k r w).world ≡ doc.repo_at k w)
            ⊎ ((rev : Text) × (doc.repo_at k (s.put k r w).world ≡ some (stored k rev r)))
          → (tracked_by s doc a b j (s.put k r w).world ≡ tracked_by s doc a b j w)
            ⊎ ((j ≡ k) × (tracked_by s doc a b j (s.put k r w).world ≡ tracks a b (targets_of r)))
      near_by same (inl still) = rw same (inl (ap (tracks_in a b) still))
      near_by same (inr (rev, new)) = inr (same, rw same (ap (tracks_in a b) new))

  pub reclaimed-world : (repo : GitRepo) (r : Reply W Bool) → (reclaimed s repo r).world ≡ r.world
  reclaimed-world repo r =
      if_rule (λ (x : Reply W (Result GitRepo)). x.world ≡ r.world) r.answer (λ _. refl) (λ _. refl)

  module _ (new_id now server_id db_name : Text) (body : RegisterRepoBody) (w : W)
      (fresh : doc.repo_at new_id w ≡ none) (provider : Option Text) (repos : List GitRepo)
      (listed : s.list_repos w ≡ some repos) where
    abbrev pub new : Registration
    new = new_for s doc new_id now server_id db_name body provider repos

    abbrev pub kept : Option Text
    kept = id_of (found_in s doc new_id now server_id db_name body repos)

    abbrev pub put_world : W
    put_world = (put_for s doc new_id now server_id db_name body provider repos w).world

    abbrev pub others : List Claim
    others = others_in s doc new_id now server_id db_name body repos

    pub new-IsFaithful : IsFaithful s doc new_id now server_id db_name body kept w new
    new-IsFaithful =
        registration-IsFaithful s doc new_id now server_id db_name body provider w repos
          (doc.list_only w repos listed) fresh

    pub others-IsClaim : All (IsClaim s doc server_id db_name kept w) others
    others-IsClaim =
        claims_of-IsClaim s doc server_id db_name _ w repos (doc.list_only w repos listed)

    -- The put keeps the targets of the other databases.
    pub put_for-keeps :
        (a b j : Text)
        → (a === server_id && b === db_name) ≡ false
        → tracked_by s doc a b j put_world ≡ tracked_by s doc a b j w
    put_for-keeps a b j other = elim (put-tracks new.id new.repo w a b j) [
      | inl still ↦ still
      | inr (same, there) ↦
          there ∙ sym (new-IsFaithful.0 a b other) ∙ ap (λ k. tracked_by s doc a b k w) (sym same)
    ]

    pub others-IsCurrent : All (IsCurrent s doc server_id db_name put_world) others
    unfolding tracked_by
    others-IsCurrent =
        All-mono (λ c h a b other. put_for-keeps a b c.id other ∙ ap (tracks_in a b) h.2) others
          others-IsClaim

    put_for-grows :
        (a b j : Text) → tracked_by s doc a b j w ≡ true → tracked_by s doc a b j put_world ≡ true
    put_for-grows a b j h = elim (Bool-cases (a === server_id && b === db_name)) [
      | inr other ↦ put_for-keeps a b j other ∙ h
      | inl same ↦ elim (put-tracks new.id new.repo w a b j) [
        | inl still ↦ still ∙ h
        | inr (_, there) ↦
            there
            ∙ rw
                (
                  (text_beq_iff a server_id).0 (ground (arith, same)),
                  (text_beq_iff b db_name).0 (ground (arith, same)),
                )
                new-IsFaithful.1
      ]
    ]

    pub put_for-IsOwned : IsOwned s doc w → IsOwned s doc put_world
    unfolding IsOwned
    put_for-IsOwned owned kind e there k names =
        go (owned kind e (doc.put_adds_none _ _ w kind e there) k names)
      where
        go :
            (a : Text) × (tracked_by s doc a e.database k w ≡ true)
            → (a : Text) × (tracked_by s doc a e.database k put_world ≡ true)
        go (a, t) = (a, put_for-grows a e.database k t)
