-- ===== src/RepoRegistry/Claims.antt =====
-- src/services/design-mgmt-service.ts: how `registerRepo` takes a target back from every other
-- repository, and that no sweep leaves a document without its repository.
use couch_companion_ui.Prelude.{
  ◌≡◌, ◌≢◌, refl, ◌∙◌, ap, Bool, true, false, ◌&&◌, some, List, [], ◌∷◌, Text, ◌===◌, text_eq,
  option_beq_iff, Bool-cases, All, All-mono, inl, inr, arith,
}
use couch_companion_ui.RepoTargets.{tracks}
use couch_companion_ui.RepoRegistry.{
  DocKind, Entry, Store, Claim, targets_of, is_owned_by, is_swept, is_done, detach_target,
  detach_claims,
}
use couch_companion_ui.RepoRegistry.Documented.{IsDocumented}
use couch_companion_ui.RepoRegistry.Detaching.{tracked_by, tracked_by-same}
use couch_companion_ui.RepoRegistry.Sweeping.{
  detach_target-elsewhere, detach_target-keeps, detach_target-claims_none, detach_target-adds_none,
  detach_target-sweeps, detach_target-drops,
}

module _ {W : Type 0} (s : Store W) (doc : IsDocumented s) where
  -- Every document that names a repository belongs to a database that this repository tracks.
  unfoldable pub IsOwned : W → Type 0
  IsOwned w =
      (kind : DocKind) (e : Entry)
      → doc.Has kind e w
      → (k : Text) → e.git_repo_id ≡ some k
      → (a : Text) × (tracked_by s doc a e.database k w ≡ true)

  -- The given copy of a repository lists, of the other databases, what the stored one does.
  abbrev pub IsCurrent : Text → Text → W → Claim → Type 0
  IsCurrent server_id db_name w c =
      (a b : Text)
      → (a === server_id && b === db_name) ≡ false
      → tracked_by s doc a b c.id w ≡ tracks a b (targets_of c.repo)

  other_target : (p q r : Bool) → (q && r) ≡ false → (p && q && r) ≡ false
  other_target p q r h = ground arith

  module _ (server_id db_name : Text) where
    detach_target-IsCurrent :
        (c d : Claim) (w : W)
        → IsCurrent server_id db_name w c
        → IsCurrent server_id db_name w d
        → IsCurrent server_id db_name (detach_target s c.id c.repo server_id db_name w).world d
    detach_target-IsCurrent c d w h k a b other =
        detach_target-keeps s doc c.id c.repo server_id db_name w a b d.id (h a b other)
          (other_target (d.id === c.id) (a === server_id) (b === db_name) other)
        ∙ k a b other

    pub detach_target-IsOwned :
        (c : Claim) (w : W)
        → IsCurrent server_id db_name w c
        → IsOwned w
        → IsOwned (detach_target s c.id c.repo server_id db_name w).world
    unfolding IsOwned
    detach_target-IsOwned c w h owned kind e there k names = go (
        owned kind e (detach_target-adds_none s doc c.id c.repo server_id db_name w kind e there) k
          names)
      where
        elsewhere :
            (a : Text)
            → is_swept c.id db_name e ≡ false
            → (a === server_id && e.database === db_name) ≡ true
            → k ≢ c.id
        elsewhere a h same near =
            let mine : is_owned_by c.id e ≡ true =
              (option_beq_iff e.git_repo_id (some c.id)).1 (names ∙ ap some near) in
            absurd (ground (arith, h, same, mine))

        go :
            (a : Text) × (tracked_by s doc a e.database k w ≡ true)
            → (a : Text) × (tracked_by s doc a e.database k
                  (detach_target s c.id c.repo server_id db_name w).world
                ≡ true)
        go (a, t) = elim (detach_target-sweeps s doc c.id c.repo server_id db_name w) [
          | inl still ↦ (a, still a e.database k ∙ t)
          | inr swept ↦ elim (Bool-cases (a === server_id && e.database === db_name)) [
            | inr other ↦ (
              a,
              (detach_target-keeps s doc c.id c.repo server_id db_name w a e.database k
                    (h a e.database other)
                    (other_target (k === c.id) (a === server_id) (e.database === db_name) other)
                  ∙ t),
            )
            | inl same ↦ (
              a,
              (tracked_by-same s doc a e.database k _ w (
                    detach_target-elsewhere s doc c.id c.repo server_id db_name w k
                      (elsewhere a (swept kind e there) same))
                  ∙ t),
            )
          ]
        ]

    pub detach_claims-keeps :
        (cs : List Claim) (w : W) (a b k : Text)
        → All (IsCurrent server_id db_name w) cs
        → (a === server_id && b === db_name) ≡ false
        → tracked_by s doc a b k (detach_claims s server_id db_name cs w).world
          ≡ tracked_by s doc a b k w
    detach_claims-keeps [] w a b k h other = refl
    detach_claims-keeps (c ∷ cs) w a b k (h, hs) other =
        detach_claims-keeps cs _ a b k (All-mono (λ d. detach_target-IsCurrent c d w h) cs hs) other
        ∙ detach_target-keeps s doc c.id c.repo server_id db_name w a b k (h a b other)
            (other_target (k === c.id) (a === server_id) (b === db_name) other)

    pub detach_claims-IsOwned :
        (cs : List Claim) (w : W)
        → All (IsCurrent server_id db_name w) cs
        → IsOwned w
        → IsOwned (detach_claims s server_id db_name cs w).world
    detach_claims-IsOwned [] w h owned = owned
    detach_claims-IsOwned (c ∷ cs) w (h, hs) owned =
        detach_claims-IsOwned cs _ (All-mono (λ d. detach_target-IsCurrent c d w h) cs hs)
          (detach_target-IsOwned c w h owned)

    pub detach_claims-claims_none :
        (cs : List Claim) (w : W) (k : Text)
        → tracked_by s doc server_id db_name k w ≡ false
        → tracked_by s doc server_id db_name k (detach_claims s server_id db_name cs w).world
          ≡ false
    detach_claims-claims_none [] w k h = h
    detach_claims-claims_none (c ∷ cs) w k h =
        detach_claims-claims_none cs _ k
          (detach_target-claims_none s doc c.id c.repo server_id db_name w k h)

    pub detach_claims-elsewhere :
        (cs : List Claim) (w : W) (k : Text)
        → All (λ c. k ≢ c.id) cs
        → doc.repo_at k (detach_claims s server_id db_name cs w).world ≡ doc.repo_at k w
    detach_claims-elsewhere [] w k h = refl
    detach_claims-elsewhere (c ∷ cs) w k (h, hs) =
        detach_claims-elsewhere cs _ k hs
        ∙ detach_target-elsewhere s doc c.id c.repo server_id db_name w k h

    pub detach_claims-drops :
        (cs : List Claim) (w : W)
        → All (λ c. tracks server_id db_name (targets_of c.repo) ≡ true) cs
        → (detach_claims s server_id db_name cs w).answer ≡ true
        → All
            (λ c.
              tracked_by s doc server_id db_name c.id (detach_claims s server_id db_name cs w).world
              ≡ false)
            cs
    detach_claims-drops [] w h ok = tt
    detach_claims-drops (c ∷ cs) w (h, hs) ok =
        let d = detach_target s c.id c.repo server_id db_name w in
        let first : is_done d.answer ≡ true = ground (arith, ok) in
        let rest : (detach_claims s server_id db_name cs d.world).answer ≡ true =
          ground (arith, ok) in
        (
          detach_claims-claims_none cs d.world c.id
              (detach_target-drops s doc c.id c.repo server_id db_name w h first),
          detach_claims-drops cs d.world hs rest,
        )
