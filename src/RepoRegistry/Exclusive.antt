-- ===== src/RepoRegistry/Exclusive.antt =====
-- src/services/design-mgmt-service.ts: what `registerRepo` writes, and that the repository it returns
-- is then the only one to track the database.
use mathlib.Core.List.{Memᴰ}
use mathlib.Core.List.Memᴰ.{head, tail, cases_cons}
use mathlib.Core.Path.{subst}
use couch_companion_ui.Prelude.{
  ◌≡◌, refl, sym, true, false, not, ◌&&◌, ◌||◌, Option, none, some, List, [], ◌∷◌, ◌++◌, Text,
  ◌===◌, text_eq, option_beq, Option-cases, All, if_rule, ◌⊎◌, inl, inr, arith,
}
use couch_companion_ui.RepoTargets.{RepoTarget, GitRepo, tracks}
use couch_companion_ui.RepoRegistry.{Store, Claim, targets_of, claims_of}
use couch_companion_ui.RepoRegistry.Documented.{IsDocumented}
use couch_companion_ui.RepoRegistry.Registering.{find_identity, has_identity}

pub All-mem : {A : Type 0} (P : A → Type 0) {a : A} (xs : List A) → Memᴰ a xs → All P xs → P a
All-mem P [] m h = elim m [ ]
All-mem P {a} (x ∷ xs) m (h, hs) = elim (cases_cons m) [
  | inl same ↦ subst P (sym same) h
  | inr later ↦ All-mem P xs later hs
]

pub find_identity-mem :
    (identity : Text) (rs : List GitRepo) (r : GitRepo)
    → find_identity identity rs ≡ some r
    → Memᴰ r rs
find_identity-mem identity [] r h = absurd (cc h)
find_identity-mem identity (x ∷ rs) r h =
    if_rule (λ (o : Option GitRepo). o ≡ some r → Memᴰ r (x ∷ rs)) (has_identity identity x.url)
      (λ _ e. let same : x ≡ r = ground (arith, e) in head (sym same))
      (λ _ e. tail (find_identity-mem identity rs r e)) h

pub tracks-append_one :
    (a b : Text) (ts : List RepoTarget) (t : RepoTarget)
    → tracks a b (ts ++ t ∷ []) ≡ (tracks a b ts || (t.server_id === a && t.db_name === b))
tracks-append_one a b [] t = ground arith
tracks-append_one a b (u ∷ ts) t = ground (arith, tracks-append_one a b ts t)

module _ {W : Type 0} (s : Store W) (doc : IsDocumented s) where
  -- Each of them is stored, under its id.
  abbrev pub IsListed : W → List GitRepo → Type 0
  IsListed w rs =
      (r : GitRepo) → Memᴰ r rs → (k : Text) × (r.id ≡ some k) × (doc.repo_at k w ≡ some r)

module _ {W : Type 0} (s : Store W) (doc : IsDocumented s) (server_id db_name : Text) where
  -- The claims are those of the stored repositories that track the target, but for one.
  abbrev pub IsClaim : Option Text → W → Claim → Type 0
  IsClaim kept w c =
      (option_beq kept (some c.id) ≡ false)
      × (tracks server_id db_name (targets_of c.repo) ≡ true)
      × (doc.repo_at c.id w ≡ some c.repo)

  pub claims_of-IsClaim :
      (kept : Option Text) (w : W) (rs : List GitRepo)
      → IsListed s doc w rs
      → All (IsClaim kept w) (claims_of server_id db_name kept rs)
  claims_of-IsClaim kept w [] h = tt
  claims_of-IsClaim kept w (r ∷ rs) h =
      go (h r (head refl)) (claims_of-IsClaim kept w rs (λ x m. h x (tail m)))
    where
      go :
          (k : Text) × (r.id ≡ some k) × (doc.repo_at k w ≡ some r)
          → All (IsClaim kept w) (claims_of server_id db_name kept rs)
          → All (IsClaim kept w) (claims_of server_id db_name kept (r ∷ rs))
      go (k, i, there) rest = rw i (
          if_rule (λ (cs : List Claim). All (IsClaim kept w) cs)
            (not (option_beq kept (some k)) && tracks server_id db_name (targets_of r))
            (λ e. ((ground (arith, e), ground (arith, e), there), rest)) (λ _. rest))

  pub claims_of-all :
      (kept : Option Text) (rs : List GitRepo) (r : GitRepo) (k : Text)
      → Memᴰ r rs
      → r.id ≡ some k
      → option_beq kept (some k) ≡ false
      → tracks server_id db_name (targets_of r) ≡ true
      → Memᴰ (record { id = k; repo = r }) (claims_of server_id db_name kept rs)
  claims_of-all kept [] r k m i other t = elim m [ ]
  claims_of-all kept (x ∷ rs) r k m i other t = elim (cases_cons m) [
    | inl same ↦
        subst (λ y. Memᴰ (record { id = k; repo = r }) (claims_of server_id db_name kept (y ∷ rs)))
          same (simp (i, other, t) (head refl))
    | inr later ↦ further (claims_of-all kept rs r k later i other t) (Option-cases x.id)
  ]
    where
      further :
          Memᴰ (record { id = k; repo = r }) (claims_of server_id db_name kept rs)
          → (x.id ≡ none) ⊎ ((j : Text) × (x.id ≡ some j))
          → Memᴰ (record { id = k; repo = r }) (claims_of server_id db_name kept (x ∷ rs))
      further rest (inl e) = rw e rest
      further rest (inr (j, e)) = rw e (
          if_rule (λ (cs : List Claim). Memᴰ (record { id = k; repo = r }) cs)
            (not (option_beq kept (some j)) && tracks server_id db_name (targets_of x))
            (λ _. tail rest) (λ _. rest))
