-- ===== src/RepoRegistry/Memory.antt =====
-- A store in memory that behaves as documented, for the tests of the repository registry.
use mathlib.Core.List.{Memᴰ}
use mathlib.Core.List.Memᴰ.{head, tail, cases_cons, append_left, append_right}
use mathlib.Core.Path.{subst}
use couch_companion_ui.Prelude.{
  ◌≡◌, refl, sym, ◌∙◌, ap, Bool, true, not, Option, none, some, List, [], ◌∷◌, ◌++◌, map, Text,
  codes, ◌===◌, text_eq, text_beq_iff, ===_refl, contains, filter, flat_map, Dict, get, set, delete,
  keys, if_rule, inl, inr, arith,
}
use couch_companion_ui.RepoTargets.{GitRepo}
use couch_companion_ui.RepoRegistry.{DocKind, sync_kind, conflict_kind, Entry, reply, Store}
use couch_companion_ui.RepoRegistry.Documented.{stored}

pub record Memory : Type 0 where
  pub repos : Dict Text GitRepo
  pub syncs : List Entry
  pub conflicts : List Entry

abbrev pub first_rev : Text
first_rev = codes "1"

abbrev row_at : Text → Option GitRepo → List GitRepo
row_at k none = []
row_at k (some r) = stored k first_rev r ∷ []

abbrev pub doc_at : Text → Option GitRepo → Option GitRepo
doc_at k none = none
doc_at k (some r) = some (stored k first_rev r)

abbrev pub stored_in : Text → Memory → Option GitRepo
stored_in k m = doc_at k (get k m.repos)

abbrev pub rows_for : Dict Text GitRepo → List Text → List GitRepo
rows_for d ks = flat_map (λ k. row_at k (get k d)) ks

abbrev pub entries_in : DocKind → Memory → List Entry
entries_in sync_kind m = m.syncs
entries_in conflict_kind m = m.conflicts

abbrev pub without : List Entry → List Entry → List Entry
without es xs = filter (λ x. not (contains x.id (map (λ e. e.id) es))) xs

abbrev pub memory : Store Memory
memory = record {
  list_repos = λ m. some (rows_for m.repos (keys m.repos));
  list_entries = λ k m. some (entries_in k m);
  get_repo_doc = λ k m. some (stored_in k m);
  get_account = λ k m. some none;
  put = λ k r m.
      reply (record m { repos = set k r m.repos }) (some (record { id = k; rev = first_rev }));
  remove = λ k m. reply (record m { repos = delete k m.repos }) true;
  remove_all = λ es m.
      reply (record m { syncs = without es m.syncs; conflicts = without es m.conflicts }) true;
}

pub mem-keys : (k : Text) (d : Dict Text GitRepo) (r : GitRepo) → get k d ≡ some r → Memᴰ k (keys d)
mem-keys k [] r h = absurd (cc h)
mem-keys k ((j, x) ∷ d) r h =
    if_rule (λ (o : Option GitRepo). o ≡ some r → Memᴰ k (j ∷ keys d)) (j === k)
      (λ same _. head (sym ((text_beq_iff j k).0 same))) (λ _ e. tail (mem-keys k d r e)) h

pub row-rows :
    (d : Dict Text GitRepo) (k : Text) (ks : List Text) (r : GitRepo)
    → get k d ≡ some r
    → Memᴰ k ks
    → Memᴰ (stored k first_rev r) (rows_for d ks)
row-rows d k [] r h m = elim m [ ]
row-rows d k (j ∷ ks) r h m = elim (cases_cons m) [
  | inl same ↦ append_left (rows_for d ks) (
      subst (λ i. Memᴰ (stored k first_rev r) (row_at i (get i d))) same
        (subst (λ o. Memᴰ (stored k first_rev r) (row_at k o)) (sym h) (head refl)))
  | inr later ↦ append_right (row_at j (get j d)) (row-rows d k ks r h later)
]

pub rows-stored_in :
    (m : Memory) (ks : List Text) (r : GitRepo)
    → Memᴰ r (rows_for m.repos ks)
    → (k : Text) × (r.id ≡ some k) × (stored_in k m ≡ some r)
rows-stored_in m [] r h = elim h [ ]
rows-stored_in m (k ∷ ks) r h = go (get k m.repos) refl h (rows-stored_in m ks r)
  where
    go :
        (o : Option GitRepo)
        → get k m.repos ≡ o
        → Memᴰ r (row_at k o ++ rows_for m.repos ks)
        → (Memᴰ r (rows_for m.repos ks) → (k : Text) × (r.id ≡ some k) × (stored_in k m ≡ some r))
        → (k : Text) × (r.id ≡ some k) × (stored_in k m ≡ some r)
    go none e h rest = rest h
    go (some x) e h rest = elim (cases_cons h) [
      | inl same ↦ (k, ap (λ y. y.id) same, ap (doc_at k) e ∙ ap some (sym same))
      | inr later ↦ rest later
    ]

pub filter-mem : (p : Entry → Bool) (e : Entry) (xs : List Entry) → Memᴰ e (filter p xs) → Memᴰ e xs
filter-mem p e [] m = m
filter-mem p e (x ∷ xs) m =
    if_rule (λ (l : List Entry). Memᴰ e l → Memᴰ e (x ∷ xs)) (p x)
      (λ _ n. elim (cases_cons n) [
        | inl same ↦ head same
        | inr later ↦ tail (filter-mem p e xs later)
      ])
      (λ _ n. tail (filter-mem p e xs n)) m

pub filter-passes :
    (p : Entry → Bool) (e : Entry) (xs : List Entry) → Memᴰ e (filter p xs) → p e ≡ true
filter-passes p e [] m = elim m [ ]
filter-passes p e (x ∷ xs) m =
    if_rule (λ (l : List Entry). Memᴰ e l → p e ≡ true) (p x)
      (λ h n. elim (cases_cons n) [
        | inl same ↦ ap p same ∙ h
        | inr later ↦ filter-passes p e xs later
      ])
      (λ _ n. filter-passes p e xs n) m

pub mem-contains :
    (e : Entry) (es : List Entry) → Memᴰ e es → contains e.id (map (λ x. x.id) es) ≡ true
mem-contains e [] m = elim m [ ]
mem-contains e (x ∷ es) m = elim (cases_cons m) [
  | inl same ↦ ground (arith, ap (λ y. y.id === e.id) same, ===_refl e.id)
  | inr later ↦ ground (arith, mem-contains e es later)
]

pub without-mem :
    (es : List Entry) (m : Memory) (kind : DocKind) (e : Entry)
    → Memᴰ e (entries_in kind (memory.remove_all es m).world)
    → Memᴰ e (without es (entries_in kind m))
without-mem es m sync_kind e h = h
without-mem es m conflict_kind e h = h

pub same_entries :
    (kind : DocKind) (m : Memory) (d : Dict Text GitRepo)
    → entries_in kind (record m { repos = d }) ≡ entries_in kind m
same_entries sync_kind m d = refl
same_entries conflict_kind m d = refl
