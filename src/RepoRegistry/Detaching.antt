-- ===== src/RepoRegistry/Detaching.antt =====
-- src/services/design-mgmt-service.ts: where `detachTarget` leaves the database, whichever of its
-- requests fails.
use mathlib.Core.List.{Memᴰ}
use mathlib.Core.List.Memᴰ.{head, tail, cases_cons, append_left, append_right}
use mathlib.Core.Path.{subst}
use couch_companion_ui.Prelude.{
  ◌≡◌, ◌≢◌, refl, ap, ℕ, Bool, true, false, Option, none, some, List, [], ◌∷◌, ◌++◌, Text,
  if◌then◌else◌, ◌===◌, text_eq, nat_eq, length, filter, if_rule, Bool-cases, Option-cases, ◌⊎◌,
  inl, inr, arith,
}
use couch_companion_ui.RepoTargets.{RepoTarget, GitRepo, tracks}
use couch_companion_ui.RepoRegistry.{
  DocKind, sync_kind, conflict_kind, Entry, Store, Result, done, Reply, reply, fail, Detached,
  not_removed, targets_of, other_targets, with_targets, is_swept, is_done, write_targets,
  sweep_and_write, detach_target,
}
use couch_companion_ui.RepoRegistry.Targets.{length-other_targets}
use couch_companion_ui.RepoRegistry.Documented.{IsDocumented}

pub mem-filter :
    (p : Entry → Bool) {e : Entry} (es : List Entry) → p e ≡ true → Memᴰ e es → Memᴰ e (filter p es)
mem-filter p [] h m = elim m [ ]
mem-filter p {e} (x ∷ es) h m = elim (cases_cons m) [
  | inl same ↦
      subst (λ y. Memᴰ e (if p y then y ∷ filter p es else filter p es)) same (rw h (head refl))
  | inr later ↦
      if_rule (λ (l : List Entry). Memᴰ e l) (p x) (λ _. tail (mem-filter p es h later))
        (λ _. mem-filter p es h later)
]

abbrev pub tracks_in : Text → Text → Option GitRepo → Bool
tracks_in server_id db_name none = false
tracks_in server_id db_name (some r) = tracks server_id db_name (targets_of r)

module _ {W : Type 0} (s : Store W) (doc : IsDocumented s) where
  -- A bulk delete that succeeds leaves no listed document that it was to delete.
  pub remove_all-sweeps :
      (p : Entry → Bool) (ss cs : List Entry) (w : W)
      → s.list_entries sync_kind w ≡ some ss
      → s.list_entries conflict_kind w ≡ some cs
      → (s.remove_all (filter p ss ++ filter p cs) w).answer ≡ true
      → (kind : DocKind) (e : Entry)
      → doc.Has kind e (s.remove_all (filter p ss ++ filter p cs) w).world
      → p e ≡ false
  remove_all-sweeps p ss cs w g h ok kind e here = elim (Bool-cases (p e)) [
    | inl swept ↦ absurd (
        doc.remove_all_deletes _ w kind e ok
          (among swept kind (doc.remove_all_adds_none _ w kind e here)) here)
    | inr kept ↦ kept
  ]
    where
      among : p e ≡ true → (kind : DocKind) → doc.Has kind e w → Memᴰ e (filter p ss ++ filter p cs)
      among swept sync_kind there =
          append_left _ (mem-filter p ss swept (doc.entries_hold sync_kind w ss g e there))
      among swept conflict_kind there =
          append_right (filter p ss)
            (mem-filter p cs swept (doc.entries_hold conflict_kind w cs h e there))

  -- Whether the repository of id `k` tracks the database.
  unfoldable pub tracked_by : Text → Text → Text → W → Bool
  tracked_by server_id db_name k w = tracks_in server_id db_name (doc.repo_at k w)

  pub tracked_by-same :
      (server_id db_name k : Text) (v w : W)
      → doc.repo_at k v ≡ doc.repo_at k w
      → tracked_by server_id db_name k v ≡ tracked_by server_id db_name k w
  unfolding tracked_by
  tracked_by-same server_id db_name k v w h = ap (tracks_in server_id db_name) h

  -- What holds of each way in which `detachTarget` ends.
  pub detach_target_rule {ℓ} :
      (P : Reply W (Result Detached) → Type ℓ) (id : Text) (repo : GitRepo)
      (server_id db_name : Text) (w : W)
      → (tracks server_id db_name (targets_of repo) ≡ false
          → P (reply w (done (not_removed (length (targets_of repo))))))
      → (tracks server_id db_name (targets_of repo) ≡ true → P (fail w))
      → ((es : List Entry)
          → tracks server_id db_name (targets_of repo) ≡ true
          → P (fail (s.remove_all es w).world))
      → ((ss cs : List Entry)
          → tracks server_id db_name (targets_of repo) ≡ true
          → s.list_entries sync_kind w ≡ some ss
          → s.list_entries conflict_kind w ≡ some cs
          → (s.remove_all
              (filter (is_swept id db_name) ss ++ filter (is_swept id db_name) cs)
              w).answer
            ≡ true
          → P (
              write_targets s id repo
                (length (filter (is_swept id db_name) ss))
                (other_targets server_id db_name (targets_of repo))
                (s.remove_all
                  (filter (is_swept id db_name) ss ++ filter (is_swept id db_name) cs)
                  w).world))
      → P (detach_target s id repo server_id db_name w)
  unfolding detach_target
  detach_target_rule P id repo server_id db_name w untracked unread unswept swept =
      if_rule P
        (length (other_targets server_id db_name (targets_of repo)) === length (targets_of repo))
        (λ e. untracked (ground (arith, length-other_targets server_id db_name (targets_of repo))))
        (λ e.
          listed (ground (arith, length-other_targets server_id db_name (targets_of repo)))
            (s.list_entries sync_kind w) (s.list_entries conflict_kind w) refl refl)
    where
      listed :
          tracks server_id db_name (targets_of repo) ≡ true
          → (o p : Option (List Entry)) → s.list_entries sync_kind w ≡ o
          → s.list_entries conflict_kind w ≡ p
          → P (
              sweep_and_write s id repo db_name
                (other_targets server_id db_name (targets_of repo))
                o
                p
                w)
      listed t none p g h = unread t
      listed t (some ss) none g h = unread t
      listed t (some ss) (some cs) g h =
          if_rule P
            (s.remove_all (filter (is_swept id db_name) ss ++ filter (is_swept id db_name) cs)
              w).answer
            (λ e. swept ss cs t g h e) (λ e. unswept _ t)

  -- The database after the write of what is left to track.
  abbrev pub written : Text → GitRepo → List RepoTarget → W → W
  written id repo [] w = (s.remove id w).world
  written id repo (t ∷ ts) w = (s.put id (with_targets (t ∷ ts) repo) w).world

  pub write_targets-world :
      (id : Text) (repo : GitRepo) (n : ℕ) (ts : List RepoTarget) (w : W)
      → (write_targets s id repo n ts w).world ≡ written id repo ts w
  write_targets-world id repo n [] w =
      if_rule (λ (r : Reply W (Result Detached)). r.world ≡ (s.remove id w).world)
        (s.remove id w).answer (λ _. refl) (λ _. refl)
  write_targets-world id repo n (t ∷ ts) w =
      elim (Option-cases (s.put id (with_targets (t ∷ ts) repo) w).answer) [
        | inl e ↦ rw e refl
        | inr (a, e) ↦ rw e refl
      ]

  pub written-elsewhere :
      (id : Text) (repo : GitRepo) (ts : List RepoTarget) (w : W) (j : Text)
      → j ≢ id
      → doc.repo_at j (written id repo ts w) ≡ doc.repo_at j w
  written-elsewhere id repo [] w j h = doc.remove_elsewhere id w j h
  written-elsewhere id repo (t ∷ ts) w j h = doc.put_elsewhere id _ w j h

  pub written-at :
      (id : Text) (repo : GitRepo) (ts : List RepoTarget) (w : W)
      → (doc.repo_at id (written id repo ts w) ≡ doc.repo_at id w)
        ⊎ ((a b : Text) → tracked_by a b id (written id repo ts w) ≡ tracks a b ts)
  unfolding tracked_by
  written-at id repo [] w = elim (doc.remove_at_most id w) [
    | inl same ↦ inl same
    | inr gone ↦ inr (λ a b. ap (tracks_in a b) gone)
  ]
  written-at id repo (t ∷ ts) w = elim (doc.put_at_most id (with_targets (t ∷ ts) repo) w) [
    | inl same ↦ inl same
    | inr (rev, new) ↦ inr (λ a b. ap (tracks_in a b) new)
  ]

  pub written-adds_none :
      (id : Text) (repo : GitRepo) (ts : List RepoTarget) (w : W) (k : DocKind) (e : Entry)
      → doc.Has k e (written id repo ts w)
      → doc.Has k e w
  written-adds_none id repo [] w k e h = doc.remove_adds_none id w k e h
  written-adds_none id repo (t ∷ ts) w k e h = doc.put_adds_none id _ w k e h

  pub write_targets-done :
      (id : Text) (repo : GitRepo) (n : ℕ) (ts : List RepoTarget) (w : W) (a b : Text)
      → is_done (write_targets s id repo n ts w).answer ≡ true
      → tracked_by a b id (write_targets s id repo n ts w).world ≡ tracks a b ts
  unfolding tracked_by
  write_targets-done id repo n [] w a b h =
      if_rule
        (λ (r : Reply W (Result Detached)).
          is_done r.answer ≡ true → tracks_in a b (doc.repo_at id r.world) ≡ false)
        (s.remove id w).answer (λ e k. ap (tracks_in a b) (doc.remove_writes id w e))
        (λ e k. absurd (cc k)) h
  write_targets-done id repo n (t ∷ ts) w a b h =
      elim (Option-cases (s.put id (with_targets (t ∷ ts) repo) w).answer) [
        | inl e ↦ absurd (cc (rw e at h))
        | inr (v, e) ↦
            rw e (ap (tracks_in a b) (doc.put_writes id (with_targets (t ∷ ts) repo) w v e).1)
      ]
