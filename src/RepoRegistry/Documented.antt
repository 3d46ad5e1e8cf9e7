-- ===== src/RepoRegistry/Documented.antt =====
-- What the lemmas on `registerRepo` and its siblings assume of the store behind
-- src/services/design-mgmt-service.ts. `CouchCompanionStore` of
-- src/services/git/couchcompanion-store.ts is not modelled: it lists only the ids with the prefix of a
-- kind, so the assumptions speak of a store whose ids are all of their kind.
use mathlib.Core.List.{Memᴰ}
use couch_companion_ui.Prelude.{◌≡◌, ◌≢◌, true, Option, none, some, List, Text, ◌⊎◌}
use couch_companion_ui.RepoTargets.{GitRepo}
use couch_companion_ui.RepoRegistry.{DocKind, Entry, Saved, Store}

-- A repository as the database keeps it.
abbrev pub stored : Text → Text → GitRepo → GitRepo
stored id rev repo = record repo { id = some id; rev = some rev }

-- `repo_at id w` is the repository document of that id, and `Has k e w` says that the database holds
-- the document `e` of kind `k`. A write that fails may have been carried out before the answer was
-- lost; a bulk delete that fails may have deleted some of its documents.
pub record IsDocumented {W : Type 0} (s : Store W) : Type 1 where
  pub repo_at : Text → W → Option GitRepo
  pub Has : DocKind → Entry → W → Type 0
  pub list_holds :
      (w : W) (rs : List GitRepo)
      → s.list_repos w ≡ some rs
      → (k : Text) (r : GitRepo) → repo_at k w ≡ some r
      → Memᴰ r rs × (r.id ≡ some k)
  pub list_only :
      (w : W) (rs : List GitRepo)
      → s.list_repos w ≡ some rs
      → (r : GitRepo) → Memᴰ r rs
      → (k : Text) × (r.id ≡ some k) × (repo_at k w ≡ some r)
  pub entries_hold :
      (k : DocKind) (w : W) (es : List Entry)
      → s.list_entries k w ≡ some es
      → (e : Entry) → Has k e w
      → Memᴰ e es
  pub get_finds :
      (k : Text) (w : W) (o : Option GitRepo) → s.get_repo_doc k w ≡ some o → repo_at k w ≡ o
  pub put_writes :
      (k : Text) (r : GitRepo) (w : W) (a : Saved)
      → (s.put k r w).answer ≡ some a
      → (a.id ≡ k) × (repo_at k (s.put k r w).world ≡ some (stored k a.rev r))
  pub put_at_most :
      (k : Text) (r : GitRepo) (w : W)
      → (repo_at k (s.put k r w).world ≡ repo_at k w)
        ⊎ ((rev : Text) × (repo_at k (s.put k r w).world ≡ some (stored k rev r)))
  pub put_elsewhere :
      (k : Text) (r : GitRepo) (w : W) (j : Text)
      → j ≢ k
      → repo_at j (s.put k r w).world ≡ repo_at j w
  pub put_adds_none :
      (k : Text) (r : GitRepo) (w : W) (kind : DocKind) (e : Entry)
      → Has kind e (s.put k r w).world
      → Has kind e w
  pub remove_at_most :
      (k : Text) (w : W)
      → (repo_at k (s.remove k w).world ≡ repo_at k w) ⊎ (repo_at k (s.remove k w).world ≡ none)
  pub remove_writes :
      (k : Text) (w : W) → (s.remove k w).answer ≡ true → repo_at k (s.remove k w).world ≡ none
  pub remove_elsewhere :
      (k : Text) (w : W) (j : Text) → j ≢ k → repo_at j (s.remove k w).world ≡ repo_at j w
  pub remove_adds_none :
      (k : Text) (w : W) (kind : DocKind) (e : Entry)
      → Has kind e (s.remove k w).world
      → Has kind e w
  pub remove_all_keeps :
      (es : List Entry) (w : W) (k : Text) → repo_at k (s.remove_all es w).world ≡ repo_at k w
  pub remove_all_adds_none :
      (es : List Entry) (w : W) (kind : DocKind) (e : Entry)
      → Has kind e (s.remove_all es w).world
      → Has kind e w
  pub remove_all_deletes :
      (es : List Entry) (w : W) (kind : DocKind) (e : Entry)
      → (s.remove_all es w).answer ≡ true
      → Memᴰ e es
      → Has kind e (s.remove_all es w).world
      → ⊥
