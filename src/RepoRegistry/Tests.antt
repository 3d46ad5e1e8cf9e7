-- ===== src/RepoRegistry/Tests.antt =====
-- Tests of the repository registry, on a store in memory.
use mathlib.Core.List.{Memᴰ}
use mathlib.Core.Path.{subst}
use couch_companion_ui.Prelude.{
  is_space, trim, ◌≡◌, refl, sym, ◌∙◌, ap, Bool, true, not, Option, none, some, List, [], ◌∷◌, map,
  Text, codes, if◌then◌else◌, text_eq, ===_refl, ===_ne, get, set, delete, keys, get-set,
  get-delete, inr,
}
use couch_companion_ui.RepoUrl.{parse_repo_url, repo_identity}
use couch_companion_ui.RepoTargets.{RepoTarget, GitRepo}
use couch_companion_ui.RepoRegistry.{Entry, Saved, RegisterRepoBody, detach_target}
use couch_companion_ui.RepoRegistry.Documented.{IsDocumented, stored}
use couch_companion_ui.RepoRegistry.Memory.{
  Memory, first_rev, doc_at, stored_in, rows_for, entries_in, memory, mem-keys, row-rows,
  rows-stored_in, filter-mem, filter-passes, mem-contains, without-mem, same_entries,
}
use couch_companion_ui.RepoRegistry.Registering.{register_repo}

listed : {A : Type 0} {x y : A} → some x ≡ some y → x ≡ y
listed {A} {x} e = ap (λ o. elim o [ none ↦ x | some z ↦ z ]) e

clash : {b : Bool} → b ≡ true → not b ≡ true → ⊥
clash h k = cc (rw h at k)

held :
    (m : Memory) (rs : List GitRepo)
    → some (rows_for m.repos (keys m.repos)) ≡ some rs
    → (k : Text) (r : GitRepo) → stored_in k m ≡ some r
    → (o : Option GitRepo) → get k m.repos ≡ o
    → Memᴰ r rs × (r.id ≡ some k)
held m rs e k r there none g = absurd (cc (sym there ∙ ap (doc_at k) g))
held m rs e k r there (some x) g =
    let same : stored k first_rev x ≡ r = listed (sym (ap (doc_at k) g) ∙ there) in
    (
      subst (λ y. Memᴰ y rs) same
          (subst (Memᴰ (stored k first_rev x)) (listed e)
            (row-rows m.repos k (keys m.repos) x g (mem-keys k m.repos x g))),
      ap (λ y. y.id) (sym same),
    )

put_there :
    (k : Text) (r : GitRepo) (m : Memory)
    → stored_in k (record m { repos = set k r m.repos }) ≡ some (stored k first_rev r)
put_there k r m =
    ap (doc_at k)
      (get-set k k r m.repos ∙ ap (λ b. if b then some r else get k m.repos) (===_refl k))

put_at :
    (k : Text) (r : GitRepo) (m : Memory) (a : Saved)
    → record { id = k; rev = first_rev } ≡ a
    → (a.id ≡ k) × (stored_in k (record m { repos = set k r m.repos }) ≡ some (stored k a.rev r))
put_at k r m a e =
    subst
      (λ v.
        (v.id ≡ k) × (stored_in k (record m { repos = set k r m.repos }) ≡ some (stored k v.rev r)))
      e (refl, put_there k r m)

deleted : (k : Text) (m : Memory) → stored_in k (record m { repos = delete k m.repos }) ≡ none
deleted k m =
    ap (doc_at k)
      (get-delete k k m.repos ∙ ap (λ b. if b then none else get k m.repos) (===_refl k))

abbrev memory-IsDocumented : IsDocumented memory
memory-IsDocumented = record {
  repo_at = stored_in;
  Has = λ kind e m. Memᴰ e (entries_in kind m);
  list_holds = λ m rs e k r there. held m rs e k r there (get k m.repos) refl;
  list_only = λ m rs e r h. rows-stored_in m (keys m.repos) r (subst (Memᴰ r) (listed (sym e)) h);
  entries_hold = λ k m es e x h. subst (Memᴰ x) (listed e) h;
  get_finds = λ k m o e. listed e;
  put_writes = λ k r m a e. put_at k r m a (listed e);
  put_at_most = λ k r m. inr (first_rev, put_there k r m);
  put_elsewhere = λ k r m j far. ap (doc_at j) (
      get-set k j r m.repos
      ∙ ap (λ b. if b then some r else get j m.repos) (===_ne (λ e. far (sym e))));
  put_adds_none = λ k r m kind e h. subst (Memᴰ e) (same_entries kind m (set k r m.repos)) h;
  remove_at_most = λ k m. inr (deleted k m);
  remove_writes = λ k m _. deleted k m;
  remove_elsewhere = λ k m j far. ap (doc_at j) (
      get-delete k j m.repos
      ∙ ap (λ b. if b then none else get j m.repos) (===_ne (λ e. far (sym e))));
  remove_adds_none = λ k m kind e h. subst (Memᴰ e) (same_entries kind m (delete k m.repos)) h;
  remove_all_keeps = λ es m k. refl;
  remove_all_adds_none =
      λ es m kind e h. filter-mem _ e (entries_in kind m) (without-mem es m kind e h);
  remove_all_deletes = λ es m kind e _ among h.
      clash (mem-contains e es among)
        (filter-passes _ e (entries_in kind m) (without-mem es m kind e h));
}

abbrev target_of : Text → RepoTarget
target_of db_name = record {
  server_id = codes "local";
  db_name = db_name;
  branch = codes "main";
  path = [];
}

abbrev repo_of : Text → List RepoTarget → GitRepo
repo_of url targets = record {
  id = none;
  rev = none;
  doc_type = none;
  name = none;
  provider = none;
  url = some url;
  mode = none;
  account_id = none;
  sync_targets = some targets;
  last_sync = none;
  sync_status = none;
  created_at = none;
}

abbrev url_a : Text
url_a = codes "https://github.com/acme/widgets"

abbrev url_b : Text
url_b = codes "git@github.com:acme/gears.git"

abbrev doc_entry : Text → Text → Text → Entry
doc_entry id repo_id db_name = record { id = id; git_repo_id = some repo_id; database = db_name }

-- Repository `r1` tracks the databases `a` and `b`, and `r2` tracks `c`.
abbrev before : Memory
before = record {
  repos =
      (codes "r1", repo_of url_a (target_of (codes "a") ∷ target_of (codes "b") ∷ []))
      ∷ (codes "r2", repo_of url_b (target_of (codes "c") ∷ []))
      ∷ [];
  syncs =
      doc_entry (codes "s1") (codes "r1") (codes "a")
      ∷ doc_entry (codes "s2") (codes "r1") (codes "b")
      ∷ doc_entry (codes "s3") (codes "r2") (codes "c")
      ∷ [];
  conflicts = doc_entry (codes "c1") (codes "r1") (codes "a") ∷ [];
}

-- Database `a` is pointed at the other repository, under another spelling of its address.
abbrev body : RegisterRepoBody
body = record {
  url = codes "https://GitHub.com/Acme/gears/";
  name = none;
  branch = some (codes "dev");
  path = none;
  account_id = none;
}

abbrev registered : Memory
registered =
    (register_repo memory (codes "r3") (codes "now") (codes "local") (codes "a") body before).world

re_pointed :
    map (λ r. r.id) (rows_for registered.repos (keys registered.repos))
    ≡ some (codes "r1") ∷ some (codes "r2") ∷ []
unfolding register_repo detach_target repo_identity parse_repo_url is_space trim
re_pointed = refl

re_pointed_swept : map (λ e. e.id) registered.syncs ≡ codes "s2" ∷ codes "s3" ∷ []
unfolding register_repo detach_target repo_identity parse_repo_url is_space trim
re_pointed_swept = refl
