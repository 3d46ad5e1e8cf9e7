-- ===== src/RepoTargets/Index.antt =====
-- src/services/repo-targets.ts: the index names the repository that `getRepo` finds.
use mathlib.Core.Path.{subst}
use couch_companion_ui.Prelude.{
  ◌≡◌, refl, ap, sym, ◌∙◌, Bool, true, false, ◌&&◌, ◌||◌, Option, none, some, List, [], ◌∷◌, ◌++◌,
  map, Text, if◌then◌else◌, ◌===◌, nat_eq, text_eq, if_rule, ===_refl, text_beq_iff, contains,
  option_or, Dict, get, has, set, get-set, All, Bool-cases, Option-cases, inl, inr, arith,
}
use couch_companion_ui.RepoTargets.{
  RepoTarget, GitRepo, RepoTargetRow, row_for, flatten_repos_to_targets, target_key, row_key,
  index_rows, index_targets_by_database, tracks, get_repo,
}

abbrev first_row : Text → List RepoTargetRow → Option RepoTargetRow
first_row key [] = none
first_row key (r ∷ rs) = if row_key r === key then some r else first_row key rs

abbrev else_row : Option RepoTargetRow → Option RepoTargetRow → Option RepoTargetRow
else_row none o = o
else_row (some r) o = some r

abbrev pub repo_in : Option RepoTargetRow → Option GitRepo
repo_in none = none
repo_in (some r) = some r.repo

else_row-none : (o : Option RepoTargetRow) → else_row o none ≡ o
else_row-none none = refl
else_row-none (some r) = refl

else_row-if :
    (o p : Option RepoTargetRow) (b : Bool) (row : RepoTargetRow)
    → else_row (else_row o (if b then some row else none)) p
      ≡ else_row o (if b then some row else p)
else_row-if none p true row = refl
else_row-if none p false row = refl
else_row-if (some r) p b row = refl

abbrev enter : RepoTargetRow → Dict Text RepoTargetRow → Dict Text RepoTargetRow
enter row d = if has (row_key row) d then d else set (row_key row) row d

-- The row stays out if its key is taken.
get-enter_same :
    (row : RepoTargetRow) (d : Dict Text RepoTargetRow)
    → get (row_key row) (enter row d) ≡ else_row (get (row_key row) d) (some row)
get-enter_same row d = elim (Option-cases (get (row_key row) d)) [
  | inl e ↦ rw e (
      get-set (row_key row) (row_key row) row d
      ∙ ap (λ b. if b then some row else get (row_key row) d) (===_refl (row_key row)))
  | inr (r, e) ↦ rw e (rw e refl)
]

get-enter_other :
    (key : Text) (row : RepoTargetRow) (d : Dict Text RepoTargetRow)
    → (row_key row === key) ≡ false
    → get key (enter row d) ≡ get key d
get-enter_other key row d h =
    if_rule (λ (c : Dict Text RepoTargetRow). get key c ≡ get key d) (has (row_key row) d)
      (λ _. refl)
      (λ _. get-set (row_key row) key row d ∙ ap (λ b. if b then some row else get key d) h)

get-enter :
    (key : Text) (row : RepoTargetRow) (d : Dict Text RepoTargetRow)
    → get key (enter row d) ≡ else_row (get key d) (if row_key row === key then some row else none)
get-enter key row d = elim (Bool-cases (row_key row === key)) [
  | inl e ↦ rw e (
      subst (λ k. get k (enter row d) ≡ else_row (get k d) (some row))
        ((text_beq_iff (row_key row) key).0 e) (get-enter_same row d))
  | inr e ↦ rw e (get-enter_other key row d e ∙ sym (else_row-none (get key d)))
]

get-index_rows :
    (key : Text) (rows : List RepoTargetRow) (d : Dict Text RepoTargetRow)
    → get key (index_rows rows d) ≡ else_row (get key d) (first_row key rows)
get-index_rows key [] d = sym (else_row-none (get key d))
get-index_rows key (row ∷ rows) d =
    get-index_rows key rows (enter row d)
    ∙ ap (λ o. else_row o (first_row key rows)) (get-enter key row d)
    ∙ else_row-if (get key d) (first_row key rows) (row_key row === key) row

-- A server's id holds no NUL.
abbrev pub IsServerId : Text → Type 0
IsServerId s = contains 0 s ≡ false

same_target_key :
    (a b s d : Text)
    → IsServerId a
    → IsServerId s
    → (target_key a b === target_key s d) ≡ (a === s && b === d)
same_target_key [] b [] d h k = refl
same_target_key [] b (x ∷ s) d h k = ground (arith, k)
same_target_key (y ∷ a) b [] d h k = ground (arith, h)
same_target_key (y ∷ a) b (x ∷ s) d h k = ground (arith, same_target_key a b s d)

abbrev HasServerIds : GitRepo → Type 0
HasServerIds repo = All (λ t. IsServerId t.server_id) (option_or repo.sync_targets [])

-- The first row behind those of one repository.
repo_in-rows :
    (server_id db_name : Text) (repo : GitRepo) (ts : List RepoTarget) (rows : List RepoTargetRow)
    → IsServerId server_id
    → All (λ t. IsServerId t.server_id) ts
    → repo_in (first_row (target_key server_id db_name) (map (row_for repo) ts ++ rows)) ≡ (
        if tracks server_id db_name ts
        then some repo
        else repo_in (first_row (target_key server_id db_name) rows))
repo_in-rows server_id db_name repo [] rows h k = refl
repo_in-rows server_id db_name repo (t ∷ ts) rows h (k, ks) =
    ap
      (λ b. repo_in (
        if b
        then some (row_for repo t)
        else first_row (target_key server_id db_name) (map (row_for repo) ts ++ rows)))
      (same_target_key t.server_id t.db_name server_id db_name k h)
    ∙ go (t.server_id === server_id && t.db_name === db_name)
        (repo_in-rows server_id db_name repo ts rows h ks)
  where
    go :
        (b : Bool)
        → (repo_in (first_row (target_key server_id db_name) (map (row_for repo) ts ++ rows)) ≡ (
            if tracks server_id db_name ts
            then some repo
            else repo_in (first_row (target_key server_id db_name) rows)))
        → repo_in (
            if b
            then some (row_for repo t)
            else first_row (target_key server_id db_name) (map (row_for repo) ts ++ rows))
          ≡ (if b || tracks server_id db_name ts
              then some repo
              else repo_in (first_row (target_key server_id db_name) rows))
    go true rest = refl
    go false rest = rest

-- The index names for a database the repository that `getRepo` finds for it, and no repository where
-- that finds none. The ids of servers hold no NUL.
pub index_targets-get_repo :
    (server_id db_name : Text) (repos : List GitRepo)
    → IsServerId server_id
    → All HasServerIds repos
    → repo_in (get (target_key server_id db_name) (index_targets_by_database repos))
      ≡ get_repo server_id db_name repos
unfolding index_targets_by_database flatten_repos_to_targets get_repo
index_targets-get_repo server_id db_name repos h k =
    ap repo_in (get-index_rows (target_key server_id db_name) (flatten_repos_to_targets repos) [])
    ∙ go repos k
  where
    go :
        (repos : List GitRepo)
        → All HasServerIds repos
        → repo_in (first_row (target_key server_id db_name) (flatten_repos_to_targets repos))
          ≡ get_repo server_id db_name repos
    go [] k = refl
    go (repo ∷ repos) (k, ks) =
        repo_in-rows server_id db_name repo (option_or repo.sync_targets [])
          (flatten_repos_to_targets repos) h k
        ∙ ap
            (λ o.
              if tracks server_id db_name (option_or repo.sync_targets []) then some repo else o)
            (go repos ks)
