-- ===== src/RepoRegistry/Resolving.antt =====
-- src/services/design-mgmt-service.ts: `resolveSyncTarget`, which looks up what a sync of a database
-- needs, on what `registerRepo` wrote.
use couch_companion_ui.Prelude.{
  ◌≡◌, refl, sym, ◌∙◌, ap, true, Option, none, some, List, [], ◌∷◌, Text, if◌then◌else◌, ◌===◌,
  text_eq, text_beq_iff, if_rule, arith,
}
use couch_companion_ui.RepoTargets.{RepoTarget, GitRepo, tracks}
use couch_companion_ui.RepoRegistry.{
  Store, request_failed, no_such_repository, no_url, not_a_target, no_account, Result, done, failed,
  RegisterRepoBody, targets_of, truthy,
}
use couch_companion_ui.RepoRegistry.Documented.{IsDocumented}
use couch_companion_ui.RepoRegistry.Detaching.{tracks_in, tracked_by}
use couch_companion_ui.RepoRegistry.Registering.{register_repo}
use couch_companion_ui.RepoRegistry.Sole.{register_repo-IsOnly}

-- What a sync needs of a repository, but for the git provider that its account gives.
pub record SyncTarget : Type 0 where
  pub repo : GitRepo
  pub target : RepoTarget
  pub account_id : Text

abbrev pub find_db : Text → List RepoTarget → Option RepoTarget
find_db db_name [] = none
find_db db_name (t ∷ ts) = if t.db_name === db_name then some t else find_db db_name ts

abbrev pub linked : Text → GitRepo → RepoTarget → Option Text → Result SyncTarget
linked id repo t none = failed (no_account id)
linked id repo t (some account) = done (record { repo = repo; target = t; account_id = account })

abbrev pub targeted : Text → Text → GitRepo → Option RepoTarget → Result SyncTarget
targeted id db_name repo none = failed (not_a_target db_name id)
targeted id db_name repo (some t) = linked id repo t (truthy repo.account_id)

abbrev pub located : Text → Text → GitRepo → Option Text → Result SyncTarget
located id db_name repo none = failed (no_url id)
located id db_name repo (some url) = targeted id db_name repo (find_db db_name (targets_of repo))

abbrev pub resolved : Text → Text → Option (Option GitRepo) → Result SyncTarget
resolved id db_name none = failed request_failed
resolved id db_name (some none) = failed (no_such_repository id)
resolved id db_name (some (some repo)) = located id db_name repo (truthy repo.url)

unfoldable pub resolve_sync_target :
    {W : Type 0} (s : Store W) → Text → Text → W → Result SyncTarget
resolve_sync_target s id db_name w = resolved id db_name (s.get_repo_doc id w)

find_db-tracked :
    (server_id db_name : Text) (ts : List RepoTarget)
    → tracks server_id db_name ts ≡ true
    → (t : RepoTarget) × (find_db db_name ts ≡ some t) × (t.db_name ≡ db_name)
find_db-tracked server_id db_name [] h = absurd (cc h)
find_db-tracked server_id db_name (t ∷ ts) h =
    if_rule (λ (o : Option RepoTarget). (u : RepoTarget) × (o ≡ some u) × (u.db_name ≡ db_name))
      (t.db_name === db_name) (λ same. (t, refl, (text_beq_iff t.db_name db_name).0 same))
      (λ other. find_db-tracked server_id db_name ts (ground (arith, h, other)))

module _ {W : Type 0} (s : Store W) (doc : IsDocumented s) (new_id now server_id db_name : Text)
    (body : RegisterRepoBody) (w : W) (fresh : doc.repo_at new_id w ≡ none) where
  -- Once a registration of a database succeeds, the lookup of a sync, for that database and the id under
  -- which it is tracked, gives the returned repository, a target for the database and the account. The
  -- repository has an address and an account, the request for it succeeds, and the new id was unused.
  pub register_repo-resolve :
      (r : GitRepo) (k url account : Text) (o : Option GitRepo)
      → (register_repo s new_id now server_id db_name body w).answer ≡ done r
      → tracked_by s doc server_id db_name k
          (register_repo s new_id now server_id db_name body w).world
        ≡ true
      → truthy r.url ≡ some url
      → truthy r.account_id ≡ some account
      → s.get_repo_doc k (register_repo s new_id now server_id db_name body w).world ≡ some o
      → (t : RepoTarget) × (resolve_sync_target s k db_name
            (register_repo s new_id now server_id db_name body w).world
          ≡ done (record { repo = r; target = t; account_id = account }))
        × (t.db_name ≡ db_name)
  unfolding resolve_sync_target tracked_by
  register_repo-resolve r k url account o e tracked u a g =
      let v = (register_repo s new_id now server_id db_name body w).world in
      let (j, there, alone) =
        register_repo-IsOnly s doc new_id now server_id db_name body w fresh r e in
      let same : k ≡ j = (text_beq_iff k j).0 (sym (alone k) ∙ tracked) in
      let here : doc.repo_at k v ≡ some r = ap (λ i. doc.repo_at i v) same ∙ there in
      let got : s.get_repo_doc k v ≡ some (some r) =
        g ∙ ap some (sym (doc.get_finds k v o g) ∙ here) in
      let (t, found, named) =
        find_db-tracked server_id db_name (targets_of r)
          (sym (ap (tracks_in server_id db_name) here) ∙ tracked) in
      (
        t,
        ap (resolved k db_name) got
            ∙ ap (located k db_name r) u
            ∙ ap (targeted k db_name r) found
            ∙ ap (linked k r t) a,
        named,
      )
