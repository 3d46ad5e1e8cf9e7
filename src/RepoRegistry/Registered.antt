-- ===== src/RepoRegistry/Registered.antt =====
-- src/services/design-mgmt-service.ts: what `registerRepo` leaves behind, on success and wherever one
-- of its requests fails.
use mathlib.Core.Path.{subst}
use couch_companion_ui.Prelude.{
  ◌≡◌, ◌≢◌, refl, sym, ◌∙◌, ap, true, false, ◌&&◌, ◌||◌, Option, none, some, List, [], ◌∷◌, ◌++◌,
  Text, ◌===◌, text_eq, text_beq_iff, ===_refl, ne_of_===, option_beq, arith,
}
use couch_companion_ui.RepoTargets.{RepoTarget, GitRepo, tracks}
use couch_companion_ui.RepoUrl.{repo_identity}
use couch_companion_ui.RepoRegistry.{
  Account, Saved, Store, Result, Reply, fail, Claim, RegisterRepoBody, targets_of, other_targets,
  claims_of, detach_claims, truthy,
}
use couch_companion_ui.RepoRegistry.Documented.{IsDocumented}
use couch_companion_ui.RepoRegistry.Detaching.{tracks_in, tracked_by}
use couch_companion_ui.RepoRegistry.Targets.{tracks-other_targets}
use couch_companion_ui.RepoRegistry.Registering.{
  target_for, find_identity, id_of, Registration, registration, provider_of, reclaimed,
  register_listed, register_for, account_for, register_repo,
}
use couch_companion_ui.RepoRegistry.Exclusive.{find_identity-mem, tracks-append_one, IsListed}

-- The target replaces the one of the same database, or comes to the others.
tracks-replaced :
    (a b server_id db_name : Text) (ts : List RepoTarget) (body : RegisterRepoBody)
    → tracks a b (other_targets server_id db_name ts ++ target_for server_id db_name body ∷ [])
      ≡ (tracks a b ts || (a === server_id && b === db_name))
tracks-replaced a b server_id db_name ts body =
    tracks-append_one a b (other_targets server_id db_name ts) (target_for server_id db_name body)
    ∙ ground (
      arith,
      tracks-other_targets server_id db_name a b ts,
      text_beq_iff server_id a,
      text_beq_iff a server_id,
      text_beq_iff db_name b,
      text_beq_iff b db_name,
    )

module _ {W : Type 0} (s : Store W) (doc : IsDocumented s) where
  module _ (new_id now server_id db_name : Text) (body : RegisterRepoBody) where
    abbrev pub found_in : List GitRepo → Option GitRepo
    found_in repos = find_identity (repo_identity body.url) repos

    abbrev pub new_for : Option Text → List GitRepo → Registration
    new_for provider repos =
        registration body provider (target_for server_id db_name body) new_id now (found_in repos)

    abbrev pub put_for : Option Text → List GitRepo → W → Reply W (Option Saved)
    put_for provider repos w = s.put (new_for provider repos).id (new_for provider repos).repo w

    abbrev pub others_in : List GitRepo → List Claim
    others_in repos = claims_of server_id db_name (id_of (found_in repos)) repos

    -- What holds of each way in which `registerRepo` ends.
    pub register_repo_rule {ℓ} :
        (P : Reply W (Result GitRepo) → Type ℓ) (w : W)
        → P (fail w)
        → ((provider : Option Text) (repos : List GitRepo)
            → s.list_repos w ≡ some repos
            → P (fail (put_for provider repos w).world))
        → ((provider : Option Text) (repos : List GitRepo) (saved : Saved)
            → s.list_repos w ≡ some repos
            → (put_for provider repos w).answer ≡ some saved
            → P (
                reclaimed s
                  (record (new_for provider repos).repo {
                    id = some saved.id;
                    rev = some saved.rev;
                  })
                  (detach_claims s server_id db_name
                    (others_in repos)
                    (put_for provider repos w).world)))
        → P (register_repo s new_id now server_id db_name body w)
    unfolding register_repo
    register_repo_rule P w unread unsaved saved =
        accounted (account_for s (truthy body.account_id) w)
      where
        listed :
            (provider : Option Text) (o : Option (List GitRepo))
            → s.list_repos w ≡ o
            → P (register_listed s new_id now server_id db_name body provider o w)
        listed provider none e = unread
        listed provider (some repos) e = put provider repos e (put_for provider repos w).answer refl
          where
            put :
                (provider : Option Text) (repos : List GitRepo)
                → s.list_repos w ≡ some repos
                → (o : Option Saved) → (put_for provider repos w).answer ≡ o
                → P (register_listed s new_id now server_id db_name body provider (some repos) w)
            put provider repos e none a = rw a (unsaved provider repos e)
            put provider repos e (some v) a = rw a (saved provider repos v e a)

        accounted :
            (o : Option (Option Account)) → P (register_for s new_id now server_id db_name body o w)
        accounted none = unread
        accounted (some account) = listed (provider_of account) (s.list_repos w) refl

    -- What the registration keeps of the repository that it replaces, and adds to it.
    abbrev pub IsFaithful : Option Text → W → Registration → Type 0
    IsFaithful kept w new =
        ((a b : Text)
          → (a === server_id && b === db_name) ≡ false
          → tracked_by s doc a b new.id w ≡ tracks a b (targets_of new.repo))
        × (tracks server_id db_name (targets_of new.repo) ≡ true)
        × ((k : Text) (r : GitRepo)
            → option_beq kept (some k) ≡ false
            → doc.repo_at k w ≡ some r
            → k ≢ new.id)
        × ((k : Text) → option_beq kept (some k) ≡ true → k ≡ new.id)

    new_repo-IsFaithful :
        (provider : Option Text) (w : W)
        → doc.repo_at new_id w ≡ none
        → IsFaithful none w
            (registration body provider (target_for server_id db_name body) new_id now none)
    unfolding tracked_by
    new_repo-IsFaithful provider w fresh = (
      λ a b other. rw fresh (
          ground (
            arith,
            text_beq_iff server_id a,
            text_beq_iff a server_id,
            text_beq_iff db_name b,
            text_beq_iff b db_name,
          )),
      ground (arith, ===_refl server_id, ===_refl db_name),
      (λ k r _ there same. cc (ap (λ j. doc.repo_at j w) same, fresh, there)),
      λ k h. absurd (cc h),
    )

    merge_target-IsFaithful :
        (provider : Option Text) (w : W) (existing : GitRepo) (id : Text)
        → existing.id ≡ some id
        → doc.repo_at id w ≡ some existing
        → IsFaithful (some id) w (
            registration body provider
              (target_for server_id db_name body)
              new_id
              now
              (some existing))
    unfolding tracked_by
    merge_target-IsFaithful provider w existing id i there = simp i (
      (λ a b other.
          ap (tracks_in a b) there
          ∙ ground
              (arith, tracks-replaced a b server_id db_name (targets_of existing) body, other)),
      ground (
        arith,
        tracks-replaced server_id db_name server_id db_name (targets_of existing) body,
        ===_refl server_id,
        ===_refl db_name,
      ),
      (λ k r apart _ same. ne_of_=== apart (sym same)),
      λ k same. sym ((text_beq_iff id k).0 same),
    )

    pub registration-IsFaithful :
        (provider : Option Text) (w : W) (repos : List GitRepo)
        → IsListed s doc w repos
        → doc.repo_at new_id w ≡ none
        → IsFaithful (id_of (found_in repos)) w (new_for provider repos)
    registration-IsFaithful provider w repos listed fresh = go (found_in repos) refl
      where
        go :
            (o : Option GitRepo)
            → found_in repos ≡ o
            → IsFaithful
                (id_of o)
                w
                (registration body provider (target_for server_id db_name body) new_id now o)
        go none e = new_repo-IsFaithful provider w fresh
        go (some r) e = known r (listed r (find_identity-mem (repo_identity body.url) repos r e))
          where
            known :
                (r : GitRepo)
                → (k : Text) × (r.id ≡ some k) × (doc.repo_at k w ≡ some r)
                → IsFaithful r.id w (
                    registration body provider
                      (target_for server_id db_name body)
                      new_id
                      now
                      (some r))
            known r (k, i, there) =
                subst
                  (λ o. IsFaithful o w (
                    registration body provider (target_for server_id db_name body) new_id now
                      (some r)))
                  (sym i) (merge_target-IsFaithful provider w r k i there)
