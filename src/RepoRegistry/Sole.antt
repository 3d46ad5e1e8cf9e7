-- ===== src/RepoRegistry/Sole.antt =====
-- src/services/design-mgmt-service.ts: `registerRepo` makes its repository the only one to track the
-- database, which `getRepo` then finds.
use mathlib.Core.List.{Memᴰ}
use mathlib.Core.List.Memᴰ.{head, tail, cases_cons}
use couch_companion_ui.Prelude.{
  ◌≡◌, ◌≢◌, refl, sym, ◌∙◌, ap, true, false, Option, none, some, List, [], ◌∷◌, Text, ◌===◌,
  text_eq, text_beq_iff, ===_refl, ne_of_===, option_beq, Bool-cases, All, All-mono, if_rule, ◌⊎◌,
  inl, inr, arith,
}
use couch_companion_ui.RepoTargets.{GitRepo, tracks, get_repo}
use couch_companion_ui.RepoRegistry.{
  Saved, Store, Result, done, Reply, Claim, RegisterRepoBody, targets_of, detach_claims,
}
use couch_companion_ui.RepoRegistry.Documented.{IsDocumented, stored}
use couch_companion_ui.RepoRegistry.Detaching.{tracks_in, tracked_by}
use couch_companion_ui.RepoRegistry.Claims.{
  detach_claims-claims_none, detach_claims-elsewhere, detach_claims-drops,
}
use couch_companion_ui.RepoRegistry.Registering.{reclaimed, register_repo}
use couch_companion_ui.RepoRegistry.Exclusive.{All-mem, IsClaim, claims_of-all}
use couch_companion_ui.RepoRegistry.Registered.{register_repo_rule, IsFaithful}
use couch_companion_ui.RepoRegistry.Putting.{
  new, kept, put_world, others, new-IsFaithful, others-IsClaim,
}

module _ {W : Type 0} (s : Store W) (doc : IsDocumented s) (new_id now server_id db_name : Text)
    (body : RegisterRepoBody) (w : W) (fresh : doc.repo_at new_id w ≡ none) where
  -- One repository tracks the database: the returned one, which is what is stored.
  abbrev pub IsOnly : W → GitRepo → Type 0
  IsOnly v r =
      (k : Text) × (doc.repo_at k v ≡ some r)
      × ((j : Text) → tracked_by s doc server_id db_name j v ≡ (j === k))

  module _ (provider : Option Text) (repos : List GitRepo)
      (listed : s.list_repos w ≡ some repos) where
    abbrev v : W
    v = put_world s doc new_id now server_id db_name body w fresh provider repos listed

    abbrev cs : List Claim
    cs = others s doc new_id now server_id db_name body w fresh provider repos listed

    abbrev new_id_of : Text
    new_id_of = (new s doc new_id now server_id db_name body w fresh provider repos listed).id

    abbrev new_repo_of : GitRepo
    new_repo_of = (new s doc new_id now server_id db_name body w fresh provider repos listed).repo

    abbrev kept_id : Option Text
    kept_id = kept s doc new_id now server_id db_name body w fresh provider repos listed

    facts :
        IsFaithful s doc new_id now server_id db_name body kept_id w
          (new s doc new_id now server_id db_name body w fresh provider repos listed)
    facts = new-IsFaithful s doc new_id now server_id db_name body w fresh provider repos listed

    claims : All (IsClaim s doc server_id db_name kept_id w) cs
    claims = others-IsClaim s doc new_id now server_id db_name body w fresh provider repos listed

    others-apart : All (λ c. new_id_of ≢ c.id) cs
    others-apart = All-mono (λ c h same. facts.2 c.id c.repo h.0 h.2 (sym same)) cs claims

    -- Another repository that tracked the target is among the claims.
    dropped :
        (j : Text)
        → j ≢ new_id_of
        → (detach_claims s server_id db_name cs v).answer ≡ true
        → tracked_by s doc server_id db_name j (detach_claims s server_id db_name cs v).world
          ≡ false
    unfolding tracked_by
    dropped j far ok = go (doc.repo_at j w) refl
      where
        untracked :
            tracks_in server_id db_name (doc.repo_at j w) ≡ false
            → tracks_in server_id db_name
                (doc.repo_at j (detach_claims s server_id db_name cs v).world)
              ≡ false
        untracked h =
            detach_claims-claims_none s doc server_id db_name cs v j
              (ap (tracks_in server_id db_name) (doc.put_elsewhere _ _ w j far) ∙ h)

        claimed :
            (r : GitRepo)
            → doc.repo_at j w ≡ some r
            → tracks server_id db_name (targets_of r) ≡ true
            → (option_beq kept_id (some j) ≡ true) ⊎ (option_beq kept_id (some j) ≡ false)
            → tracks_in server_id db_name
                (doc.repo_at j (detach_claims s server_id db_name cs v).world)
              ≡ false
        claimed r there t (inl same) = absurd (far (facts.3 j same))
        claimed r there t (inr apart) =
            let (m, i) = doc.list_holds w repos listed j r there in
            All-mem _ cs (claims_of-all s doc server_id db_name kept_id repos r j m i apart t) (
              detach_claims-drops s doc server_id db_name cs v (All-mono (λ c h. h.1) cs claims) ok)

        go :
            (o : Option GitRepo)
            → doc.repo_at j w ≡ o
            → tracks_in server_id db_name
                (doc.repo_at j (detach_claims s server_id db_name cs v).world)
              ≡ false
        go none e = untracked (ap (tracks_in server_id db_name) e)
        go (some r) e = elim (Bool-cases (tracks server_id db_name (targets_of r))) [
          | inl t ↦ claimed r e t (Bool-cases (option_beq kept_id (some j)))
          | inr f ↦ untracked (ap (tracks_in server_id db_name) e ∙ f)
        ]

    stays :
        (rev : Text)
        → doc.repo_at new_id_of v ≡ some (stored new_id_of rev new_repo_of)
        → doc.repo_at new_id_of (detach_claims s server_id db_name cs v).world
          ≡ some (stored new_id_of rev new_repo_of)
    stays rev there =
        detach_claims-elsewhere s doc server_id db_name cs v new_id_of others-apart ∙ there

    only :
        (rev : Text)
        → doc.repo_at new_id_of v ≡ some (stored new_id_of rev new_repo_of)
        → (detach_claims s server_id db_name cs v).answer ≡ true
        → (j : Text)
        → tracked_by s doc server_id db_name j (detach_claims s server_id db_name cs v).world
          ≡ (j === new_id_of)
    unfolding tracked_by
    only rev there ok j = elim (Bool-cases (j === new_id_of)) [
      | inl near ↦
          ap
            (λ k.
              tracks_in server_id db_name
                (doc.repo_at k (detach_claims s server_id db_name cs v).world))
            ((text_beq_iff j new_id_of).0 near)
          ∙ ap (tracks_in server_id db_name) (stays rev there)
          ∙ facts.1
          ∙ sym near
      | inr far ↦ dropped j (ne_of_=== far) ok ∙ sym far
    ]

    completed :
        (saved : Saved)
        → (s.put new_id_of new_repo_of w).answer ≡ some saved
        → (r : GitRepo)
        → (reclaimed s
            (record new_repo_of { id = some saved.id; rev = some saved.rev })
            (detach_claims s server_id db_name cs v)).answer
          ≡ done r
        → IsOnly
            (reclaimed s
              (record new_repo_of { id = some saved.id; rev = some saved.rev })
              (detach_claims s server_id db_name cs v)).world
            r
    unfolding tracked_by
    completed saved written r =
        if_rule (λ (x : Reply W (Result GitRepo)). x.answer ≡ done r → IsOnly x.world r)
          (detach_claims s server_id db_name cs v).answer
          (λ ok e.
            let (same, there) = doc.put_writes new_id_of new_repo_of w saved written in
            let returned : record new_repo_of { id = some saved.id; rev = some saved.rev } ≡ r =
              ground (arith, e) in
            (
              new_id_of,
              stays saved.rev there
                  ∙ ap (λ k. some (stored k saved.rev new_repo_of)) (sym same)
                  ∙ ap some returned,
              only saved.rev there ok,
            ))
          (λ _ e. absurd (cc e))

  -- A registration that succeeds returns the stored repository, and this one and no other tracks the
  -- database.
  pub register_repo-IsOnly :
      (r : GitRepo)
      → (register_repo s new_id now server_id db_name body w).answer ≡ done r
      → IsOnly (register_repo s new_id now server_id db_name body w).world r
  register_repo-IsOnly r =
      register_repo_rule s doc new_id now server_id db_name body
        (λ x. x.answer ≡ done r → IsOnly x.world r) w (λ e. absurd (cc e))
        (λ p rs l e. absurd (cc e)) (λ p rs saved l a. completed p rs l saved a r)

  get_repo-only :
      (r : GitRepo) (rs : List GitRepo)
      → ((x : GitRepo) → Memᴰ x rs → tracks server_id db_name (targets_of x) ≡ true → x ≡ r)
      → Memᴰ r rs
      → tracks server_id db_name (targets_of r) ≡ true
      → get_repo server_id db_name rs ≡ some r
  unfolding get_repo
  get_repo-only r [] h m t = elim m [ ]
  get_repo-only r (x ∷ rs) h m t =
      if_rule (λ (o : Option GitRepo). o ≡ some r) (tracks server_id db_name (targets_of x))
        (λ here. ap some (h x (head refl) here))
        (λ not_here. elim (cases_cons m) [
          | inl same ↦ absurd (cc (t, not_here, same))
          | inr later ↦ get_repo-only r rs (λ y n. h y (tail n)) later t
        ])

  -- Once a registration of a database succeeds, `getRepo` finds for it, in any listing of the
  -- repositories that it leaves, the repository that the registration returned. The new id is unused.
  pub register_repo-get_repo :
      (r : GitRepo) (rs : List GitRepo)
      → (register_repo s new_id now server_id db_name body w).answer ≡ done r
      → s.list_repos (register_repo s new_id now server_id db_name body w).world ≡ some rs
      → get_repo server_id db_name rs ≡ some r
  unfolding tracked_by
  register_repo-get_repo r rs e l =
      let u = (register_repo s new_id now server_id db_name body w).world in
      let (k, there, alone) = register_repo-IsOnly r e in
      let tracked : tracks server_id db_name (targets_of r) ≡ true =
        sym (ap (tracks_in server_id db_name) there) ∙ alone k ∙ ===_refl k in
      get_repo-only r rs
        (λ x m t.
          let (j, i, here) = doc.list_only u rs l x m in
          let same : j ≡ k =
            (text_beq_iff j k).0 (sym (alone j) ∙ ap (tracks_in server_id db_name) here ∙ t) in
          let equal : some x ≡ some r = sym here ∙ ap (λ i. doc.repo_at i u) same ∙ there in
          ground (arith, equal))
        (doc.list_holds u rs l k r there).0 tracked
