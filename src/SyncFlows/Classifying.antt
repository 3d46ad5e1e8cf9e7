-- ===== src/SyncFlows/Classifying.antt =====
-- The loop that both syncs begin with: what it keeps, what it counts and what it writes.
use couch_companion_ui.Prelude.{
  ◌≡◌, refl, ap, sym, ◌∙◌, inl, inr, ℕ, ◌+◌, Option, none, some, List, [], ◌∷◌, Text, Dict, All,
  All-append, length, arith, Option-cases, if_rule, option_or, filter, Bool, false, if◌then◌else◌,
}
use couch_companion_ui.DesignSync.{Json}
use couch_companion_ui.SyncFlows.{
  SyncState, Conflict, FileSha, Target, Remote, Effect, store_conflict, SyncError, request_failed,
  Result, done, failed, Run, ◌>>=◌,
}
use couch_companion_ui.SyncFlows.Reading.{
  Reading, sha_dict, read_and_classify, write_conflict, parse_keys, conflict_effects, classify_all,
  classify_listed, classify_parsed, classify_answers, parse_repo_file, reading_of, classify_request,
  status_of, is_conflict,
}

abbrev pub tree_shas : Remote → Dict Text Text
tree_shas r = sha_dict (option_or r.list_tree [])

pub done_injective {ℓ} : {A : Type ℓ} {a b : A} → ◌≡◌ {A = Result A} (done a) (done b) → a ≡ b
done_injective h = cc h

-- What holds of the effects of two calls holds of one after the other.
pub bind-All {ℓ κ ι} :
    {A : Type ℓ} {B : Type κ} (Q : Effect → Type ι) (m : Run A) (f : A → Run B)
    → All Q m.effects
    → ((a : A) → m.result ≡ done a → All Q (f a).effects)
    → All Q (m >>= f).effects
bind-All Q m f h k = go m.result refl
  where
    go : (res : Result _) → m.result ≡ res → All Q (m >>= f).effects
    go (done a) e = rw e (All-append Q m.effects (f a).effects h (k a e))
    go (failed x) e = rw e h

pub bind_after_done {ℓ κ} :
    {A : Type ℓ} {B : Type κ} (m : Run A) (f : A → Run B) (a : A)
    → m.result ≡ done a
    → (m >>= f).result ≡ (f a).result
bind_after_done m f a e = rw e refl

bind_after_failed {ℓ κ} :
    {A : Type ℓ} {B : Type κ} (m : Run A) (f : A → Run B) (x : SyncError)
    → m.result ≡ failed x
    → (m >>= f).result ≡ failed x
bind_after_failed m f x e = rw e refl

-- A call that is done was done in both parts.
pub bind-done {ℓ κ} :
    {A : Type ℓ} {B : Type κ} (m : Run A) (f : A → Run B) (b : B)
    → (m >>= f).result ≡ done b
    → (a : A) × ((m.result ≡ done a) × ((f a).result ≡ done b))
bind-done m f b h = go m.result refl
  where
    go :
        (res : Result _)
        → m.result ≡ res
        → (a : _) × ((m.result ≡ done a) × ((f a).result ≡ done b))
    go (done a) e = (a, (e, sym (bind_after_done m f a e) ∙ h))
    go (failed x) e = absurd (cc (bind_after_failed m f x e, h))

module _ (r : Remote) (target : Target) where
  -- Whether the reading of a document passes a test.
  abbrev pub reads : Dict Text Text → (Reading → Bool) → Text → Bool
  reads shas p ddoc_id = elim (read_and_classify r target shas ddoc_id) [
    | none ↦ false
    | some g ↦ p g
  ]

  module _ {ℓ} {B : Type ℓ} (place : Text → Reading → B → B) (shas : Dict Text Text) where
    classify_stop :
        (ddoc_id : Text) (ids : List Text) (b : B)
        → read_and_classify r target shas ddoc_id ≡ none
        → (classify_all r target place shas (ddoc_id ∷ ids) b).result ≡ failed request_failed
    classify_stop ddoc_id ids b e = rw (e, classify_all) refl

    pub classify_step :
        (ddoc_id : Text) (ids : List Text) (b : B) (g : Reading)
        → read_and_classify r target shas ddoc_id ≡ some g
        → (classify_all r target place shas (ddoc_id ∷ ids) b).result
          ≡ (classify_all r target place shas ids (place ddoc_id g b)).result
    classify_step ddoc_id ids b g e = rw (e, classify_all) refl

    -- What every round keeps holds at the end.
    pub classify_all-keeps {κ} :
        (P : B → Type κ)
        → ((ddoc_id : Text) (g : Reading) (b : B)
            → read_and_classify r target shas ddoc_id ≡ some g
            → P b
            → P (place ddoc_id g b))
        → (ids : List Text) (b c : B) → P b
        → (classify_all r target place shas ids b).result ≡ done c
        → P c
    classify_all-keeps P step [] b c p h = rw (sym (done_injective h)) p
    classify_all-keeps P step (ddoc_id ∷ ids) b c p h =
        elim (Option-cases (read_and_classify r target shas ddoc_id)) [
          | inl unread ↦ absurd (cc (classify_stop ddoc_id ids b unread, h))
          | inr (g, e) ↦
              classify_all-keeps P step ids (place ddoc_id g b) c (step ddoc_id g b e p)
                (sym (classify_step ddoc_id ids b g e) ∙ h)
        ]

    pub classify_all-All {κ} :
        (Q : Effect → Type κ)
        → ((ddoc_id : Text) (g : Reading) → All Q (conflict_effects r target ddoc_id g))
        → (ids : List Text) (b : B) → All Q (classify_all r target place shas ids b).effects
    classify_all-All Q q [] b = tt
    classify_all-All Q q (ddoc_id ∷ ids) b =
        elim (Option-cases (read_and_classify r target shas ddoc_id)) [
          | inl unread ↦ rw (unread, All, classify_all) tt
          | inr (g, e) ↦
              rw (e, classify_all)
                (All-append Q (conflict_effects r target ddoc_id g) _ (q ddoc_id g)
                  (classify_all-All Q q ids (place ddoc_id g b)))
        ]

    -- A count that a round raises by one exactly for the readings that pass a test counts the
    -- documents whose reading passes it.
    pub classify_all-counts :
        (count : B → ℕ) (p : Reading → Bool)
        → ((ddoc_id : Text) (g : Reading) (b : B)
            → count (place ddoc_id g b) ≡ count b + (if p g then 1 else 0))
        → (ids : List Text) (b c : B) → (classify_all r target place shas ids b).result ≡ done c
        → count c ≡ count b + length (filter (reads shas p) ids)
    classify_all-counts count p step [] b c h = omega (arith, ap count (done_injective h))
    classify_all-counts count p step (ddoc_id ∷ ids) b c h =
        elim (Option-cases (read_and_classify r target shas ddoc_id)) [
          | inl unread ↦ absurd (cc (classify_stop ddoc_id ids b unread, h))
          | inr (g, e) ↦ counted g (rw (e, reads) refl) (
              classify_all-counts count p step ids (place ddoc_id g b) c
                (sym (classify_step ddoc_id ids b g e) ∙ h))
        ]
      where
        counted :
            (g : Reading)
            → reads shas p ddoc_id ≡ p g
            → count c ≡ count (place ddoc_id g b) + length (filter (reads shas p) ids)
            → count c ≡ count b + length (filter (reads shas p) (ddoc_id ∷ ids))
        counted g e k = ground (arith, k, e, step ddoc_id g b)

  module _ {ℓ} {B : Type ℓ} (place : Text → Reading → B → B) (start : B) (keys : List Text) where
    listing :
        (ids : List Text)
        → parse_keys target.db_name [] keys ≡ some ids
        → (classify_request r target place start keys).result
          ≡ (classify_listed r target place start ids r.list_tree).result
    listing ids e = rw (e, classify_request) refl

    pub listed_tree :
        (ids : List Text) (tree : List FileSha)
        → parse_keys target.db_name [] keys ≡ some ids
        → r.list_tree ≡ some tree
        → (classify_all r target place (tree_shas r) ids start).result
          ≡ (classify_request r target place start keys).result
    listed_tree ids tree e k =
        ap (λ t. (classify_all r target place (sha_dict (option_or t [])) ids start).result) k
        ∙ sym (listing ids e ∙ ap (λ t. (classify_listed r target place start ids t).result) k)

    pub classify_request-done :
        (c : B)
        → (classify_request r target place start keys).result ≡ done c
        → (ids : List Text) × ((parse_keys target.db_name [] keys ≡ some ids)
            × ((classify_all r target place (tree_shas r) ids start).result ≡ done c))
    classify_request-done c h = elim (Option-cases (parse_keys target.db_name [] keys)) [
      | inl refused ↦ absurd (cc (refused_keys refused, h))
      | inr (ids, parsed) ↦ elim (Option-cases r.list_tree) [
        | inl unlisted ↦ absurd (cc (no_tree ids parsed unlisted, h))
        | inr (tree, listed) ↦ (ids, (parsed, listed_tree ids tree parsed listed ∙ h))
      ]
    ]
      where
        refused_keys :
            parse_keys target.db_name [] keys ≡ none
            → (classify_request r target place start keys).result ≡ failed request_failed
        refused_keys e = rw (e, classify_request) refl

        no_tree :
            (ids : List Text)
            → parse_keys target.db_name [] keys ≡ some ids
            → r.list_tree ≡ none
            → (classify_request r target place start keys).result ≡ failed request_failed
        no_tree ids e k =
            listing ids e ∙ ap (λ t. (classify_listed r target place start ids t).result) k

    -- A call that is done has had the tree listed.
    pub classify_request-listed :
        (c : B)
        → (classify_request r target place start keys).result ≡ done c
        → (tree : List FileSha) × (r.list_tree ≡ some tree)
    classify_request-listed c h = elim (Option-cases r.list_tree) [
      | inr (tree, listed) ↦ (tree, listed)
      | inl unlisted ↦ elim (Option-cases (parse_keys target.db_name [] keys)) [
        | inl refused ↦ absurd (cc (unparsed refused, h))
        | inr (ids, parsed) ↦ absurd (cc (without_tree ids parsed unlisted, h))
      ]
    ]
      where
        unparsed :
            parse_keys target.db_name [] keys ≡ none
            → (classify_request r target place start keys).result ≡ failed request_failed
        unparsed e = rw (e, classify_request) refl

        without_tree :
            (ids : List Text)
            → parse_keys target.db_name [] keys ≡ some ids
            → r.list_tree ≡ none
            → (classify_request r target place start keys).result ≡ failed request_failed
        without_tree ids e k =
            listing ids e ∙ ap (λ t. (classify_listed r target place start ids t).result) k

    pub classify_request-All {κ} :
        (Q : Effect → Type κ)
        → ((ddoc_id : Text) (g : Reading) → All Q (conflict_effects r target ddoc_id g))
        → All Q (classify_request r target place start keys).effects
    classify_request-All Q q = elim (Option-cases (parse_keys target.db_name [] keys)) [
      | inl refused ↦ rw (refused, classify_request, All) tt
      | inr (ids, parsed) ↦ rw (parsed, classify_request) (listed_All ids r.list_tree)
    ]
      where
        listed_All :
            (ids : List Text) (t : Option (List FileSha))
            → All Q (classify_listed r target place start ids t).effects
        listed_All ids none = tt
        listed_All ids (some tree) = classify_all-All place (sha_dict tree) Q q ids start

module _ (r : Remote) (target : Target) where
  classify_parsed-status :
      (path : Text) (sha : Option Text) (doc : Option Json) (st : Option SyncState)
      (body : Option (Option Json)) (g : Reading)
      → classify_parsed r target path sha doc st body ≡ some g
      → g.status ≡ status_of r target g.versions
  classify_parsed-status path sha doc st none g h = absurd (cc h)
  classify_parsed-status path sha doc st (some body) g h = go (cc h)
    where
      go : reading_of r target path doc body sha st ≡ g → g.status ≡ status_of r target g.versions
      go e = rw (sym e) refl

  -- A reading's status is the one that its versions have.
  pub read_and_classify-status :
      (shas : Dict Text Text) (ddoc_id : Text) (g : Reading)
      → read_and_classify r target shas ddoc_id ≡ some g
      → g.status ≡ status_of r target g.versions
  unfolding read_and_classify
  read_and_classify-status shas ddoc_id g h = answers _ _ _ _ _ h
    where
      answers :
          (doc : Option (Option Json)) (content : Option (Option Text))
          (st : Option (Option SyncState)) (path : Text) (sha : Option Text)
          → classify_answers r target path sha doc content st ≡ some g
          → g.status ≡ status_of r target g.versions
      answers (some doc) (some content) (some st) path sha h =
          classify_parsed-status path sha doc st (parse_repo_file r target content) g h
      answers _ _ _ path sha h = absurd (cc h)

  -- A conflict is recorded in at most one document, and nothing else is written for it.
  pub conflict_effects-All {κ} :
      (Q : Effect → Type κ)
      → ((c : Conflict) → Q (store_conflict c))
      → (ddoc_id : Text) (g : Reading) → All Q (conflict_effects r target ddoc_id g)
  unfolding write_conflict
  conflict_effects-All Q q ddoc_id g =
      if_rule (All Q) (is_conflict g.status)
        (λ _. elim (Option-cases (r.get_conflict ddoc_id)) [
          | inl unread ↦ rw (unread, All) tt
          | inr (existing, e) ↦ rw (e, All) (q _, tt)
        ])
        (λ _. tt)
