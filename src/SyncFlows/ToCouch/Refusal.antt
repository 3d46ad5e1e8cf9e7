-- ===== src/SyncFlows/ToCouch/Refusal.antt =====
-- A sync to CouchDB with a conflict: all conflicts are named, and nothing but them is written.
use couch_companion_ui.Prelude.{
  ◌≡◌, refl, ap, sym, ◌∙◌, inl, inr, Bool, true, false, not, Option, none, some, List, [], ◌∷◌,
  ◌++◌, Text, All, Bool-cases, Option-cases, if_rule, is_some, is_nil, filter, append-nil,
  append_assoc, if◌then◌else◌,
}
use couch_companion_ui.DesignSync.{Json, can_apply, to_couch}
use couch_companion_ui.SyncFlows.{
  FileSha, Target, Remote, Effect, store_conflict, Run, done, failed, conflicts_found,
}
use couch_companion_ui.SyncFlows.Reading.{
  Reading, read_and_classify, is_conflict, classify_all, classify_request, parse_keys,
}
use couch_companion_ui.SyncFlows.Classifying.{
  tree_shas, classify_step, classify_request-All, conflict_effects-All, bind_after_done, bind-All,
  listed_tree, done_injective,
}
use couch_companion_ui.SyncFlows.ToCouch.{
  CouchBatch, empty_batch, place_for_couch, pull_document, finish_couch, sync_to_couch,
}

pull_document-conflicted :
    (ddoc_id : Text) (g : Reading) (body : Option Json) (b : CouchBatch)
    → (pull_document ddoc_id g body b).conflicted ≡ b.conflicted
pull_document-conflicted ddoc_id g none b = refl
pull_document-conflicted ddoc_id g (some body) b =
    if_rule (λ (c : CouchBatch). c.conflicted ≡ b.conflicted) g.versions.content_equal (λ _. refl)
      (λ _. refl)

place_for_couch-conflicted :
    (ddoc_id : Text) (g : Reading) (b : CouchBatch)
    → (place_for_couch ddoc_id g b).conflicted
      ≡ (if is_conflict g.status then b.conflicted ++ ddoc_id ∷ [] else b.conflicted)
place_for_couch-conflicted ddoc_id g b = elim (Bool-cases (is_conflict g.status)) [
  | inl found ↦ rw found refl
  | inr other ↦ rw other (
      if_rule (λ (c : CouchBatch). c.conflicted ≡ b.conflicted) (not (can_apply g.status to_couch))
        (λ _. refl) (λ _. pull_document-conflicted ddoc_id g g.git_body b))
]

entered :
    (c : Bool) (xs : List Text) (a : Text) (ys : List Text)
    → (if c then xs ++ a ∷ [] else xs) ++ ys ≡ xs ++ (if c then a ∷ ys else ys)
entered true xs a ys = append_assoc xs (a ∷ []) ys
entered false xs a ys = refl

module _ (r : Remote) (target : Target) where
  abbrev pub in_conflict : Text → Bool
  in_conflict ddoc_id = elim (read_and_classify r target (tree_shas r) ddoc_id) [
    | none ↦ false
    | some g ↦ is_conflict g.status
  ]

  abbrev pub IsReadable : Text → Type 0
  IsReadable ddoc_id = is_some (read_and_classify r target (tree_shas r) ddoc_id) ≡ true

  -- Only records of conflicts.
  abbrev pub IsConflictRecord : Effect → Type 0
  IsConflictRecord (store_conflict c) = Unit
  IsConflictRecord _ = ⊥

  in_conflict-read :
      (ddoc_id : Text) (g : Reading)
      → read_and_classify r target (tree_shas r) ddoc_id ≡ some g
      → in_conflict ddoc_id ≡ is_conflict g.status
  in_conflict-read ddoc_id g e = rw (e, in_conflict) refl

  classify_all-conflicted :
      (ids : List Text) (b : CouchBatch)
      → All IsReadable ids
      → (c : CouchBatch) × (((classify_all r target place_for_couch (tree_shas r) ids b).result
            ≡ done c)
          × (c.conflicted ≡ b.conflicted ++ filter in_conflict ids))
  classify_all-conflicted [] b readable = (b, (refl, sym (append-nil b.conflicted)))
  classify_all-conflicted (ddoc_id ∷ ids) b (here, readable) =
      elim (Option-cases (read_and_classify r target (tree_shas r) ddoc_id)) [
        | inl unread ↦ absurd (cc (here, ap is_some unread))
        | inr (g, e) ↦
            let (c, (looped, named)) =
              classify_all-conflicted ids (place_for_couch ddoc_id g b) readable in
            (
              c,
              (
                classify_step r target place_for_couch (tree_shas r) ddoc_id ids b g e ∙ looped,
                named ∙ first ddoc_id ids b g (in_conflict-read ddoc_id g e),
              ),
            )
      ]
    where
      first :
          (ddoc_id : Text) (ids : List Text) (b : CouchBatch) (g : Reading)
          → in_conflict ddoc_id ≡ is_conflict g.status
          → (place_for_couch ddoc_id g b).conflicted ++ filter in_conflict ids
            ≡ b.conflicted ++ filter in_conflict (ddoc_id ∷ ids)
      first ddoc_id ids b g e =
          ap (λ xs. xs ++ filter in_conflict ids) (place_for_couch-conflicted ddoc_id g b)
          ∙ entered (is_conflict g.status) b.conflicted ddoc_id (filter in_conflict ids)
          ∙ ap
              (λ c.
                b.conflicted
                ++ (if c then ddoc_id ∷ filter in_conflict ids else filter in_conflict ids))
              (sym e)

  finish_couch-conflicts :
      (b : CouchBatch) (names : List Text)
      → b.conflicted ≡ names
      → is_nil names ≡ false
      → ((finish_couch r target b).result ≡ failed (conflicts_found names))
        × All IsConflictRecord (finish_couch r target b).effects
  finish_couch-conflicts b names e some_name =
      if_rule
        (λ (m : Run {0} Unit).
          (m.result ≡ failed (conflicts_found names)) × All IsConflictRecord m.effects)
        (is_nil b.conflicted) (λ none. absurd (cc (none, ap is_nil e, some_name)))
        (λ _. (ap (λ xs. failed (conflicts_found xs)) e, tt))

  -- If the keys are good, the tree is listed and every requested document can be read, but some of
  -- them are in conflict, then the sync throws the error that names just these, in the order of the
  -- request, and has written nothing but records of conflicts.
  pub sync_to_couch_refuses :
      (keys ids : List Text) (tree : List FileSha)
      → parse_keys target.db_name [] keys ≡ some ids
      → r.list_tree ≡ some tree
      → All IsReadable ids
      → is_nil (filter in_conflict ids) ≡ false
      → ((sync_to_couch r target keys).result ≡ failed (conflicts_found (filter in_conflict ids)))
        × All IsConflictRecord (sync_to_couch r target keys).effects
  unfolding sync_to_couch
  sync_to_couch_refuses keys ids tree parsed listed readable some_name =
      let (c, (looped, named)) = classify_all-conflicted ids empty_batch readable in
      let (thrown, quiet) = finish_couch-conflicts c (filter in_conflict ids) named some_name in
      let classified =
        sym (listed_tree r target place_for_couch empty_batch keys ids tree parsed listed)
        ∙ looped in
      (
        bind_after_done (classify_request r target place_for_couch empty_batch keys)
              (finish_couch r target) c classified
            ∙ thrown,
        bind-All IsConflictRecord (classify_request r target place_for_couch empty_batch keys)
            (finish_couch r target)
            (classify_request-All r target place_for_couch empty_batch keys IsConflictRecord
              (conflict_effects-All r target IsConflictRecord (λ _. tt)))
            (λ b e. rw (done_injective (sym e ∙ classified)) quiet),
      )
