-- ===== src/SyncFlows/ToCouch/Pulls.antt =====
-- A sync to CouchDB overwrites no edit that was made there, and writes nothing past a conflict.
use couch_companion_ui.Prelude.{
  ◌≡◌, refl, ap, sym, ◌∙◌, inl, inr, true, false, not, ◌&&◌, Option, none, some, List, [], ◌∷◌,
  ◌++◌, Text, All, All-append, arith, Bool-cases, if_rule, is_some, is_nil, text_eq, option_or,
}
use couch_companion_ui.DesignSync.{Json, can_apply, to_couch, Versions}
use couch_companion_ui.DesignSync.Verdicts.{verdict, can_apply-keeps_edits}
use couch_companion_ui.SyncFlows.{
  FileSha, Target, Remote, Effect, commit_files, put_document, Run, done,
}
use couch_companion_ui.SyncFlows.Reading.{
  Reading, Heal, read_and_classify, is_conflict, status_of, save_heals, classify_request, sha_dict,
}
use couch_companion_ui.SyncFlows.Answers.{IsUnmoved, read_and_classify-Answers}
use couch_companion_ui.SyncFlows.Classifying.{
  tree_shas, bind-All, classify_all-keeps, classify_request-done, classify_request-All,
  conflict_effects-All, read_and_classify-status,
}
use couch_companion_ui.SyncFlows.ToCouch.Bodies.{KeepsDocument, answered-IsSafe}
use couch_companion_ui.SyncFlows.ToCouch.{
  Apply, CouchBatch, empty_batch, place_for_couch, pull_document, put_body, write_documents,
  after_put, finish_couch, sync_to_couch, ids_of,
}

module _ (r : Remote) (target : Target) where
  abbrev pub IsCouchWrite : Effect → Type 0
  IsCouchWrite (commit_files changes) = ⊥
  IsCouchWrite (put_document ddoc_id body) = KeepsDocument r target ddoc_id body
  IsCouchWrite _ = Unit

  abbrev IsSafePull : Apply → Type 0
  IsSafePull p = KeepsDocument r target p.ddoc_id (put_body p)

  abbrev HasSafePulls : CouchBatch → Type 0
  HasSafePulls b = All IsSafePull b.to_apply

  status-IsUnmoved :
      (v : Versions)
      → can_apply (status_of r target v) to_couch ≡ true
      → v.content_equal ≡ false
      → IsUnmoved v.couch_rev v.synced_rev
  status-IsUnmoved v h k =
      elim (Bool-cases (not (is_some v.couch_rev) && not (is_some v.git_sha))) [
        | inl neither ↦ ground arith
        | inr one ↦
            elim ((can_apply-keeps_edits v).1
              (sym (ap (λ s. can_apply s to_couch) (one_side one)) ∙ h)) [
                | inl same ↦ absurd (cc (same, k))
                | inr unmoved ↦ unmoved
              ]
      ]
    where
      one_side :
          (not (is_some v.couch_rev) && not (is_some v.git_sha)) ≡ false
          → status_of r target v ≡ verdict v
      one_side e = rw e refl

  pull_document-IsSafe :
      (files : List FileSha) (ddoc_id : Text) (g : Reading) (b : CouchBatch)
      → read_and_classify r target (sha_dict files) ddoc_id ≡ some g
      → can_apply g.status to_couch ≡ true
      → HasSafePulls b
      → (body : Option Json) → g.git_body ≡ body
      → HasSafePulls (pull_document ddoc_id g body b)
  pull_document-IsSafe files ddoc_id g b read ok safe none has_body = safe
  pull_document-IsSafe files ddoc_id g b read ok safe (some body) has_body =
      if_rule HasSafePulls g.versions.content_equal (λ _. safe)
        (λ differ. All-append IsSafePull b.to_apply _ safe (
          answered-IsSafe r target files ddoc_id g body g.versions.git_sha has_body
              (status-IsUnmoved g.versions
                (sym (
                    ap (λ s. can_apply s to_couch)
                      (read_and_classify-status r target (sha_dict files) ddoc_id g read))
                  ∙ ok)
                differ)
              (read_and_classify-Answers r target (sha_dict files) ddoc_id g read),
          tt,
        ))

  place_for_couch-IsSafe :
      (files : List FileSha) (ddoc_id : Text) (g : Reading) (b : CouchBatch)
      → read_and_classify r target (sha_dict files) ddoc_id ≡ some g
      → HasSafePulls b
      → HasSafePulls (place_for_couch ddoc_id g b)
  place_for_couch-IsSafe files ddoc_id g b read safe =
      if_rule HasSafePulls (is_conflict g.status) (λ _. safe)
        (λ _.
          if_rule HasSafePulls (not (can_apply g.status to_couch)) (λ _. safe)
            (λ ok.
              pull_document-IsSafe files ddoc_id g b read (ground (arith, ok)) safe g.git_body
                refl))

  after_put-IsCouchWrite :
      (ids written recorded : List Text) (p : Apply) (rest : Run {0} Unit) (answer : Option Text)
      → All IsCouchWrite rest.effects
      → All IsCouchWrite (after_put r target ids written recorded p rest answer).effects
  after_put-IsCouchWrite ids written recorded p rest none safe = tt
  after_put-IsCouchWrite ids written recorded p rest (some rev) safe = (
    tt,
    if_rule (λ (m : Run {0} Unit). All IsCouchWrite m.effects) (r.saves _) (λ _. safe) (λ _. tt),
  )

  write_documents-IsCouchWrite :
      (ids written recorded : List Text) (ps : List Apply)
      → All IsSafePull ps
      → All IsCouchWrite (write_documents r target ids written recorded ps).effects
  write_documents-IsCouchWrite ids written recorded [] safe = tt
  write_documents-IsCouchWrite ids written recorded (p ∷ ps) (h, safe) = (
    h,
    after_put-IsCouchWrite ids written recorded p _ (r.put_ddoc p.ddoc_id (put_body p)) (
        write_documents-IsCouchWrite ids (written ++ p.ddoc_id ∷ []) (recorded ++ p.ddoc_id ∷ []) ps
          safe),
  )

  save_heals-IsCouchWrite : (hs : List Heal) → All IsCouchWrite (save_heals r target hs).effects
  save_heals-IsCouchWrite [] = tt
  save_heals-IsCouchWrite (h ∷ hs) = (tt, save_heals-IsCouchWrite hs)

  finish_couch-IsCouchWrite :
      (b : CouchBatch) → HasSafePulls b → All IsCouchWrite (finish_couch r target b).effects
  finish_couch-IsCouchWrite b safe =
      if_rule (λ (m : Run {0} Unit). All IsCouchWrite m.effects) (is_nil b.conflicted)
        (λ _.
          bind-All IsCouchWrite (write_documents r target (ids_of b.to_apply) [] [] b.to_apply) _
            (write_documents-IsCouchWrite (ids_of b.to_apply) [] [] b.to_apply safe)
            (λ _ _. save_heals-IsCouchWrite b.to_heal))
        (λ _. tt)

  -- Every document that a sync puts into CouchDB is made of the repository's file at its path: if that
  -- is a JSON object, then the body has its fields apart from `_id`, `_rev` and `_revisions`. The body
  -- has the id of the document and the revision of the document that CouchDB answers with, if that is
  -- not empty; and that revision is the one that the `sync:` document records, unless CouchDB has
  -- none. The sync commits nothing.
  pub sync_to_couch_safe :
      (keys : List Text) → All IsCouchWrite (sync_to_couch r target keys).effects
  unfolding sync_to_couch
  sync_to_couch_safe keys =
      bind-All IsCouchWrite (classify_request r target place_for_couch empty_batch keys)
        (finish_couch r target)
        (classify_request-All r target place_for_couch empty_batch keys IsCouchWrite
          (conflict_effects-All r target IsCouchWrite (λ _. tt)))
        (λ b e. finish_couch-IsCouchWrite b (batch_safe b e))
    where
      batch_safe :
          (b : CouchBatch)
          → (classify_request r target place_for_couch empty_batch keys).result ≡ done b
          → HasSafePulls b
      batch_safe b e =
          let (ids, (_, looped)) =
            classify_request-done r target place_for_couch empty_batch keys b e in
          classify_all-keeps r target place_for_couch (tree_shas r) HasSafePulls
            (place_for_couch-IsSafe (option_or r.list_tree [])) ids empty_batch b tt looped
