-- ===== src/SyncFlows/ToRepo/Safety.antt =====
-- A sync to the repository overwrites no edit that was made there.
use mathlib.Core.Path.{subst}
use couch_companion_ui.Prelude.{
  ◌≡◌, refl, ap, sym, ◌∙◌, inl, inr, ℕ, ◌+◌, true, false, not, ◌&&◌, Option, none, some, List, [],
  ◌∷◌, Text, Dict, All, All-append, arith, Bool-cases, if_rule, is_some, option_or,
}
use couch_companion_ui.DesignSync.{
  Json, can_apply, to_repo, serialize_ddoc, Versions, design_doc_repo_path,
}
use couch_companion_ui.DesignSync.Verdicts.{verdict, can_apply-keeps_edits}
use couch_companion_ui.SyncFlows.{
  FileChange, FileSha, SyncState, found, Target, Remote, Effect, commit_files, put_document, done,
}
use couch_companion_ui.SyncFlows.Reading.{
  Reading, Heal, read_and_classify, is_conflict, status_of, save_heals, classify_request, sha_dict,
  save_sync_state, classify_all,
}
use couch_companion_ui.SyncFlows.Answers.{
  last_blob, recorded_sha, IsUnmoved, IsUnmoved-same, repo_path, answer_with, Answers,
  read_and_classify-Answers, git_sha-answered, synced_sha-answered,
}
use couch_companion_ui.SyncFlows.Classifying.{
  bind-All, classify_all-keeps, classify_request-done, classify_request-listed,
  classify_request-All, conflict_effects-All, read_and_classify-status,
}
use couch_companion_ui.SyncFlows.ToRepo.{
  Push, RepoBatch, empty_batch, place_for_repo, push_document, changes_of, save_pushes,
  save_committed, commit_pushes, finish_repo, sync_to_repo,
}

-- The change writes a document that CouchDB answers with, in its serialized form, at the path of the
-- document, where the tree of the repository lists no file or the blob that the last sync recorded.
pub record KeepsFile (r : Remote) (target : Target) (c : FileChange) : Type 0 where
  pub ddoc_id : Text
  pub doc : Json
  pub files : List FileSha
  pub last_sync : Option SyncState
  pub listed : r.list_tree ≡ some files
  pub doc_read : r.get_ddoc ddoc_id ≡ found doc
  pub recorded : r.get_sync_state ddoc_id ≡ some last_sync
  pub path_eq : c.path ≡ design_doc_repo_path target.path target.db_name ddoc_id
  pub content_eq : c.content ≡ serialize_ddoc r.stringify doc
  pub unmoved : IsUnmoved (last_blob c.path files) (recorded_sha last_sync)

module _ (r : Remote) (target : Target) where
  abbrev pub IsRepoWrite : Effect → Type 0
  IsRepoWrite (commit_files changes) = All (KeepsFile r target) changes
  IsRepoWrite (put_document ddoc_id body) = ⊥
  IsRepoWrite _ = Unit

  abbrev IsSafePush : Push → Type 0
  IsSafePush p =
      KeepsFile r target
        (record { path = p.file_path; content = serialize_ddoc r.stringify p.body })

  abbrev HasSafePushes : RepoBatch → Type 0
  HasSafePushes b = All IsSafePush b.to_commit

  status-IsUnmoved :
      (v : Versions)
      → can_apply (status_of r target v) to_repo ≡ true
      → v.content_equal ≡ false
      → IsUnmoved v.git_sha v.synced_sha
  status-IsUnmoved v h k =
      elim (Bool-cases (not (is_some v.couch_rev) && not (is_some v.git_sha))) [
        | inl neither ↦ ground arith
        | inr one ↦
            elim ((can_apply-keeps_edits v).0
              (sym (ap (λ s. can_apply s to_repo) (one_side one)) ∙ h)) [
                | inl same ↦ absurd (cc (same, k))
                | inr unmoved ↦ unmoved
              ]
      ]
    where
      one_side :
          (not (is_some v.couch_rev) && not (is_some v.git_sha)) ≡ false
          → status_of r target v ≡ verdict v
      one_side e = rw e refl

  -- What the answers to a reading say of the push that it leads to.
  answered-IsSafe :
      (files : List FileSha) (ddoc_id : Text) (g : Reading) (doc : Json)
      → r.list_tree ≡ some files
      → g.couch_doc ≡ some doc
      → IsUnmoved g.versions.git_sha g.versions.synced_sha
      → Answers r target (sha_dict files) ddoc_id g
      → KeepsFile r target (record { path = g.file_path; content = serialize_ddoc r.stringify doc })
  answered-IsSafe files ddoc_id g doc listed has_doc still a =
      let placed : g.file_path ≡ repo_path target ddoc_id = ap (λ g. g.file_path) a.reading_eq in
      record {
        ddoc_id = ddoc_id;
        doc = doc;
        files = files;
        last_sync = a.last_sync;
        listed = listed;
        doc_read = a.doc_eq ∙ ap answer_with (sym (ap (λ g. g.couch_doc) a.reading_eq) ∙ has_doc);
        recorded = a.last_sync_eq;
        path_eq = placed;
        content_eq = refl;
        unmoved =
            subst (λ p. IsUnmoved (last_blob p files) (recorded_sha a.last_sync)) (sym placed)
              (IsUnmoved-same (git_sha-answered r target files ddoc_id g a)
                (synced_sha-answered r target files ddoc_id g a) still);
      }

  push_document-IsSafe :
      (files : List FileSha) (ddoc_id : Text) (g : Reading) (b : RepoBatch)
      → r.list_tree ≡ some files
      → read_and_classify r target (sha_dict files) ddoc_id ≡ some g
      → can_apply g.status to_repo ≡ true
      → HasSafePushes b
      → (doc : Option Json) → g.couch_doc ≡ doc
      → HasSafePushes (push_document ddoc_id g doc b)
  push_document-IsSafe files ddoc_id g b listed read ok safe none has_doc = safe
  push_document-IsSafe files ddoc_id g b listed read ok safe (some doc) has_doc =
      if_rule HasSafePushes g.versions.content_equal (λ _. safe)
        (λ differ. All-append IsSafePush b.to_commit _ safe (
          answered-IsSafe files ddoc_id g doc listed has_doc
              (status-IsUnmoved g.versions
                (sym (
                    ap (λ s. can_apply s to_repo)
                      (read_and_classify-status r target (sha_dict files) ddoc_id g read))
                  ∙ ok)
                differ)
              (read_and_classify-Answers r target (sha_dict files) ddoc_id g read),
          tt,
        ))

  place_for_repo-IsSafe :
      (files : List FileSha)
      → r.list_tree ≡ some files
      → (ddoc_id : Text) (g : Reading) (b : RepoBatch)
      → read_and_classify r target (sha_dict files) ddoc_id ≡ some g
      → HasSafePushes b
      → HasSafePushes (place_for_repo ddoc_id g b)
  place_for_repo-IsSafe files listed ddoc_id g b read safe =
      if_rule HasSafePushes (is_conflict g.status) (λ _. safe)
        (λ _.
          if_rule HasSafePushes (not (can_apply g.status to_repo)) (λ _. safe)
            (λ ok.
              push_document-IsSafe files ddoc_id g b listed read (ground (arith, ok)) safe
                g.couch_doc refl))

  changes_of-IsSafe :
      (ps : List Push) → All IsSafePush ps → All (KeepsFile r target) (changes_of r target ps)
  changes_of-IsSafe [] safe = tt
  changes_of-IsSafe (p ∷ ps) (h, safe) = (h, changes_of-IsSafe ps safe)

  save_pushes-IsRepoWrite :
      (shas : Dict Text Text) (n : ℕ) (ps : List Push)
      → All IsRepoWrite (save_pushes r target shas n ps).effects
  save_pushes-IsRepoWrite shas n [] = tt
  save_pushes-IsRepoWrite shas n (p ∷ ps) =
      bind-All IsRepoWrite (save_sync_state r target p.ddoc_id p.couch_rev _) _ (tt, tt)
        (λ _ _. save_pushes-IsRepoWrite shas (n + 1) ps)

  commit_pushes-IsRepoWrite :
      (ps : List Push) → All IsSafePush ps → All IsRepoWrite (commit_pushes r target ps).effects
  commit_pushes-IsRepoWrite [] safe = tt
  commit_pushes-IsRepoWrite (p ∷ ps) safe =
      (changes_of-IsSafe (p ∷ ps) safe, saved (r.commit (changes_of r target (p ∷ ps))))
    where
      saved :
          (shas : Option (List FileSha))
          → All IsRepoWrite (save_committed r target (p ∷ ps) shas).effects
      saved none = tt
      saved (some shas) = save_pushes-IsRepoWrite (sha_dict shas) 0 (p ∷ ps)

  save_heals-IsRepoWrite : (hs : List Heal) → All IsRepoWrite (save_heals r target hs).effects
  save_heals-IsRepoWrite [] = tt
  save_heals-IsRepoWrite (h ∷ hs) = (tt, save_heals-IsRepoWrite hs)

  finish_repo-IsRepoWrite :
      (b : RepoBatch) → HasSafePushes b → All IsRepoWrite (finish_repo r target b).effects
  finish_repo-IsRepoWrite b safe =
      bind-All IsRepoWrite (commit_pushes r target b.to_commit) _
        (commit_pushes-IsRepoWrite b.to_commit safe)
        (λ _ _.
          bind-All IsRepoWrite (save_heals r target b.to_heal) _ (save_heals-IsRepoWrite b.to_heal)
            (λ _ _. tt))

  -- Every file that a sync commits is the serialized form of a document that CouchDB answers with, at
  -- the path of that document, where the tree that the provider lists has no such file or has the very
  -- blob that the `sync:` document of the last sync records. The sync puts no design document into
  -- CouchDB.
  pub sync_to_repo_safe : (keys : List Text) → All IsRepoWrite (sync_to_repo r target keys).effects
  unfolding sync_to_repo
  sync_to_repo_safe keys =
      bind-All IsRepoWrite (classify_request r target place_for_repo empty_batch keys)
        (finish_repo r target)
        (classify_request-All r target place_for_repo empty_batch keys IsRepoWrite
          (conflict_effects-All r target IsRepoWrite (λ _. tt)))
        (λ b e. finish_repo-IsRepoWrite b (batch_safe b e))
    where
      batch_safe :
          (b : RepoBatch)
          → (classify_request r target place_for_repo empty_batch keys).result ≡ done b
          → HasSafePushes b
      batch_safe b e =
          let (ids, (_, looped)) =
            classify_request-done r target place_for_repo empty_batch keys b e in
          let (files, listed) =
            classify_request-listed r target place_for_repo empty_batch keys b e in
          classify_all-keeps r target place_for_repo (sha_dict files) HasSafePushes
            (place_for_repo-IsSafe files listed) ids empty_batch b tt
            (ap
                (λ t.
                  (classify_all r target place_for_repo (sha_dict (option_or t [])) ids
                    empty_batch).result)
                (sym listed)
              ∙ looped)
