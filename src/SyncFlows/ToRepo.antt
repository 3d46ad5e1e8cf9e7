-- ===== src/SyncFlows/ToRepo.antt =====
-- src/services/design-mgmt-service.ts: `syncToRepo`.
pub mod Pushes
pub mod Safety
use couch_companion_ui.Prelude.{
  ℕ, ◌+◌, suc, Bool, true, false, not, Option, none, some, List, [], ◌∷◌, ◌++◌, Text, if◌then◌else◌,
  text_eq, Dict, get, map, length, is_nil, ltb,
}
use couch_companion_ui.DesignSync.{Json, SyncStatus, conflict, can_apply, to_repo, serialize_ddoc}
use couch_companion_ui.SyncFlows.{
  FileChange, FileSha, Target, Remote, Effect, commit_files, SyncError, request_failed, Run,
  run_pure, run_fail, after, ◌>>=◌,
}
use couch_companion_ui.SyncFlows.Reading.{
  Reading, Heal, sha_dict, save_heals, save_sync_state, is_conflict, classify_request,
}

pub record Push : Type 0 where
  pub ddoc_id : Text
  pub file_path : Text
  pub couch_rev : Option Text
  pub body : Json

pub record RepoBatch : Type 0 where
  pub to_commit : List Push
  pub to_heal : List Heal
  pub conflicts : ℕ
  pub skipped : ℕ

pub record SyncResult : Type 0 where
  pub is_conflicted : Bool
  pub synced : ℕ
  pub conflicts : ℕ
  pub skipped : ℕ
  pub reconciled : ℕ

abbrev pub empty_batch : RepoBatch
empty_batch = record { to_commit = []; to_heal = []; conflicts = 0; skipped = 0 }

abbrev skip : RepoBatch → RepoBatch
skip b = record b { skipped = b.skipped + 1 }

abbrev add_push : Push → RepoBatch → RepoBatch
add_push p b = record b { to_commit = b.to_commit ++ p ∷ [] }

abbrev add_heal : Heal → RepoBatch → RepoBatch
add_heal h b = record b { to_heal = b.to_heal ++ h ∷ [] }

-- What one round does with a document that may be pushed.
abbrev push_document : Text → Reading → Option Json → RepoBatch → RepoBatch
push_document ddoc_id g none b = skip b
push_document ddoc_id g (some doc) b =
    if g.versions.content_equal
    then add_heal
        (record {
          ddoc_id = ddoc_id;
          couch_rev = g.versions.couch_rev;
          git_sha = g.versions.git_sha;
        })
        b
    else add_push
        (record {
          ddoc_id = ddoc_id;
          file_path = g.file_path;
          couch_rev = g.versions.couch_rev;
          body = doc;
        })
        b

abbrev pub place_for_repo : Text → Reading → RepoBatch → RepoBatch
place_for_repo ddoc_id g b =
    if is_conflict g.status
    then record b { conflicts = b.conflicts + 1 }
    else if not (can_apply g.status to_repo)
    then skip b
    else push_document ddoc_id g g.couch_doc b

module _ (r : Remote) (target : Target) where
  abbrev pub changes_of : List Push → List FileChange
  changes_of ps =
      map (λ p. record { path = p.file_path; content = serialize_ddoc r.stringify p.body }) ps

  -- One after the other, up to one that fails; `synced` counts them.
  abbrev pub save_pushes : Dict Text Text → ℕ → List Push → Run ℕ
  save_pushes shas synced [] = run_pure synced
  save_pushes shas synced (p ∷ ps) =
      save_sync_state r target p.ddoc_id p.couch_rev (get p.file_path shas) >>= λ _.
      save_pushes shas (synced + 1) ps

  abbrev pub save_committed : List Push → Option (List FileSha) → Run ℕ
  save_committed ps none = run_fail [] request_failed
  save_committed ps (some shas) = save_pushes (sha_dict shas) 0 ps

  abbrev pub commit_pushes : List Push → Run ℕ
  commit_pushes [] = run_pure 0
  commit_pushes (p ∷ ps) =
      let changes = changes_of (p ∷ ps) in
      after (commit_files changes ∷ []) (save_committed (p ∷ ps) (r.commit changes))

  abbrev pub finish_repo : RepoBatch → Run SyncResult
  finish_repo b = commit_pushes b.to_commit >>= λ synced. save_heals r target b.to_heal >>= λ _.
      run_pure (record {
        is_conflicted = ltb 0 b.conflicts;
        synced = synced;
        conflicts = b.conflicts;
        skipped = b.skipped;
        reconciled = length b.to_heal;
      })

  unfoldable pub sync_to_repo : List Text → Run SyncResult
  sync_to_repo keys = classify_request r target place_for_repo empty_batch keys >>= finish_repo
