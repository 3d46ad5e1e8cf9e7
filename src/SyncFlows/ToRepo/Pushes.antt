-- ===== src/SyncFlows/ToRepo/Pushes.antt =====
-- What a sync to the repository commits, and how it counts the documents.
use couch_companion_ui.Prelude.{
  ℕ, not, List, Text, length, ltb, text_eq, Bool, not, ◌&&◌, is_some, filter,
}
use couch_companion_ui.DesignSync.{can_apply, to_repo}
use couch_companion_ui.SyncFlows.{Target, Remote}
use couch_companion_ui.SyncFlows.Reading.{Reading, is_conflict}
use couch_companion_ui.SyncFlows.Classifying.{tree_shas, reads}
use couch_companion_ui.SyncFlows.ToRepo.{RepoBatch, SyncResult}

-- A document that is committed: it may be pushed, CouchDB has it, and the contents differ. One whose
-- record alone is renewed has equal contents. All others that are not in conflict are skipped.
abbrev pub is_pushable : Reading → Bool
is_pushable g = not (is_conflict g.status) && can_apply g.status to_repo && is_some g.couch_doc

abbrev pub is_pushed : Reading → Bool
is_pushed g = is_pushable g && not g.versions.content_equal

abbrev pub is_healed : Reading → Bool
is_healed g = is_pushable g && g.versions.content_equal

abbrev pub is_skipped : Reading → Bool
is_skipped g = not (is_conflict g.status) && not (is_pushable g)

module _ (r : Remote) (target : Target) where
  abbrev result_of : RepoBatch → SyncResult
  result_of b = record {
    is_conflicted = ltb 0 b.conflicts;
    synced = length b.to_commit;
    conflicts = b.conflicts;
    skipped = b.skipped;
    reconciled = length b.to_heal;
  }

  abbrev counted : (Reading → Bool) → List Text → ℕ
  counted p ids = length (filter (reads r target (tree_shas r) p) ids)

  -- The result that the readings of the documents demand.
  abbrev pub tallied : List Text → SyncResult
  tallied ids = record {
    is_conflicted = ltb 0 (counted (λ g. is_conflict g.status) ids);
    synced = counted is_pushed ids;
    conflicts = counted (λ g. is_conflict g.status) ids;
    skipped = counted is_skipped ids;
    reconciled = counted is_healed ids;
  }
