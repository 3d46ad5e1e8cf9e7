-- ===== src/SyncFlows/ToCouch/Halfway.antt =====
-- The error of a sync to CouchDB that stops between two writes: what it says of each document.
use couch_companion_ui.Prelude.{◌≡◌, ◌⊎◌, none, some, List, [], ◌∷◌, ◌++◌, Text, All, true, false}
use couch_companion_ui.SyncFlows.{
  Target, Remote, Effect, put_document, stopped_halfway, done, failed, Run,
}
use couch_companion_ui.SyncFlows.Reading.{sync_state_doc}
use couch_companion_ui.SyncFlows.ToCouch.{Apply, put_body, ids_of}

-- The documents whose `PUT` was issued.
abbrev pub put_ids : List Effect → List Text
put_ids [] = []
put_ids (put_document ddoc_id body ∷ es) = ddoc_id ∷ put_ids es
put_ids (_ ∷ es) = put_ids es

-- The `PUT` of the document was answered with a revision, and its record was stored.
abbrev pub WasWritten : Remote → Target → Apply → Type 0
WasWritten r target p =
    (rev : Text) × ((r.put_ddoc p.ddoc_id (put_body p) ≡ some rev)
      × (r.saves (sync_state_doc r target p.ddoc_id (some rev) p.git_sha) ≡ true))

-- The report `w`, `n`, `v` of a loop over `ps` that has issued the `PUT`s `issued`. It stopped at one
-- document, all before it being written and recorded. Either the `PUT` of that document was refused,
-- and the report has it as the first that was never written, or it was answered and the record failed,
-- and the report has it as the last that was written and the one that is not recorded.
pub record IsReport (r : Remote) (target : Target) (ps : List Apply) (issued w n v : List Text)
    : Type 0 where
  pub before : List Apply
  pub stopped_at : Apply
  pub rest : List Apply
  pub split : ps ≡ before ++ stopped_at ∷ rest
  pub were_written : All (WasWritten r target) before
  pub issued_eq : issued ≡ ids_of before ++ stopped_at.ddoc_id ∷ []
  pub outcome :
      ((r.put_ddoc stopped_at.ddoc_id (put_body stopped_at) ≡ none)
        × (w ≡ ids_of before)
        × (n ≡ [])
        × (v ≡ stopped_at.ddoc_id ∷ ids_of rest))
      ⊎ ((rev : Text) × ((r.put_ddoc stopped_at.ddoc_id (put_body stopped_at) ≡ some rev)
            × (r.saves (sync_state_doc r target stopped_at.ddoc_id (some rev) stopped_at.git_sha)
                ≡ false)
            × (w ≡ ids_of before ++ stopped_at.ddoc_id ∷ [])
            × (n ≡ stopped_at.ddoc_id ∷ [])
            × (v ≡ ids_of rest)))

module _ (r : Remote) (target : Target) where
  -- What a run of the loop says at its end.
  abbrev Tells : List Apply → List Text → Run {0} Unit → Type 0
  Tells ps written m =
      ((w n v : List Text)
        → m.result ≡ failed (stopped_halfway w n v)
        → IsReport r target ps (written ++ put_ids m.effects) w n v)
      × ((u : Unit {0})
          → m.result ≡ done u
          → (written ++ put_ids m.effects ≡ ids_of ps) × All (WasWritten r target) ps)
