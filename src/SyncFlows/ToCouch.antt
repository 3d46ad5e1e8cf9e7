-- ===== src/SyncFlows/ToCouch.antt =====
-- src/services/design-mgmt-service.ts: `syncToCouch`.
pub mod Bodies
pub mod Pulls
pub mod Refusal
pub mod Halfway
use couch_companion_ui.Prelude.{
  digits, ℕ, ◌+◌, suc, zero, ◌/◌, ◌%◌, Bool, true, false, not, Option, none, some, List, [], ◌∷◌,
  ◌++◌, Text, codes, if◌then◌else◌, map, length, is_nil, drop, ltb,
}
use couch_companion_ui.DesignSync.{
  Json, null, bool, number, string, array, object, Items, no_items, item, Fields, no_fields, field,
  is_metadata, SyncStatus, can_apply, to_couch,
}
use couch_companion_ui.SyncFlows.{
  Target, Remote, Effect, put_document, store_sync_state, SyncError, conflicts_found,
  stopped_halfway, Result, Run, run_pure, run_fail, after, ◌>>=◌,
}
use couch_companion_ui.SyncFlows.Reading.{
  Reading, Heal, save_heals, sync_state_doc, is_conflict, classify_request,
}

pub record Apply : Type 0 where
  pub ddoc_id : Text
  pub git_sha : Option Text
  pub couch_rev : Option Text
  pub body : Json

pub record CouchBatch : Type 0 where
  pub to_apply : List Apply
  pub to_heal : List Heal
  pub conflicted : List Text

abbrev pub empty_batch : CouchBatch
empty_batch = record { to_apply = []; to_heal = []; conflicted = [] }

-- What one round does with a document that may be pulled.
abbrev pub pull_document : Text → Reading → Option Json → CouchBatch → CouchBatch
pull_document ddoc_id g none b = b
pull_document ddoc_id g (some body) b =
    if g.versions.content_equal
    then record b {
      to_heal =
          b.to_heal
          ++ record {
            ddoc_id = ddoc_id;
            couch_rev = g.versions.couch_rev;
            git_sha = g.versions.git_sha;
          }
            ∷ [];
    }
    else record b {
      to_apply =
          b.to_apply
          ++ record {
            ddoc_id = ddoc_id;
            git_sha = g.versions.git_sha;
            couch_rev = g.versions.couch_rev;
            body = body;
          }
            ∷ [];
    }

abbrev pub place_for_couch : Text → Reading → CouchBatch → CouchBatch
place_for_couch ddoc_id g b =
    if is_conflict g.status
    then record b { conflicted = b.conflicted ++ ddoc_id ∷ [] }
    else if not (can_apply g.status to_couch)
    then b
    else pull_document ddoc_id g g.git_body b

-- The own properties of an array and of a string are their indices.
abbrev indexed_items : ℕ → Items → Fields
indexed_items n no_items = no_fields
indexed_items n (item v vs) = field (digits (n + 1) n []) v (indexed_items (n + 1) vs)

abbrev indexed_text : ℕ → Text → Fields
indexed_text n [] = no_fields
indexed_text n (c ∷ s) = field (digits (n + 1) n []) (string (c ∷ [])) (indexed_text (n + 1) s)

abbrev pub own_fields : Json → Fields
own_fields (object fs) = fs
own_fields (array vs) = indexed_items 0 vs
own_fields (string s) = indexed_text 0 s
own_fields _ = no_fields

-- `{ ...rest, ...more }`, where `rest` leaves the metadata out and `more` holds metadata only.
abbrev pub without_metadata : Fields → Fields → Fields
without_metadata no_fields more = more
without_metadata (field k v fs) more =
    let rest = without_metadata fs more in if is_metadata k then rest else field k v rest

abbrev pub rev_field : Option Text → Fields
rev_field none = no_fields
rev_field (some []) = no_fields
rev_field (some (c ∷ s)) = field (codes "_rev") (string (c ∷ s)) no_fields

abbrev pub put_body : Apply → Json
put_body p = object (
    without_metadata (own_fields p.body)
      (field (codes "_id") (string p.ddoc_id) (rev_field p.couch_rev)))

abbrev pub ids_of : List Apply → List Text
ids_of ps = map (λ p. p.ddoc_id) ps

module _ (r : Remote) (target : Target) where
  -- The error of a loop that stops after the writes `written`.
  abbrev pub stopped : List Text → List Text → List Text → SyncError
  stopped ids written recorded =
      stopped_halfway written (drop (length recorded) written) (drop (length written) ids)

  -- What a round does with the answer to its `PUT`, `rest` being the rounds that follow.
  abbrev pub after_put :
      List Text → List Text → List Text → Apply → Run {0} Unit → Option Text → Run {0} Unit
  after_put ids written recorded p rest none = run_fail [] (stopped ids written recorded)
  after_put ids written recorded p rest (some rev) =
      let doc = sync_state_doc r target p.ddoc_id (some rev) p.git_sha in
      after (store_sync_state doc ∷ []) (
        if r.saves doc
        then rest
        else run_fail [] (stopped ids (written ++ p.ddoc_id ∷ []) recorded))

  -- The rest of the loop, `ids` naming all that were to be applied.
  abbrev pub write_documents : List Text → List Text → List Text → List Apply → Run {0} Unit
  write_documents ids written recorded [] = run_pure tt
  write_documents ids written recorded (p ∷ ps) =
      let rest = write_documents ids (written ++ p.ddoc_id ∷ []) (recorded ++ p.ddoc_id ∷ []) ps in
      after (put_document p.ddoc_id (put_body p) ∷ [])
        (after_put ids written recorded p rest (r.put_ddoc p.ddoc_id (put_body p)))

  abbrev pub apply_batch : CouchBatch → Run {0} Unit
  apply_batch b =
      write_documents (ids_of b.to_apply) [] [] b.to_apply >>= λ _. save_heals r target b.to_heal

  abbrev pub finish_couch : CouchBatch → Run {0} Unit
  finish_couch b =
      if is_nil b.conflicted then apply_batch b else run_fail [] (conflicts_found b.conflicted)

  unfoldable pub sync_to_couch : List Text → Run {0} Unit
  sync_to_couch keys = classify_request r target place_for_couch empty_batch keys >>= finish_couch
