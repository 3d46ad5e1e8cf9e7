-- ===== src/SyncFlows/Reading.antt =====
-- src/services/design-mgmt-service.ts: what a sync reads of one design document, and the documents
-- it keeps about it.
use couch_companion_ui.Prelude.{
  Bool, true, false, not, ◌&&◌, Option, none, some, List, [], ◌∷◌, ◌++◌, Text, codes, if◌then◌else◌,
  ◌===◌, text_eq, option_or, is_some, Dict, get, set, split_at, map, all, add, strip_prefix?,
}
use couch_companion_ui.DesignSync.{
  Json, null, bool, number, string, array, object, Fields, no_fields, field, SyncStatus, synced,
  Versions, classify, resolve_unknown, same_content, design_doc_repo_path,
}
use couch_companion_ui.SyncFlows.{
  SyncState, Conflict, FileSha, Answer, found, not_found, failure, Target, Remote, Effect,
  store_conflict, store_sync_state, SyncError, Result, Run, run_pure, run_fail, after,
}

abbrev pub normalize_ddoc_id : Text → Text
normalize_ddoc_id ddoc_id =
    if is_some (strip_prefix? (codes "_design/") ddoc_id)
    then ddoc_id
    else codes "_design/" ++ ddoc_id

-- `none` where it throws.
abbrev pub ddoc_of_parts : Text → List Text → Option Text
ddoc_of_parts db_name (server ∷ db ∷ ddoc_id ∷ []) =
    if db === db_name then some (normalize_ddoc_id ddoc_id) else none
ddoc_of_parts db_name _ = none

unfoldable pub parse_doc_key : Text → Text → Option Text
parse_doc_key key db_name = ddoc_of_parts db_name (split_at b'|' key)

-- `new Set` of the ids in the order of the request; `none` if one key is refused.
abbrev pub parse_keys : Text → List Text → List Text → Option (List Text)
parse_keys db_name ids [] = some ids
parse_keys db_name ids (key ∷ keys) = elim (parse_doc_key key db_name) [
  | none ↦ none
  | some ddoc_id ↦ parse_keys db_name (add ddoc_id ids) keys
]

-- The text under a key of an object.
abbrev pub text_field : Text → Fields → Option Text
text_field k no_fields = none
text_field k (field l (string s) fs) =
    let rest = text_field k fs in if l === k then some s else rest
text_field k (field l _ fs) = let rest = text_field k fs in if l === k then none else rest

abbrev pub rev_of : Json → Option Text
rev_of (object fs) = text_field (codes "_rev") fs
rev_of _ = none

-- JSON `null` is `null` in the program too.
abbrev pub non_null : Json → Option Json
non_null null = none
non_null (bool b) = some (bool b)
non_null (number n) = some (number n)
non_null (string s) = some (string s)
non_null (array vs) = some (array vs)
non_null (object fs) = some (object fs)

pub record Reading : Type 0 where
  pub file_path : Text
  pub couch_doc : Option Json
  pub git_body : Option Json
  pub versions : Versions
  pub status : SyncStatus

abbrev pub read_design_doc_or_null : Answer → Option (Option Json)
read_design_doc_or_null (found doc) = some (some doc)
read_design_doc_or_null not_found = some none
read_design_doc_or_null failure = none

module _ (r : Remote) (target : Target) where
  abbrev pub parse_repo_file : Option Text → Option (Option Json)
  parse_repo_file none = some none
  parse_repo_file (some content) = elim (r.parse content) [
    | none ↦ none
    | some body ↦ some (non_null body)
  ]

  abbrev content_equal_of : Option Json → Option Json → Bool
  content_equal_of (some doc) (some body) = same_content r.stringify doc body
  content_equal_of _ _ = false

  abbrev pub versions_of : Option Json → Option Json → Option Text → Option SyncState → Versions
  versions_of couch_doc git_body git_sha sync_state = record {
    couch_rev = elim couch_doc [ none ↦ none | some doc ↦ rev_of doc ];
    git_sha = git_sha;
    synced_rev = elim sync_state [ none ↦ none | some st ↦ st.ddoc_rev ];
    synced_sha = elim sync_state [ none ↦ none | some st ↦ st.git_sha ];
    content_equal = content_equal_of couch_doc git_body;
  }

  -- A document on neither side is `synced`.
  abbrev pub status_of : Versions → SyncStatus
  status_of v =
      if not (is_some v.couch_rev) && not (is_some v.git_sha)
      then synced
      else resolve_unknown (classify v) v.content_equal

  abbrev pub reading_of :
      Text → Option Json → Option Json → Option Text → Option SyncState → Reading
  reading_of file_path couch_doc git_body git_sha sync_state =
      let versions = versions_of couch_doc git_body git_sha sync_state in
      record {
        file_path = file_path;
        couch_doc = couch_doc;
        git_body = git_body;
        versions = versions;
        status = status_of versions;
      }

  abbrev pub classify_parsed :
      Text → Option Text → Option Json → Option SyncState → Option (Option Json) → Option Reading
  classify_parsed file_path git_sha couch_doc sync_state none = none
  classify_parsed file_path git_sha couch_doc sync_state (some git_body) =
      some (reading_of file_path couch_doc git_body git_sha sync_state)

  -- `Promise.all` of the three requests, then the parse.
  abbrev pub classify_answers :
      Text
      → Option Text
      → Option (Option Json)
      → Option (Option Text)
      → Option (Option SyncState)
      → Option Reading
  classify_answers file_path git_sha (some couch_doc) (some content) (some sync_state) =
      classify_parsed file_path git_sha couch_doc sync_state (parse_repo_file content)
  classify_answers file_path git_sha _ _ _ = none

  -- `none` where a request fails or the file is not JSON.
  unfoldable pub read_and_classify : Dict Text Text → Text → Option Reading
  read_and_classify sha_by_path ddoc_id =
      let file_path = design_doc_repo_path target.path target.db_name ddoc_id in
      classify_answers file_path (get file_path sha_by_path)
        (read_design_doc_or_null (r.get_ddoc ddoc_id)) (r.get_file file_path)
        (r.get_sync_state ddoc_id)

  abbrev same_pair : Option Conflict → Text → Text → Bool
  same_pair none couch_rev git_sha = false
  same_pair (some c) couch_rev git_sha = c.couch_rev === couch_rev && c.git_sha === git_sha

  abbrev conflict_doc : Option Conflict → Text → Text → Text → Conflict
  conflict_doc existing ddoc_id couch_rev git_sha =
      let same = same_pair existing couch_rev git_sha in
      record {
        ddoc_id = ddoc_id;
        git_repo_id = target.repo_id;
        couch_rev = couch_rev;
        git_sha = git_sha;
        conflict_branch = target.branch;
        resolved = elim existing [ none ↦ false | some c ↦ same && c.resolved ];
        detected_at = elim existing [
          | none ↦ r.now
          | some c ↦ if same then c.detected_at else r.now
        ];
      }

  -- A failing request is only logged.
  unfoldable pub write_conflict : Text → Versions → List Effect
  write_conflict ddoc_id v = elim (r.get_conflict ddoc_id) [
    | none ↦ []
    | some existing ↦
        store_conflict
          (conflict_doc existing ddoc_id (option_or v.couch_rev []) (option_or v.git_sha []))
        ∷ []
  ]

  abbrev pub sync_state_doc : Text → Option Text → Option Text → SyncState
  sync_state_doc ddoc_id ddoc_rev git_sha = record {
    ddoc_id = ddoc_id;
    git_repo_id = target.repo_id;
    git_sha = git_sha;
    ddoc_rev = ddoc_rev;
  }

  abbrev pub save_sync_state : Text → Option Text → Option Text → Run {0} Unit
  save_sync_state ddoc_id couch_rev git_sha =
      let doc = sync_state_doc ddoc_id couch_rev git_sha in
      record {
        effects = store_sync_state doc ∷ [];
        result = if r.saves doc then Result.done tt else Result.failed SyncError.request_failed;
      }

abbrev pub is_conflict : SyncStatus → Bool
is_conflict SyncStatus.conflict = true
is_conflict _ = false

-- What waits for its `sync:` document only.
pub record Heal : Type 0 where
  pub ddoc_id : Text
  pub couch_rev : Option Text
  pub git_sha : Option Text

abbrev pub sha_dict_from : Dict Text Text → List FileSha → Dict Text Text
sha_dict_from d [] = d
sha_dict_from d (f ∷ fs) = sha_dict_from (set f.path f.blob_sha d) fs

-- `new Map` of the entries of a tree or of a commit.
abbrev pub sha_dict : List FileSha → Dict Text Text
sha_dict files = sha_dict_from [] files

module _ (r : Remote) (target : Target) where
  abbrev pub heal_doc : Heal → SyncState
  heal_doc h = sync_state_doc r target h.ddoc_id h.couch_rev h.git_sha

  -- `Promise.all`: every write is issued, and one that fails fails the call.
  abbrev pub save_heals : List Heal → Run {0} Unit
  save_heals hs = record {
    effects = map (λ h. store_sync_state (heal_doc h)) hs;
    result =
        if all (λ h. r.saves (heal_doc h)) hs
        then Result.done tt
        else Result.failed SyncError.request_failed;
  }

  -- The writes while the documents are classified.
  abbrev pub conflict_effects : Text → Reading → List Effect
  conflict_effects ddoc_id g =
      if is_conflict g.status then write_conflict r target ddoc_id g.versions else []

  -- One round of the loop over the documents, `place` being what it does to the lists and counters.
  abbrev pub classify_all {ℓ} :
      {B : Type ℓ} → (Text → Reading → B → B) → Dict Text Text → List Text → B → Run B
  classify_all place shas [] b = run_pure b
  classify_all place shas (ddoc_id ∷ ids) b = elim (read_and_classify r target shas ddoc_id) [
    | none ↦ run_fail [] SyncError.request_failed
    | some g ↦ after (conflict_effects ddoc_id g) (classify_all place shas ids (place ddoc_id g b))
  ]

  abbrev pub classify_listed {ℓ} :
      {B : Type ℓ} → (Text → Reading → B → B) → B → List Text → Option (List FileSha) → Run B
  classify_listed place start ids none = run_fail [] SyncError.request_failed
  classify_listed place start ids (some tree) = classify_all place (sha_dict tree) ids start

  -- Both syncs begin alike: the keys, the tree, then one round for each document.
  abbrev pub classify_request {ℓ} : {B : Type ℓ} → (Text → Reading → B → B) → B → List Text → Run B
  classify_request place start keys = elim (parse_keys target.db_name [] keys) [
    | none ↦ run_fail [] SyncError.request_failed
    | some ids ↦ classify_listed place start ids r.list_tree
  ]
