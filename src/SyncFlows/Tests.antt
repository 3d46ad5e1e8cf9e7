-- ===== src/SyncFlows/Tests.antt =====
-- Tests of the two syncs on a database with three design documents.
use couch_companion_ui.Prelude.{
  ◌≡◌, refl, true, none, some, List, [], ◌∷◌, Text, codes, text_eq, if◌then◌else◌, ◌===◌, All,
  length, filter,
}
use couch_companion_ui.DesignSync.{
  Json, object, string, no_fields, field, is_metadata, sort_keys, serialize_ddoc, same_content,
  classify, design_doc_repo_path,
}
use couch_companion_ui.SyncFlows.{
  Answer, found, not_found, Target, Remote, failed, conflicts_found, stopped_halfway,
}
use couch_companion_ui.SyncFlows.Reading.{read_and_classify, parse_doc_key}
use couch_companion_ui.SyncFlows.ToRepo.{SyncResult, sync_to_repo}
use couch_companion_ui.SyncFlows.ToRepo.Safety.{IsRepoWrite, sync_to_repo_safe}
use couch_companion_ui.SyncFlows.ToCouch.{sync_to_couch, Apply, ids_of, write_documents}
use couch_companion_ui.SyncFlows.ToCouch.Pulls.{IsCouchWrite, sync_to_couch_safe}
use couch_companion_ui.SyncFlows.ToCouch.Refusal.{
  in_conflict, IsConflictRecord, sync_to_couch_refuses,
}

abbrev ddoc_a : Text
ddoc_a = codes "_design/a"

abbrev ddoc_b : Text
ddoc_b = codes "_design/b"

abbrev doc_of : Text → Text → Json
doc_of rev views =
    object (field (codes "_rev") (string rev) (field (codes "views") (string views) no_fields))

-- `a` is new in CouchDB, `b` differs on both sides and was never synced.
abbrev answer_of : Text → Answer
answer_of ddoc_id =
    if ddoc_id === ddoc_a
    then found (doc_of (codes "1-a") (codes "v"))
    else if ddoc_id === ddoc_b
    then found (doc_of (codes "3-b") (codes "w"))
    else not_found

abbrev path_b : Text
path_b = codes "dd/db/_design/b.json"

-- `same_content` looks at the texts: here one for the empty object, one for all others.
abbrev texts : Json → Text
texts (object no_fields) = codes "{}"
texts _ = codes "doc"

abbrev remote : Remote
remote = record {
  list_tree = some (record { path = path_b; blob_sha = codes "f00" } ∷ []);
  get_ddoc = answer_of;
  get_file = λ path. some (if path === path_b then some (codes "B") else none);
  get_sync_state = λ _. some none;
  get_conflict = λ _. some none;
  commit =
      λ changes. some (record { path = codes "dd/db/_design/a.json"; blob_sha = codes "abc" } ∷ []);
  put_ddoc = λ _ _. none;
  saves = λ _. true;
  parse = λ _. some (object no_fields);
  stringify = texts;
  now = codes "today";
}

abbrev target : Target
target = record {
  repo_id = codes "repo";
  db_name = codes "db";
  branch = codes "main";
  path = codes "/dd/";
}

abbrev key_a : Text
key_a = codes "local|db|a"

abbrev key_b : Text
key_b = codes "local|db|_design/b"

abbrev both : List Text
both = key_a ∷ key_b ∷ key_a ∷ []

abbrev one_pushed : SyncResult
one_pushed = record { is_conflicted = true; synced = 1; conflicts = 1; skipped = 0; reconciled = 0 }

sync_to_repo_safe_example :
    All (IsRepoWrite remote target) (sync_to_repo remote target both).effects
sync_to_repo_safe_example = sync_to_repo_safe remote target both

-- Document `c` is in the repository only, so that its file is pulled.
abbrev pulling : Remote
pulling = record remote {
  list_tree = some (record { path = codes "dd/db/_design/c.json"; blob_sha = codes "f01" } ∷ []);
  get_file = λ path. some (some (codes "C"));
  put_ddoc = λ _ _. some (codes "1-c");
}

abbrev key_c : Text
key_c = codes "local|db|c"

pulled : length (sync_to_couch pulling target (key_c ∷ [])).effects ≡ 2
unfolding sync_to_couch read_and_classify design_doc_repo_path classify same_content serialize_ddoc
    sort_keys is_metadata parse_doc_key
pulled = refl

sync_to_couch_safe_example :
    All (IsCouchWrite pulling target) (sync_to_couch pulling target (key_c ∷ [])).effects
sync_to_couch_safe_example = sync_to_couch_safe pulling target (key_c ∷ [])

sync_to_couch_refuses_example :
    ((sync_to_couch remote target both).result
      ≡ failed (conflicts_found (filter (in_conflict remote target) (ddoc_a ∷ ddoc_b ∷ []))))
    × All (IsConflictRecord remote target) (sync_to_couch remote target both).effects
unfolding read_and_classify design_doc_repo_path classify same_content serialize_ddoc sort_keys
    is_metadata parse_doc_key
sync_to_couch_refuses_example =
    sync_to_couch_refuses remote target both (ddoc_a ∷ ddoc_b ∷ [])
      (record { path = path_b; blob_sha = codes "f00" } ∷ []) refl refl (refl, (refl, tt)) refl

-- The second document is refused.
abbrev refusing : Remote
refusing = record remote {
  put_ddoc = λ ddoc_id _. if ddoc_id === ddoc_b then none else some (codes "9");
}

abbrev pulls : List Apply
pulls =
    record {
      ddoc_id = ddoc_a;
      git_sha = some (codes "f0");
      couch_rev = none;
      body = object no_fields;
    }
    ∷ record {
      ddoc_id = ddoc_b;
      git_sha = some (codes "f1");
      couch_rev = some (codes "3-b");
      body = object no_fields;
    }
    ∷ []

pulls-result :
    (write_documents refusing target (ids_of pulls) [] [] pulls).result
    ≡ failed (stopped_halfway (ddoc_a ∷ []) [] (ddoc_b ∷ []))
pulls-result = refl
