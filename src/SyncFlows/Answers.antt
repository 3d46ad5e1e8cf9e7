-- ===== src/SyncFlows/Answers.antt =====
-- src/services/design-mgmt-service.ts: what a reading of `readAndClassify` owes to the answers of
-- CouchDB, of the git provider and of the store, in terms of the answers alone.
use couch_companion_ui.Prelude.{
  ◌≡◌, refl, ap, sym, ◌∙◌, ◌⊎◌, inl, inr, Option, none, some, List, [], ◌∷◌, Text, Dict, get, set,
  get-set, text_eq, arith, if◌then◌else◌, ◌===◌, codes,
}
use couch_companion_ui.DesignSync.{
  Json, null, bool, number, string, array, object, Fields, no_fields, field, design_doc_repo_path,
}
use couch_companion_ui.DesignSync.Canonical.{get_field}
use couch_companion_ui.SyncFlows.{SyncState, FileSha, Answer, found, not_found, Target, Remote}
use couch_companion_ui.SyncFlows.Reading.{
  Reading, sha_dict, sha_dict_from, read_and_classify, classify_answers, classify_parsed,
  parse_repo_file, reading_of, read_design_doc_or_null, text_field, rev_of,
}

abbrev pub later_or : Option Text → Option Text → Option Text
later_or none earlier = earlier
later_or (some sha) earlier = some sha

-- The blob that a tree lists for a path, the last one if it lists several.
abbrev pub last_blob : Text → List FileSha → Option Text
last_blob path [] = none
last_blob path (f ∷ fs) =
    later_or (last_blob path fs) (if f.path === path then some f.blob_sha else none)

-- The revision of the document that CouchDB answers with, `none` without a document or a `_rev`.
abbrev pub text_of : Option Json → Option Text
text_of (some (string s)) = some s
text_of _ = none

abbrev pub revision : Answer → Option Text
revision (found (object fs)) = text_of (get_field (codes "_rev") fs)
revision _ = none

-- What the last sync has recorded of a document.
abbrev pub recorded_rev : Option SyncState → Option Text
recorded_rev none = none
recorded_rev (some st) = st.ddoc_rev

abbrev pub recorded_sha : Option SyncState → Option Text
recorded_sha none = none
recorded_sha (some st) = st.git_sha

-- A side has nothing, or what the last sync left there.
abbrev pub IsUnmoved : Option Text → Option Text → Type 0
IsUnmoved now left = (now ≡ none) ⊎ (now ≡ left)

pub IsUnmoved-same : {a b c d : Option Text} → a ≡ b → c ≡ d → IsUnmoved a c → IsUnmoved b d
IsUnmoved-same e k (inl gone) = inl (sym e ∙ gone)
IsUnmoved-same e k (inr same) = inr (sym e ∙ same ∙ k)

abbrev pub repo_path : Target → Text → Text
repo_path target ddoc_id = design_doc_repo_path target.path target.db_name ddoc_id

get-sha_dict_from :
    (path : Text) (d : Dict Text Text) (fs : List FileSha)
    → get path (sha_dict_from d fs) ≡ later_or (last_blob path fs) (get path d)
get-sha_dict_from path d [] = refl
get-sha_dict_from path d (f ∷ fs) =
    get-sha_dict_from path (set f.path f.blob_sha d) fs ∙ later (last_blob path fs)
  where
    later :
        (o : Option Text)
        → later_or o (get path (set f.path f.blob_sha d))
          ≡ later_or (later_or o (if f.path === path then some f.blob_sha else none)) (get path d)
    later none = ground (arith, get-set f.path path f.blob_sha d)
    later (some sha) = refl

get-sha_dict : (path : Text) (fs : List FileSha) → get path (sha_dict fs) ≡ last_blob path fs
get-sha_dict path fs = get-sha_dict_from path [] fs ∙ kept (last_blob path fs)
  where
    kept : (o : Option Text) → later_or o none ≡ o
    kept none = refl
    kept (some sha) = refl

text_field_lem : (k : Text) (fs : Fields) → text_field k fs ≡ text_of (get_field k fs)
text_field_lem k no_fields = refl
text_field_lem k (field l null fs) = ground (arith, text_field_lem k fs)
text_field_lem k (field l (bool b) fs) = ground (arith, text_field_lem k fs)
text_field_lem k (field l (number n) fs) = ground (arith, text_field_lem k fs)
text_field_lem k (field l (string s) fs) = ground (arith, text_field_lem k fs)
text_field_lem k (field l (array vs) fs) = ground (arith, text_field_lem k fs)
text_field_lem k (field l (object gs) fs) = ground (arith, text_field_lem k fs)

rev_of_lem : (doc : Json) → rev_of doc ≡ revision (found doc)
rev_of_lem (object fs) = text_field_lem (codes "_rev") fs
rev_of_lem null = refl
rev_of_lem (bool b) = refl
rev_of_lem (number n) = refl
rev_of_lem (string s) = refl
rev_of_lem (array vs) = refl

abbrev pub answer_with : Option Json → Answer
answer_with none = not_found
answer_with (some doc) = found doc

-- A reading and the answers that it was made of.
pub record Answers (r : Remote) (target : Target) (shas : Dict Text Text) (ddoc_id : Text)
    (g : Reading) : Type 0 where
  pub doc : Option Json
  pub content : Option Text
  pub body : Option Json
  pub last_sync : Option SyncState
  pub doc_eq : r.get_ddoc ddoc_id ≡ answer_with doc
  pub content_eq : r.get_file (repo_path target ddoc_id) ≡ some content
  pub body_eq : parse_repo_file r target content ≡ some body
  pub last_sync_eq : r.get_sync_state ddoc_id ≡ some last_sync
  pub reading_eq :
      g
      ≡ reading_of r target
          (repo_path target ddoc_id)
          doc
          body
          (get (repo_path target ddoc_id) shas)
          last_sync

module _ (r : Remote) (target : Target) (shas : Dict Text Text) (ddoc_id : Text) (g : Reading) where
  parsed-Answers :
      (doc : Option Json) (content : Option Text) (st : Option SyncState)
      (body : Option (Option Json))
      → r.get_ddoc ddoc_id ≡ answer_with doc
      → r.get_file (repo_path target ddoc_id) ≡ some content
      → r.get_sync_state ddoc_id ≡ some st
      → parse_repo_file r target content ≡ body
      → classify_parsed r target
          (repo_path target ddoc_id)
          (get (repo_path target ddoc_id) shas)
          doc
          st
          body
        ≡ some g
      → Answers r target shas ddoc_id g
  parsed-Answers doc content st none d c s b h = absurd (cc h)
  parsed-Answers doc content st (some body) d c s b h = record {
    doc = doc;
    content = content;
    body = body;
    last_sync = st;
    doc_eq = d;
    content_eq = c;
    body_eq = b;
    last_sync_eq = s;
    reading_eq = sym (cc h);
  }

  pub read_and_classify-Answers :
      read_and_classify r target shas ddoc_id ≡ some g → Answers r target shas ddoc_id g
  unfolding read_and_classify
  read_and_classify-Answers h = answered _ _ _ refl refl refl h
    where
      answered :
          (a : Answer) (c : Option (Option Text)) (s : Option (Option SyncState))
          → r.get_ddoc ddoc_id ≡ a
          → r.get_file (repo_path target ddoc_id) ≡ c
          → r.get_sync_state ddoc_id ≡ s
          → classify_answers r target
              (repo_path target ddoc_id)
              (get (repo_path target ddoc_id) shas)
              (read_design_doc_or_null a)
              c
              s
            ≡ some g
          → Answers r target shas ddoc_id g
      answered (found doc) (some content) (some st) d c s h =
          parsed-Answers (some doc) content st _ d c s refl h
      answered not_found (some content) (some st) d c s h =
          parsed-Answers none content st _ d c s refl h
      answered _ _ _ d c s h = absurd (cc h)

-- In the versions of a reading, both sides and the last sync are as the answers have them.
module _ (r : Remote) (target : Target) (files : List FileSha) (ddoc_id : Text) (g : Reading)
    (a : Answers r target (sha_dict files) ddoc_id g) where
  pub git_sha-answered : g.versions.git_sha ≡ last_blob (repo_path target ddoc_id) files
  git_sha-answered =
      ap (λ g. g.versions.git_sha) a.reading_eq ∙ get-sha_dict (repo_path target ddoc_id) files

  pub synced_sha-answered : g.versions.synced_sha ≡ recorded_sha a.last_sync
  synced_sha-answered = ap (λ g. g.versions.synced_sha) a.reading_eq ∙ of a.last_sync
    where
      of :
          (st : Option SyncState)
          → (elim st [ none ↦ none | some st ↦ st.git_sha ]) ≡ recorded_sha st
      of none = refl
      of (some st) = refl

  pub synced_rev-answered : g.versions.synced_rev ≡ recorded_rev a.last_sync
  synced_rev-answered = ap (λ g. g.versions.synced_rev) a.reading_eq ∙ of a.last_sync
    where
      of :
          (st : Option SyncState)
          → (elim st [ none ↦ none | some st ↦ st.ddoc_rev ]) ≡ recorded_rev st
      of none = refl
      of (some st) = refl

  pub couch_rev-answered : g.versions.couch_rev ≡ revision (r.get_ddoc ddoc_id)
  couch_rev-answered =
      ap (λ g. g.versions.couch_rev) a.reading_eq ∙ of a.doc ∙ ap revision (sym a.doc_eq)
    where
      of :
          (doc : Option Json)
          → (elim doc [ none ↦ none | some doc ↦ rev_of doc ]) ≡ revision (answer_with doc)
      of none = refl
      of (some doc) = rev_of_lem doc
