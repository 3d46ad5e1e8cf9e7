-- ===== src/SyncFlows/ToCouch/Bodies.antt =====
-- What a body that is put into CouchDB owes to the answers: its fields, its id and its revision.
use couch_companion_ui.Prelude.{
  ◌≡◌, refl, ap, sym, ◌∙◌, true, false, Option, none, some, List, [], ◌∷◌, Text, arith, text_eq,
  ◌≢◌, codes, ===_ne,
}
use couch_companion_ui.DesignSync.{
  Json, null, bool, number, string, array, object, Fields, no_fields, field, is_metadata,
  design_doc_repo_path,
}
use couch_companion_ui.DesignSync.Canonical.{get_field, is_metadata_of_same}
use couch_companion_ui.SyncFlows.{FileSha, SyncState, Target, Remote}
use couch_companion_ui.SyncFlows.Reading.{Reading, sha_dict, parse_repo_file, non_null}
use couch_companion_ui.SyncFlows.Answers.{
  revision, recorded_rev, IsUnmoved, IsUnmoved-same, Answers, synced_rev-answered,
  couch_rev-answered,
}
use couch_companion_ui.SyncFlows.ToCouch.{put_body, without_metadata, own_fields, rev_field}

-- A revision as a body sends it, an empty one not at all.
abbrev pub sent_rev : Option Text → Option Json
sent_rev none = none
sent_rev (some []) = none
sent_rev (some (c ∷ s)) = some (string (c ∷ s))

id_IsMetadata : is_metadata (codes "_id") ≡ true
unfolding is_metadata
id_IsMetadata = refl

rev_IsMetadata : is_metadata (codes "_rev") ≡ true
unfolding is_metadata
rev_IsMetadata = refl

-- What is put for a document. If the repository's file at the path of the document is a JSON object,
-- then the body has its fields, apart from the metadata; it has the id of the document and the revision
-- of the one that CouchDB answers with; and that revision is the one that the last sync recorded,
-- unless CouchDB has none.
pub record KeepsDocument (r : Remote) (target : Target) (ddoc_id : Text) (body : Json)
    : Type 0 where
  pub file : Text
  pub value : Json
  pub put_fields : Fields
  pub last_sync : Option SyncState
  pub file_read :
      r.get_file (design_doc_repo_path target.path target.db_name ddoc_id) ≡ some (some file)
  pub parsed : r.parse file ≡ some value
  pub recorded : r.get_sync_state ddoc_id ≡ some last_sync
  pub body_eq : body ≡ object put_fields
  pub id_eq : get_field (codes "_id") put_fields ≡ some (string ddoc_id)
  pub rev_eq : get_field (codes "_rev") put_fields ≡ sent_rev (revision (r.get_ddoc ddoc_id))
  pub kept :
      (fs : Fields)
      → value ≡ object fs
      → (k : Text) → k ≢ codes "_id"
      → k ≢ codes "_rev"
      → k ≢ codes "_revisions"
      → get_field k put_fields ≡ get_field k fs
  pub unmoved : IsUnmoved (revision (r.get_ddoc ddoc_id)) (recorded_rev last_sync)

-- Metadata comes from `more`, and what `more` has not from the fields.
get_field-kept :
    (k : Text) (fs more : Fields)
    → is_metadata k ≡ false
    → get_field k more ≡ none
    → get_field k (without_metadata fs more) ≡ get_field k fs
get_field-kept k no_fields more h n = n
get_field-kept k (field l v fs) more h n =
    ground (arith, get_field-kept k fs more h n, is_metadata_of_same l k)

get_field-replaced :
    (k : Text) (fs more : Fields)
    → is_metadata k ≡ true
    → get_field k (without_metadata fs more) ≡ get_field k more
get_field-replaced k no_fields more h = refl
get_field-replaced k (field l v fs) more h =
    ground (arith, get_field-replaced k fs more h, is_metadata_of_same l k)

abbrev replaced : Text → Option Text → Fields
replaced ddoc_id rev = field (codes "_id") (string ddoc_id) (rev_field rev)

get_field-replaced_rev :
    (ddoc_id : Text) (rev : Option Text)
    → get_field (codes "_rev") (replaced ddoc_id rev) ≡ sent_rev rev
get_field-replaced_rev ddoc_id none = refl
get_field-replaced_rev ddoc_id (some []) = refl
get_field-replaced_rev ddoc_id (some (c ∷ s)) = refl

get_field-not_replaced :
    (k ddoc_id : Text) (rev : Option Text)
    → k ≢ codes "_id"
    → k ≢ codes "_rev"
    → get_field k (replaced ddoc_id rev) ≡ none
get_field-not_replaced k ddoc_id none h i = rw (===_ne (λ e. h (sym e))) refl
get_field-not_replaced k ddoc_id (some []) h i = rw (===_ne (λ e. h (sym e))) refl
get_field-not_replaced k ddoc_id (some (c ∷ s)) h i =
    rw (===_ne (λ e. h (sym e)), ===_ne (λ e. i (sym e))) refl

is_metadata_of_ne :
    (k : Text) → k ≢ codes "_id" → k ≢ codes "_rev" → k ≢ codes "_revisions" → is_metadata k ≡ false
unfolding is_metadata
is_metadata_of_ne k h i j = rw (===_ne h, ===_ne i, ===_ne j) refl

non_null_lem : (v : Json) {b : Json} → non_null v ≡ some b → v ≡ b
non_null_lem null h = absurd (cc h)
non_null_lem (bool b) h = cc h
non_null_lem (number n) h = cc h
non_null_lem (string s) h = cc h
non_null_lem (array vs) h = cc h
non_null_lem (object fs) h = cc h

module _ (r : Remote) (target : Target) where
  -- A file that has a body is there, and it is the JSON text of that body.
  parse_repo_file-some :
      (content : Option Text) (body : Json)
      → parse_repo_file r target content ≡ some (some body)
      → (file : Text) × ((content ≡ some file) × (r.parse file ≡ some body))
  parse_repo_file-some none body h = absurd (cc h)
  parse_repo_file-some (some file) body h = (file, (refl, read (r.parse file) refl))
    where
      read : (o : Option Json) → r.parse file ≡ o → r.parse file ≡ some body
      read none e = absurd (cc (rw (e, parse_repo_file) at h))
      read (some v) e = e ∙ ap some (non_null_lem v (cc (rw (e, parse_repo_file) at h)))

  -- What the answers to a reading say of the pull that it leads to.
  pub answered-IsSafe :
      (files : List FileSha) (ddoc_id : Text) (g : Reading) (body : Json) (sha : Option Text)
      → g.git_body ≡ some body
      → IsUnmoved g.versions.couch_rev g.versions.synced_rev
      → Answers r target (sha_dict files) ddoc_id g
      → KeepsDocument r target ddoc_id (
          put_body (record {
            ddoc_id = ddoc_id;
            git_sha = sha;
            couch_rev = g.versions.couch_rev;
            body = body;
          }))
  answered-IsSafe files ddoc_id g body sha has_body still a =
      let (file, (there, parsed)) =
        parse_repo_file-some a.content body
          (a.body_eq ∙ ap some (sym (ap (λ g. g.git_body) a.reading_eq) ∙ has_body)) in
      let now = couch_rev-answered r target files ddoc_id g a in
      record {
        file = file;
        value = body;
        put_fields = without_metadata (own_fields body) (replaced ddoc_id g.versions.couch_rev);
        last_sync = a.last_sync;
        file_read = a.content_eq ∙ ap some there;
        parsed = parsed;
        recorded = a.last_sync_eq;
        body_eq = refl;
        id_eq = get_field-replaced (codes "_id") (own_fields body) _ id_IsMetadata;
        rev_eq =
            get_field-replaced (codes "_rev") (own_fields body) _ rev_IsMetadata
            ∙ get_field-replaced_rev ddoc_id g.versions.couch_rev
            ∙ ap sent_rev now;
        kept = λ fs e k i j l.
            get_field-kept k (own_fields body) (replaced ddoc_id g.versions.couch_rev)
              (is_metadata_of_ne k i j l)
              (get_field-not_replaced k ddoc_id g.versions.couch_rev i j)
            ∙ ap (λ v. get_field k (own_fields v)) e;
        unmoved = IsUnmoved-same now (synced_rev-answered r target files ddoc_id g a) still;
      }
