-- ===== src/DesignSync.antt =====
-- src/services/git/design-sync.ts: the state of a design document between CouchDB and a git
-- repository, which way it may be moved, and the canonical form that decides equality.
--
-- A revision or a blob sha is a text, `null` is `none`. An object is the list of its entries, as
-- `Object.entries` gives them. `JSON.stringify` is a parameter.
pub mod Verdicts
pub mod Canonical
pub mod Contents
pub mod SameForm
mod Encoding
pub mod Paths
mod Tests
use couch_companion_ui.Prelude.{
  Bool, true, false, not, ◌&&◌, ◌||◌, Option, none, some, List, [], ◌∷◌, ◌++◌, Text, codes,
  if◌then◌else◌, ◌===◌, text_eq, option_beq, is_some, text_ltb, ℕ, nat_eq, reverse, filter, is_nil,
  option_or, strip_prefix?, contains, split_at,
}

pub data SyncStatus : Type 0 where
  synced : SyncStatus
  newer_in_couch : SyncStatus
  newer_in_git : SyncStatus
  conflict : SyncStatus
  unknown : SyncStatus

pub data SyncDirection : Type 0 where
  to_repo : SyncDirection
  to_couch : SyncDirection

-- The arguments of `classify`.
pub record Versions : Type 0 where
  pub couch_rev : Option Text
  pub git_sha : Option Text
  pub synced_rev : Option Text
  pub synced_sha : Option Text
  pub content_equal : Bool

-- What both sides did since the last sync: `couchMoved`, `gitMoved`.
abbrev after_moves : Bool → Bool → Bool → SyncStatus
after_moves true true content_equal = if content_equal then synced else conflict
after_moves true false _ = newer_in_couch
after_moves false true _ = newer_in_git
after_moves false false _ = synced

unfoldable pub classify : Versions → SyncStatus
classify v =
    if is_some v.couch_rev && not (is_some v.git_sha)
    then newer_in_couch
    else if not (is_some v.couch_rev) && is_some v.git_sha
    then newer_in_git
    else if not (is_some v.synced_rev) && not (is_some v.synced_sha)
    then unknown
    else after_moves (not (option_beq v.couch_rev v.synced_rev))
        (not (option_beq v.git_sha v.synced_sha)) v.content_equal

abbrev pub resolve_unknown : SyncStatus → Bool → SyncStatus
resolve_unknown unknown content_equal = if content_equal then synced else conflict
resolve_unknown status _ = status

abbrev pub can_apply : SyncStatus → SyncDirection → Bool
can_apply synced _ = true
can_apply newer_in_couch to_repo = true
can_apply newer_in_git to_couch = true
can_apply _ _ = false

mutual
  -- A JSON value; a number is its literal.
  pub data Json : Type 0 where
    null : Json
    bool : Bool → Json
    number : Text → Json
    string : Text → Json
    array : Items → Json
    object : Fields → Json

  pub data Items : Type 0 where
    no_items : Items
    item : Json → Items → Items

  pub data Fields : Type 0 where
    no_fields : Fields
    field : Text → Json → Fields → Fields

unfoldable pub is_metadata : Text → Bool
is_metadata k = k === codes "_id" || k === codes "_rev" || k === codes "_revisions"

-- One step of the stable sort by key: a new first entry moves behind the smaller ones.
abbrev pub insert_field : Text → Json → Fields → Fields
insert_field k v no_fields = field k v no_fields
insert_field k v (field l w fs) =
    let rest = insert_field k v fs in
    if text_ltb l k then field l w rest else field k v (field l w fs)

unfoldable mutual
  pub sort_keys : Json → Json
  sort_keys (array items) = array (sort_items items)
  sort_keys (object fields) = object (sort_fields fields)
  sort_keys v = v

  pub sort_items : Items → Items
  sort_items no_items = no_items
  sort_items (item v vs) = item (sort_keys v) (sort_items vs)

  -- Values are sorted on the way, the order looks at the keys only.
  pub sort_fields : Fields → Fields
  sort_fields no_fields = no_fields
  sort_fields (field k v fs) =
      let rest = sort_fields fs in if is_metadata k then rest else insert_field k (sort_keys v) rest

abbrev pub as_record : Json → Json
as_record (object fields) = object fields
as_record (array items) = array items
as_record _ = object no_fields

module _ (stringify : Json → Text) where
  unfoldable pub serialize_ddoc : Json → Text
  serialize_ddoc doc = stringify (sort_keys doc) ++ 10 ∷ []

  unfoldable pub same_content : Json → Json → Bool
  same_content a b = serialize_ddoc (as_record a) === serialize_ddoc (as_record b)

abbrev drop_leading : ℕ → Text → Text
drop_leading sep [] = []
drop_leading sep (c ∷ s) = let rest = drop_leading sep s in if c === sep then rest else c ∷ s

-- `replace(/^\/+|\/+$/g, '')`
abbrev pub clean_root : Text → Text
clean_root root = reverse (drop_leading b'/' (reverse (drop_leading b'/' root)))

-- `join('/')`
abbrev pub join : List Text → Text
join [] = []
join (s ∷ []) = s
join (s ∷ t ∷ ts) = s ++ b'/' ∷ join (t ∷ ts)

unfoldable pub design_doc_repo_path : Text → Text → Text → Text
design_doc_repo_path root db ddoc_id =
    let name = option_or (strip_prefix? (codes "_design/") ddoc_id) ddoc_id in
    join (
      filter (λ s. not (is_nil s))
        (clean_root root ∷ db ∷ codes "_design" ∷ (name ++ codes ".json") ∷ []))

-- What stands in front of `.json` at the end of a text, where that is not empty.
abbrev pub strip_json : Text → Option Text
strip_json [] = none
strip_json (c ∷ s) =
    let rest = strip_json s in
    if s === codes ".json" then some (c ∷ []) else elim rest [ none ↦ none | some t ↦ some (c ∷ t) ]

abbrev pub id_of_file : Option Text → Option Text
id_of_file none = none
id_of_file (some name) = some (codes "_design/" ++ name)

-- The regular expression asks for the last two segments of a path.
abbrev pub id_of_segments : List Text → Option Text
id_of_segments [] = none
id_of_segments (a ∷ []) = none
id_of_segments (a ∷ b ∷ []) = if a === codes "_design" then id_of_file (strip_json b) else none
id_of_segments (a ∷ b ∷ c ∷ segments) = id_of_segments (b ∷ c ∷ segments)

-- `/(?:^|\/)_design\/([^/]+)\.json$/`
unfoldable pub ddoc_id_from_path : Text → Option Text
ddoc_id_from_path path = id_of_segments (split_at b'/' path)

-- `getRepoDocs` of design-mgmt-service.ts keeps these entries of a repository's tree.
unfoldable pub is_of_database : Text → Text → Text → Bool
is_of_database root db path = elim (ddoc_id_from_path path) [
  | none ↦ false
  | some ddoc_id ↦ path === design_doc_repo_path root db ddoc_id
]
