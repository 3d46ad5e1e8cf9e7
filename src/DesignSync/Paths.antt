-- ===== src/DesignSync/Paths.antt =====
-- src/services/git/design-sync.ts: the path of a design document in a repository leads back to it, and
-- the files of one database are told from those of another.
use mathlib.Core.List.{append_cancel_left, append_cancel_right}
use couch_companion_ui.Prelude.{
  ◌≡◌, refl, sym, ◌∙◌, ap, ℕ, true, false, not, none, some, List, [], ◌∷◌, ◌++◌, Text, codes, ◌===◌,
  nat_eq, text_eq, text_beq_iff, ===_refl, ===_ne, ne_of_===, is_nil, all, length, length-append,
  filter, option_or, append_assoc, split_at, push_head, strip_prefix?-append, Bool-cases, if_rule,
  inl, inr, arith,
}
use couch_companion_ui.DesignSync.{
  join, clean_root, design_doc_repo_path, strip_json, id_of_file, id_of_segments, ddoc_id_from_path,
  is_of_database,
}

abbrev pub IsName : Text → Type 0
IsName s = (is_nil s ≡ false) × (all (λ c. not (c === b'/')) s ≡ true)

abbrev file_of : Text → Text
file_of name = name ++ codes ".json"

abbrev tail_of : Text → Text
tail_of name = codes "_design/" ++ file_of name

split_at-plain :
    (s t : Text)
    → all (λ c. not (c === b'/')) s ≡ true
    → split_at b'/' t ≡ t ∷ []
    → split_at b'/' (s ++ t) ≡ (s ++ t) ∷ []
split_at-plain [] t h k = k
split_at-plain (c ∷ s) t h k = ground (arith, split_at-plain s t)

strip_json-file : (c : ℕ) (s : Text) → strip_json (c ∷ file_of s) ≡ some (c ∷ s)
strip_json-file c [] = refl
strip_json-file c (d ∷ s) = rw (longer, strip_json-file d s) refl
  where
    longer : (d ∷ file_of s === codes ".json") ≡ false
    longer = elim (Bool-cases (d ∷ file_of s === codes ".json")) [
      | inr other ↦ other
      | inl same ↦
          let e = (text_beq_iff (d ∷ file_of s) (codes ".json")).0 same in
          absurd (omega (arith, ap length e, length-append s (codes ".json")))
    ]

-- The segments of a path that ends in a design document's file.
abbrev IsTail : Text → List Text → Type 0
IsTail name ss =
    (a b c : Text) × (rest : List Text) × (ss ≡ a ∷ b ∷ c ∷ rest)
    × (id_of_segments (b ∷ c ∷ rest) ≡ some (codes "_design/" ++ name))

segments-slash : (name : Text) → IsName name → IsTail name (split_at b'/' (b'/' ∷ tail_of name))
segments-slash [] (h, k) = absurd (cc h)
segments-slash (c ∷ name) (h, k) = (
  [],
  codes "_design",
  file_of (c ∷ name),
  [],
  rw (split_at-plain (c ∷ name) (codes ".json") k refl) refl,
  ap id_of_file (strip_json-file c name),
)

segments-behind :
    (p name : Text) → IsName name → IsTail name (split_at b'/' (p ++ b'/' ∷ tail_of name))
segments-behind [] name h = segments-slash name h
segments-behind (d ∷ p) name h = go (segments-behind p name h)
  where
    go :
        IsTail name (split_at b'/' (p ++ b'/' ∷ tail_of name))
        → IsTail name (split_at b'/' (d ∷ p ++ b'/' ∷ tail_of name))
    go (a, b, c, rest, e, found) =
        if_rule (λ (ss : List Text). IsTail name ss) (d === b'/')
          (λ _. ([], a, b, c ∷ rest, ap (λ ss. [] ∷ ss) e, found))
          (λ _. (d ∷ a, b, c, rest, ap (push_head d) e, found))

ddoc_id_from_path-behind :
    (p name : Text)
    → IsName name
    → ddoc_id_from_path (p ++ b'/' ∷ tail_of name) ≡ some (codes "_design/" ++ name)
unfolding ddoc_id_from_path
ddoc_id_from_path-behind p name h = go (segments-behind p name h)
  where
    go :
        IsTail name (split_at b'/' (p ++ b'/' ∷ tail_of name))
        → id_of_segments (split_at b'/' (p ++ b'/' ∷ tail_of name))
          ≡ some (codes "_design/" ++ name)
    go (a, b, c, rest, e, found) = ap id_of_segments e ∙ found

abbrev front_of : Text → Text → Text
front_of [] db = db
front_of (c ∷ r) db = c ∷ r ++ b'/' ∷ db

repo_path-front :
    (root db name : Text)
    → is_nil db ≡ false
    → IsName name
    → design_doc_repo_path root db (codes "_design/" ++ name)
      ≡ front_of (clean_root root) db ++ b'/' ∷ tail_of name
unfolding design_doc_repo_path
repo_path-front root db name h (k, _) =
    ap
      (λ o. join (
        filter (λ s. not (is_nil s))
          (clean_root root
            ∷ db
            ∷ codes "_design"
            ∷ (option_or o (codes "_design/" ++ name) ++ codes ".json")
            ∷ [])))
      (strip_prefix?-append (codes "_design/") name)
    ∙ go (clean_root root) db name h k
  where
    go :
        (r db name : Text)
        → is_nil db ≡ false
        → is_nil name ≡ false
        → join (filter (λ s. not (is_nil s)) (r ∷ db ∷ codes "_design" ∷ file_of name ∷ []))
          ≡ front_of r db ++ b'/' ∷ tail_of name
    go r [] name h k = absurd (cc h)
    go r (d ∷ db) [] h k = absurd (cc k)
    go [] (d ∷ db) (c ∷ name) h k = refl
    go (x ∷ r) (d ∷ db) (c ∷ name) h k =
        sym (append_assoc (x ∷ r) (b'/' ∷ d ∷ db) (b'/' ∷ tail_of (c ∷ name)))

-- The path of a design document in a repository leads back to the document. Its name is not empty and
-- holds no slash, and the database has a name.
pub ddoc_id_from_path-repo_path :
    (root db name : Text)
    → is_nil db ≡ false
    → IsName name
    → ddoc_id_from_path (design_doc_repo_path root db (codes "_design/" ++ name))
      ≡ some (codes "_design/" ++ name)
ddoc_id_from_path-repo_path root db name h k =
    ap ddoc_id_from_path (repo_path-front root db name h k)
    ∙ ddoc_id_from_path-behind (front_of (clean_root root) db) name k

front_of-injective : (r a b : Text) → front_of r a ≡ front_of r b → a ≡ b
front_of-injective [] a b e = e
front_of-injective (c ∷ r) a b e =
    append_cancel_left (c ∷ r ++ b'/' ∷ []) a b
      (append_assoc (c ∷ r) (b'/' ∷ []) a ∙ e ∙ sym (append_assoc (c ∷ r) (b'/' ∷ []) b))

-- Of the files that syncs write for targets with one and the same path, the list of a database's
-- documents holds its own and none of another database. The databases have names, and the document's
-- is not empty and holds no slash.
pub is_of_database-repo_path :
    (root db other name : Text)
    → is_nil db ≡ false
    → is_nil other ≡ false
    → IsName name
    → is_of_database root db (design_doc_repo_path root other (codes "_design/" ++ name))
      ≡ (db === other)
unfolding is_of_database
is_of_database-repo_path root db other name h k n =
    let id = codes "_design/" ++ name in
    let path = design_doc_repo_path root other id in
    ap (λ o. elim o [ none ↦ false | some i ↦ path === design_doc_repo_path root db i ])
      (ddoc_id_from_path-repo_path root other name k n)
    ∙ elim (Bool-cases (db === other)) [
      | inl same ↦
          ap (λ d. path === design_doc_repo_path root d id) ((text_beq_iff db other).0 same)
          ∙ ===_refl path
          ∙ sym same
      | inr apart ↦ ===_ne (λ e. ne_of_=== apart (sym (same_database e))) ∙ sym apart
    ]
  where
    same_database :
        design_doc_repo_path root other (codes "_design/" ++ name)
          ≡ design_doc_repo_path root db (codes "_design/" ++ name)
        → other ≡ db
    same_database e = front_of-injective (clean_root root) other db (
        append_cancel_right (front_of (clean_root root) other) (front_of (clean_root root) db)
          (b'/' ∷ tail_of name)
          (sym (repo_path-front root other name k n) ∙ e ∙ repo_path-front root db name h n))
