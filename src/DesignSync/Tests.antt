-- ===== src/DesignSync/Tests.antt =====
-- Tests of the sync verdicts and of the canonical form.
use couch_companion_ui.Prelude.{
  ◌≡◌, ◌↔◌, Text, Option, if◌then◌else◌, ◌===◌, ◌⊎◌, refl, true, false, none, some, [], ◌++◌, codes,
  text_eq,
}
use couch_companion_ui.DesignSync.{
  Json, object, string, Fields, no_fields, field, is_metadata, Versions, newer_in_git, to_repo,
  to_couch, can_apply, classify, sort_keys, serialize_ddoc, same_content, design_doc_repo_path,
  ddoc_id_from_path, is_of_database,
}
use couch_companion_ui.DesignSync.Paths.{is_of_database-repo_path}
use couch_companion_ui.DesignSync.Encoding.{write, write_injective}
use couch_companion_ui.DesignSync.Contents.{HoldSame, IsProper, observe-serialize}
use couch_companion_ui.DesignSync.SameForm.{same_content_iff}
use couch_companion_ui.DesignSync.Verdicts.{verdict, can_apply-keeps_edits}

-- The file moved, the document did not.
abbrev edited_file : Versions
edited_file = record {
  couch_rev = some (codes "1-a");
  git_sha = some (codes "bb");
  synced_rev = some (codes "1-a");
  synced_sha = some (codes "aa");
  content_equal = false;
}

-- Both are there, no sync is on record.
abbrev no_history : Versions
no_history = record {
  couch_rev = some (codes "1-a");
  git_sha = some (codes "bb");
  synced_rev = none;
  synced_sha = none;
  content_equal = false;
}

edited_file-verdict : verdict edited_file ≡ newer_in_git
unfolding classify
edited_file-verdict = refl

edited_file-can_apply :
    (can_apply (verdict edited_file) to_repo ≡ false)
    × (can_apply (verdict edited_file) to_couch ≡ true)
unfolding classify
edited_file-can_apply = (refl, refl)

can_apply-keeps_edits_example :
    (can_apply (verdict edited_file) to_repo ≡ true
      → (false ≡ true) ⊎ ((some (codes "bb") ≡ none) ⊎ (some (codes "bb") ≡ some (codes "aa"))))
    × (can_apply (verdict edited_file) to_couch ≡ true
        → (false ≡ true)
          ⊎ ((some (codes "1-a") ≡ none) ⊎ (some (codes "1-a") ≡ some (codes "1-a"))))
can_apply-keeps_edits_example = can_apply-keeps_edits edited_file

-- One document with its keys in two orders, and a revision in the first.
abbrev in_couch : Fields
in_couch = field (codes "_rev") (string (codes "1-a")) (
    field (codes "views") (string (codes "v"))
      (field (codes "language") (string (codes "js")) no_fields))

abbrev in_git : Fields
in_git =
    field (codes "language") (string (codes "js"))
      (field (codes "views") (string (codes "v")) no_fields)

same_content-in_couch-in_git : same_content write (object in_couch) (object in_git) ≡ true
unfolding same_content serialize_ddoc sort_keys is_metadata
same_content-in_couch-in_git = refl

same_content_iff_example :
    (same_content write (object in_couch) (object in_git) ≡ true)
    ↔ HoldSame (object in_couch) (object in_git)
unfolding IsProper
same_content_iff_example =
    same_content_iff write write_injective in_couch in_git
      (refl, (tt, (refl, (tt, (refl, (tt, tt)))))) (refl, (tt, (refl, (tt, tt))))

-- A parser that knows one text.
abbrev parse_one : Text → Option Json
parse_one s =
    if s === serialize_ddoc write (object in_couch)
    then some (sort_keys (object in_couch))
    else none

observe-serialize_example :
    (doc : Json) × ((parse_one (serialize_ddoc write (object in_couch)) ≡ some doc)
      × HoldSame doc (object in_couch))
unfolding serialize_ddoc sort_keys is_metadata
observe-serialize_example = observe-serialize write parse_one in_couch refl

-- A name with a slash is not recovered from its path.
slash_in_name :
    ddoc_id_from_path (design_doc_repo_path [] (codes "crm") (codes "_design/a/b")) ≡ none
unfolding ddoc_id_from_path design_doc_repo_path
slash_in_name = refl

is_of_database-repo_path_example :
    is_of_database
      (codes "couch/")
      (codes "crm")
      (design_doc_repo_path (codes "couch/") (codes "hr") (codes "_design/" ++ codes "salaries"))
    ≡ false
is_of_database-repo_path_example =
    is_of_database-repo_path (codes "couch/") (codes "crm") (codes "hr") (codes "salaries") refl
      refl (refl, refl)
