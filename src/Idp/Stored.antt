-- ===== src/Idp/Stored.antt =====
-- src/services/oidc-ini.ts: an entry that is stored is read back.
use couch_companion_ui.Prelude.{
  ◌≡◌, refl, ap, ◌∙◌, false, Option, none, some, List, [], ◌∷◌, Text, nat_eq, is_nil, contains,
  option_or, All, arith,
}
use couch_companion_ui.SingleServer.{Platform}
use couch_companion_ui.DesignSync.{Json, string, object}
use couch_companion_ui.Idp.{
  OidcEntry, str, str_items, items_of, or_null, entry_fields, entry_of, fields_of, escape_breaks,
  serialize_entry, parse_entry,
}

abbrev IsFilled : Text → Type 0
IsFilled s = is_nil s ≡ false

abbrev IsFilledIn : Option Text → Type 0
IsFilledIn none = Unit
IsFilledIn (some s) = IsFilled s

-- The texts that an empty one does not stand for are not empty, and there is an origin.
abbrev pub IsStorable : OidcEntry → Type 0
IsStorable e =
    IsFilled e.name
    × IsFilled e.issuer
    × IsFilledIn e.client_id
    × IsFilled e.roles_claim
    × IsFilled e.alg
    × (is_nil e.csp_origins ≡ false)
    × All IsFilled e.csp_origins
    × IsFilledIn e.last_refreshed

str-filled : (s : Text) → IsFilled s → str (string s) ≡ some s
str-filled [] h = cc
str-filled (c ∷ s) h = refl

str-any : (s : Text) → option_or (str (string s)) [] ≡ s
str-any [] = refl
str-any (c ∷ s) = refl

str-or_null : (o : Option Text) → IsFilledIn o → str (or_null o) ≡ o
str-or_null none h = refl
str-or_null (some s) h = str-filled s h

str_items-items_of : (texts : List Text) → All IsFilled texts → str_items (items_of texts) ≡ texts
str_items-items_of [] h = refl
str_items-items_of ([] ∷ texts) (h, k) = cc
str_items-items_of ((c ∷ s) ∷ texts) (h, k) = ap (λ ts. (c ∷ s) ∷ ts) (str_items-items_of texts k)

escape_breaks-none : (s : Text) → contains 10 s ≡ false → escape_breaks s ≡ s
escape_breaks-none [] h = refl
escape_breaks-none (c ∷ s) h = ground (arith, escape_breaks-none s)

entry_of-fields :
    (p : Platform) (e : OidcEntry) → IsStorable e → entry_of p (entry_fields e) ≡ some e
unfolding entry_of
entry_of-fields p e (n, i, c, r, a, o, os, l) = rw (str-filled e.issuer i) (
    rw
      (
        str-filled e.name n,
        str-or_null e.client_id c,
        str-any e.well_known_url,
        str-filled e.roles_claim r,
        str-filled e.alg a,
        str_items-items_of e.csp_origins os,
        str-or_null e.last_refreshed l,
        str-any e.created_at,
      )
      (rw o refl))

-- An entry is parsed back as it was stored, if its name, issuer, roles claim and algorithm are not
-- empty, nor are its client id and refresh time where it has them, and it has at least one CSP origin
-- and no empty one. `JSON.parse` reads what `JSON.stringify` printed, which has no line breaks.
pub parse-serialize_entry :
    (p : Platform) (parse_json : Text → Option Json) (stringify : Json → Text) (e : OidcEntry)
    → IsStorable e
    → parse_json (stringify (object (entry_fields e))) ≡ some (object (entry_fields e))
    → contains 10 (stringify (object (entry_fields e))) ≡ false
    → parse_entry p parse_json (serialize_entry stringify e) ≡ some e
unfolding parse_entry serialize_entry
parse-serialize_entry p parse_json stringify e h read plain =
    ap (parse_entry p parse_json) (escape_breaks-none (stringify (object (entry_fields e))) plain)
    ∙ ap reading read
    ∙ entry_of-fields p e h
  where
    reading : Option Json → Option OidcEntry
    reading none = none
    reading (some doc) = entry_of p (fields_of doc)
