-- ===== src/Idp.antt =====
-- src/services/oidc-ini.ts: the `[oidc]` section of the configuration.
--
-- `JSON.parse`, `JSON.stringify` and `new URL` are parameters. A section is an object, the list of its
-- entries without repeated keys; that JavaScript lists integer-like keys first is left out.
pub mod Connect
pub mod Releasing
pub mod Grouping
pub mod Orphans
pub mod Stored
mod Tests
use couch_companion_ui.Prelude.{
  ◌≡◌, ℕ, Bool, true, false, not, ◌&&◌, ◌||◌, Option, none, some, List, [], ◌∷◌, ◌++◌, map, Text,
  codes, if◌then◌else◌, ◌===◌, nat_eq, text_eq, is_nil, contains, add, lower, trim, strip_prefix?,
  option_or, Dict, get, set, keys, values, flat_map,
}
use couch_companion_ui.SingleServer.{Platform}
use couch_companion_ui.DesignSync.{
  Json, Items, Fields, null, bool, number, string, array, object, no_items, item, no_fields, field,
}
use couch_companion_ui.Idp.Connect.{idp_connect_origins}

abbrev pub oidc_section : Text
oidc_section = codes "oidc"

abbrev pub jwt_keys_section : Text
jwt_keys_section = codes "jwt_keys"

abbrev pub key_prefix : Text
key_prefix = codes "rsa:"

abbrev pub oidc_key : Text → Text
oidc_key kid = key_prefix ++ kid

abbrev pub kid_from_key : Text → Option Text
kid_from_key key = elim (strip_prefix? key_prefix key) [
  | none ↦ none
  | some kid ↦ if is_nil kid then none else some kid
]

pub record OidcEntry : Type 0 where
  pub name : Text
  pub issuer : Text
  pub client_id : Option Text
  pub well_known_url : Text
  pub roles_claim : Text
  pub idp_only : Bool
  pub alg : Text
  pub csp_origins : List Text
  pub last_refreshed : Option Text
  pub created_at : Text

abbrev pub get_field : Text → Fields → Json
get_field name no_fields = null
get_field name (field key value fields) =
    let rest = get_field name fields in if key === name then value else rest

-- A value that is not a string, or an empty one, is absent.
abbrev pub str : Json → Option Text
str (string []) = none
str (string (c ∷ s)) = some (c ∷ s)
str _ = none

abbrev pub str_items : Items → List Text
str_items no_items = []
str_items (item value items) = elim (str value) [
  | none ↦ str_items items
  | some s ↦ s ∷ str_items items
]

abbrev pub str_array : Json → List Text
str_array (array items) = str_items items
str_array _ = []

-- `=== true`
abbrev pub is_true : Json → Bool
is_true (bool b) = b
is_true _ = false

abbrev pub csp_origins_of : Platform → Fields → List Text
csp_origins_of p e =
    let stored = str_array (get_field (codes "csp_origins") e) in
    if is_nil stored
    then idp_connect_origins p (str (get_field (codes "well_known_url") e))
        (str (get_field (codes "jwks_uri") e)) (str (get_field (codes "token_endpoint") e))
    else stored

-- An array has no issuer.
abbrev pub fields_of : Json → Fields
fields_of (object fields) = fields
fields_of _ = no_fields

unfoldable pub entry_of : Platform → Fields → Option OidcEntry
entry_of p e = elim (str (get_field (codes "issuer") e)) [
  | none ↦ none
  | some issuer ↦ some (record {
    name = option_or (str (get_field (codes "name") e)) issuer;
    issuer = issuer;
    client_id = str (get_field (codes "client_id") e);
    well_known_url = option_or (str (get_field (codes "well_known_url") e)) [];
    roles_claim = option_or (str (get_field (codes "roles_claim") e)) (codes "roles");
    idp_only = is_true (get_field (codes "idp_only") e);
    alg = option_or (str (get_field (codes "alg") e)) (codes "RS256");
    csp_origins = csp_origins_of p e;
    last_refreshed = str (get_field (codes "last_refreshed") e);
    created_at = option_or (str (get_field (codes "created_at") e)) [];
  })
]

pub record OidcKeyEntry : Type 0 where
  pub kid : Text
  pub entry : OidcEntry

pub record OidcProvider : Type 0 where
  pub issuer : Text
  pub keys_of : List OidcKeyEntry
  pub first_entry : OidcEntry

abbrev pub NodeConfig : Type 0
NodeConfig = Dict Text (Dict Text Text)

abbrev pub or_null : Option Text → Json
or_null none = null
or_null (some s) = string s

abbrev pub items_of : List Text → Items
items_of [] = no_items
items_of (s ∷ texts) = item (string s) (items_of texts)

abbrev pub entry_fields : OidcEntry → Fields
entry_fields e = field (codes "name") (string e.name) (
    field (codes "issuer") (string e.issuer) (
      field (codes "client_id") (or_null e.client_id) (
        field (codes "well_known_url") (string e.well_known_url) (
          field (codes "roles_claim") (string e.roles_claim) (
            field (codes "idp_only") (bool e.idp_only) (
              field (codes "alg") (string e.alg) (
                field (codes "csp_origins") (array (items_of e.csp_origins)) (
                  field (codes "last_refreshed") (or_null e.last_refreshed)
                    (field (codes "created_at") (string e.created_at) no_fields)))))))))

-- `replace(/\n/g, '\\n')`
abbrev pub escape_breaks : Text → Text
escape_breaks [] = []
escape_breaks (c ∷ s) =
    let rest = escape_breaks s in if c === 10 then codes "\\n" ++ rest else c ∷ rest

unfoldable pub serialize_entry : (Json → Text) → OidcEntry → Text
serialize_entry stringify entry = escape_breaks (stringify (object (entry_fields entry)))

-- One entry of the section; `none` where the loop goes on.
abbrev pub pair_of : Option Text → Option OidcEntry → Option OidcKeyEntry
pair_of (some kid) (some entry) = some (record { kid = kid; entry = entry })
pair_of _ _ = none

abbrev pub push_found : Option OidcKeyEntry → List OidcKeyEntry → List OidcKeyEntry
push_found none found = found
push_found (some pair) found = pair ∷ found

module _ (p : Platform) (parse_json : Text → Option Json) where
  unfoldable pub parse_entry : Text → Option OidcEntry
  parse_entry raw = elim (parse_json raw) [ none ↦ none | some doc ↦ entry_of p (fields_of doc) ]

  unfoldable pub parse_section : Dict Text Text → List OidcKeyEntry
  parse_section [] = []
  parse_section ((key, raw) ∷ section) =
      push_found (pair_of (kid_from_key key) (parse_entry raw)) (parse_section section)

-- A provider that is there gets one more key, and keeps its entry.
abbrev pub grown : OidcKeyEntry → Option OidcProvider → OidcProvider
grown found none = record {
  issuer = found.entry.issuer;
  keys_of = found ∷ [];
  first_entry = found.entry;
}
grown found (some existing) = record existing { keys_of = existing.keys_of ++ found ∷ [] }

-- A round of the loop.
abbrev pub group_key : OidcKeyEntry → Dict Text OidcProvider → Dict Text OidcProvider
group_key found by_issuer =
    set found.entry.issuer (grown found (get found.entry.issuer by_issuer)) by_issuer

abbrev pub group_keys : List OidcKeyEntry → Dict Text OidcProvider → Dict Text OidcProvider
group_keys [] by_issuer = by_issuer
group_keys (found ∷ entries) by_issuer = group_keys entries (group_key found by_issuer)

unfoldable pub group_by_issuer : List OidcKeyEntry → List OidcProvider
group_by_issuer entries = values (group_keys entries [])

abbrev pub providers_from : Platform → (Text → Option Json) → NodeConfig → List OidcProvider
providers_from p parse_json config =
    group_by_issuer (parse_section p parse_json (option_or (get oidc_section config) []))

-- `items` by their issuers; the set is what was seen.
unfoldable pub dedupe_by_issuer {ℓ} : {A : Type ℓ} → (A → Text) → List Text → List A → List A
dedupe_by_issuer issuer seen [] = []
dedupe_by_issuer issuer seen (a ∷ items) =
    if contains (issuer a) seen
    then dedupe_by_issuer issuer seen items
    else a ∷ dedupe_by_issuer issuer (add (issuer a) seen) items

unfoldable pub log_enabled : Option Text → Bool
log_enabled none = false
log_enabled (some raw) =
    contains (map lower (trim raw)) (codes "true" ∷ codes "1" ∷ codes "yes" ∷ codes "on" ∷ [])

abbrev pub kids : List OidcKeyEntry → List Text
kids entries = map (λ found. found.kid) entries

abbrev pub orphan_kid : List Text → Text → List Text
orphan_kid claimed key = elim (kid_from_key key) [
  | none ↦ []
  | some kid ↦ if contains kid claimed then [] else kid ∷ []
]

unfoldable pub orphan_key_kids : Platform → (Text → Option Json) → NodeConfig → List Text
orphan_key_kids p parse_json config =
    let claimed = kids (parse_section p parse_json (option_or (get oidc_section config) [])) in
    flat_map (orphan_kid claimed) (keys (option_or (get jwt_keys_section config) []))
