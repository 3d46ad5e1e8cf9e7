-- ===== src/Idp/Tests.antt =====
-- Tests of the identity providers: a provider with two signing keys, and a key left behind.
use couch_companion_ui.Prelude.{
  ◌≡◌, refl, true, false, ◌&&◌, ◌||◌, Option, none, some, List, [], ◌∷◌, map, filter, contains,
  Text, codes, if◌then◌else◌, ◌===◌, text_eq, IsDistinct, trim, is_space,
}
use couch_companion_ui.SingleServer.{Platform}
use couch_companion_ui.DesignSync.{Json, object}
use couch_companion_ui.Idp.{
  OidcEntry, OidcKeyEntry, NodeConfig, entry_fields, entry_of, parse_entry, parse_section,
  serialize_entry, group_by_issuer, dedupe_by_issuer, log_enabled, orphan_key_kids,
}
use couch_companion_ui.Idp.Connect.{
  IdpRef, unique_origins, required_idp_origins, releasable_idp_origins,
}
use couch_companion_ui.Idp.Releasing.{releasable_lem}
use couch_companion_ui.Idp.Grouping.{
  issued_by, issuer_of, provider_for, find_provider, group_by_issuer_lem,
}
use couch_companion_ui.Idp.Stored.{parse-serialize_entry}

-- A parser that takes every text for an origin.
abbrev as_origin : Platform
as_origin = record {
  parse_url = λ t. some (record {
    protocol = [];
    hostname = [];
    port = [];
    host = [];
    origin = t;
    pathname = [];
    href = t;
  });
  decode_component = λ t. some t;
}

abbrev corporate : OidcEntry
corporate = record {
  name = codes "Corporate";
  issuer = codes "https://login";
  client_id = none;
  well_known_url = [];
  roles_claim = codes "roles";
  idp_only = false;
  alg = codes "RS256";
  csp_origins = codes "https://login" ∷ codes "https://keys" ∷ [];
  last_refreshed = some (codes "2026");
  created_at = codes "2025";
}

-- A print of this one entry.
abbrev printed : Json → Text
printed j = codes "{corporate}"

abbrev read_back : Text → Option Json
read_back t = if t === codes "{corporate}" then some (object (entry_fields corporate)) else none

abbrev two_keys : List OidcKeyEntry
two_keys =
    record { kid = codes "a"; entry = corporate }
    ∷ record { kid = codes "b"; entry = record corporate { alg = codes "ES256" } }
    ∷ []

abbrev node_config : NodeConfig
node_config =
    (
      codes "oidc",
      (codes "log", codes "true")
          ∷ (codes "rsa:a", codes "{corporate}")
          ∷ (codes "rsa:c", codes "broken")
          ∷ [],
    )
    ∷ (
      codes "jwt_keys",
      (codes "rsa:a", codes "k")
          ∷ (codes "rsa:b:1", codes "k")
          ∷ (codes "hmac:x", codes "k")
          ∷ (codes "rsa:c", codes "k")
          ∷ [],
    )
    ∷ []

abbrev login : IdpRef
login = record {
  csp_origins = some (codes "https://login" ∷ codes "https://keys" ∷ []);
  well_known_url = none;
}

abbrev legacy : IdpRef
legacy = record { csp_origins = some []; well_known_url = some (codes " https://keys ") }

released : releasable_idp_origins as_origin login (legacy ∷ []) ≡ codes "https://login" ∷ []
unfolding releasable_idp_origins required_idp_origins unique_origins trim is_space
released = refl

releasable_lem_example :
    (contains (codes "https://keys") (required_idp_origins as_origin (login ∷ legacy ∷ [])) ≡ (
      contains (codes "https://keys") (releasable_idp_origins as_origin login (legacy ∷ []))
      || contains (codes "https://keys") (required_idp_origins as_origin (legacy ∷ []))))
    × ((contains (codes "https://keys") (releasable_idp_origins as_origin login (legacy ∷ []))
          && contains (codes "https://keys") (required_idp_origins as_origin (legacy ∷ [])))
        ≡ false)
    × IsDistinct (releasable_idp_origins as_origin login (legacy ∷ []))
releasable_lem_example = releasable_lem as_origin login (legacy ∷ []) (codes "https://keys")

group_by_issuer_lem_example :
    (find_provider (codes "https://login") (group_by_issuer two_keys)
      ≡ provider_for (codes "https://login") (filter (issued_by (codes "https://login")) two_keys))
    × (map (λ p. p.issuer) (group_by_issuer two_keys)
        ≡ map issuer_of (dedupe_by_issuer issuer_of [] two_keys))
    × IsDistinct (map (λ p. p.issuer) (group_by_issuer two_keys))
group_by_issuer_lem_example = group_by_issuer_lem two_keys (codes "https://login")

grouped : map (λ p. p.keys_of) (group_by_issuer two_keys) ≡ two_keys ∷ []
unfolding group_by_issuer
grouped = refl

orphans : orphan_key_kids as_origin read_back node_config ≡ codes "b:1" ∷ codes "c" ∷ []
unfolding orphan_key_kids parse_section parse_entry entry_of
orphans = refl

parse-serialize_entry_example :
    parse_entry as_origin read_back (serialize_entry printed corporate) ≡ some corporate
parse-serialize_entry_example =
    parse-serialize_entry as_origin read_back printed corporate
      (refl, refl, tt, refl, refl, refl, (refl, (refl, tt)), refl) refl refl

log_on : log_enabled (some (codes " Yes ")) ≡ true
unfolding log_enabled trim is_space
log_on = refl
