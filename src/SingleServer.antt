-- ===== src/SingleServer.antt =====
-- src/services/single-server.ts: the identity of a server, and the record of the one server.
--
-- The browser's URL parser is a parameter. The host names that it returns for `http` and `https` are
-- ASCII, so `toLowerCase` is written for ASCII.
pub mod Keys
use couch_companion_ui.Prelude.{
  Bool, true, false, not, ◌&&◌, Option, none, some, List, [], ◌∷◌, ◌++◌, map, Text, codes,
  if◌then◌else◌, ◌===◌, is_nil, contains, lower, text_eq, is_some,
}

-- The fields of a `URL` that the program reads.
pub record Url : Type 0 where
  pub protocol : Text
  pub hostname : Text
  pub port : Text
  pub host : Text
  pub origin : Text
  pub pathname : Text
  pub href : Text

-- The web platform: `new URL(text)`, `none` where it throws, and `decodeURIComponent` likewise.
pub record Platform : Type 0 where
  pub parse_url : Text → Option Url
  pub decode_component : Text → Option Text

pub data Kind : Type 0 where
  local remote : Kind

-- `location` and `configured_idps` are always null here, and are left out.
pub record Server : Type 0 where
  pub id : Text
  pub name : Text
  pub url : Text
  pub username : Text
  pub reachable : Bool
  pub last_checked : Option Text
  pub couch_version : Option Text
  pub created_at : Text
  pub updated_at : Text
  pub kind : Kind

abbrev pub single_server_id : Text
single_server_id = codes "local"

abbrev pub loopback_hostnames : List Text
loopback_hostnames =
    codes "localhost" ∷ codes "127.0.0.1" ∷ codes "0.0.0.0" ∷ codes "[::1]" ∷ codes "::1" ∷ []

-- What `serverKey` does with a parsed URL.
unfoldable pub key_of : Url → Text
key_of u =
    let hostname = map lower u.hostname in
    let host = if contains hostname loopback_hostnames then codes "localhost" else hostname in
    if not (u.protocol === codes "http:") && not (u.protocol === codes "https:")
    then []
    else if is_nil hostname
    then []
    else if is_nil u.port
    then host
    else host ++ b':' ∷ u.port

pub record Session : Type 0 where
  -- `userCtx?.name`, and the session's own `name`
  pub context_name : Option Text
  pub own_name : Option Text

module _ (p : Platform) where
  unfoldable pub server_key : Text → Text
  server_key url = elim (p.parse_url url) [ none ↦ [] | some u ↦ key_of u ]

  unfoldable pub label_for : Text → Text
  label_for base_url = if is_nil base_url then codes "CouchDB" else elim (p.parse_url base_url) [
    | none ↦ base_url
    | some u ↦ if is_nil u.host then codes "CouchDB" else u.host
  ]

  -- `session?.userCtx?.name ?? session?.name ?? ""`
  abbrev username_of : Option Session → Text
  username_of none = []
  username_of (some s) = elim s.context_name [
    | some name ↦ name
    | none ↦ elim s.own_name [ some name ↦ name | none ↦ [] ]
  ]

  -- `welcome` is given by its version.
  pub synthesize_server : Option Text → Option Session → Text → Text → Server
  synthesize_server welcome session base_url now = record {
    id = single_server_id;
    name = label_for base_url;
    url = base_url;
    username = username_of session;
    reachable = is_some welcome;
    last_checked = some now;
    couch_version = welcome;
    created_at = now;
    updated_at = now;
    kind = local;
  }
