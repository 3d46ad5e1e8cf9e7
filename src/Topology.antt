-- ===== src/Topology.antt =====
-- src/services/topology-model.ts: `buildTopology`, the servers and replications that the local
-- `_replicator` documents name.
--
-- The URL parser and `decodeURIComponent` are parameters (`Platform`). A call that throws out of the
-- loop is `throws`. The `servers` map is a `Dict` in insertion order, as a `Map` is.
pub mod Servers
pub mod Failures
mod Tests
use couch_companion_ui.Prelude.{
  ℕ, ◌+◌, Bool, true, false, not, ◌&&◌, ◌||◌, Option, none, some, List, [], ◌∷◌, ◌++◌, Text, codes,
  if◌then◌else◌, ◌===◌, is_nil, contains, within, text_eq, nat_eq, Dict, get, has, set, values,
  filter, get_last?, option_or, split_at, trim, all,
}
use couch_companion_ui.SingleServer.{Url, Platform, Kind, local, remote, Server, server_key}

-- A `source` or `target` field: absent, a text, or an object with or without a `url`.
pub data Endpoint : Type 0 where
  missing : Endpoint
  text : Text → Endpoint
  object : Option Text → Endpoint

pub record ReplicatorDoc : Type 0 where
  pub id : Option Text
  pub replicator_doc_id : Option Text
  pub source : Endpoint
  pub target : Endpoint
  pub continuous : Bool

pub record ReplicationConnection : Type 0 where
  pub source_server_id : Text
  pub target_server_id : Text
  pub source_db : Text
  pub target_db : Text
  pub continuous : Bool
  pub replicator_doc_id : Text

pub record TopologyData : Type 0 where
  pub servers : List Server
  pub connections : List ReplicationConnection

pub record ResolvedEndpoint : Type 0 where
  pub server_id : Text
  pub db : Text

pub data Throwing {ℓ} (A : Type ℓ) : Type ℓ where
  value : A → Throwing A
  throws : Throwing A

infixl 5 ◌>>=◌
abbrev pub ◌>>=◌ {ℓ κ} : {A : Type ℓ} {B : Type κ} → Throwing A → (A → Throwing B) → Throwing B
value a >>= f = f a
throws >>= f = throws

-- `/^_?[a-z][a-z0-9_$()+-]*$/`
abbrev is_name_unit : ℕ → Bool
is_name_unit c = within b'a' b'z' c || within b'0' b'9' c || contains c (codes "_$()+-")

abbrev starts_lower : Text → Bool
starts_lower [] = false
starts_lower (c ∷ s) = within b'a' b'z' c && all is_name_unit s

pub is_bare_db_name : Text → Bool
is_bare_db_name [] = false
is_bare_db_name (c ∷ s) = if c === b'_' then starts_lower s else starts_lower (c ∷ s)

pub endpoint_url : Endpoint → Text
endpoint_url missing = []
endpoint_url (text s) = trim s
endpoint_url (object none) = []
endpoint_url (object (some url)) = trim url

pub is_replication_doc : ReplicatorDoc → Bool
is_replication_doc doc =
    not (is_nil (endpoint_url doc.source)) && not (is_nil (endpoint_url doc.target))

-- The last path segment that is not empty, else the empty text.
pub last_segment : Text → Text
last_segment pathname =
    option_or (get_last? (filter (λ segment. not (is_nil segment)) (split_at b'/' pathname))) []

abbrev pub remote_id : Text → Text
remote_id key = codes "remote:" ++ key

abbrev pub remote_server : Text → Url → Server
remote_server key parsed = record {
  id = remote_id key;
  name = parsed.host;
  url = parsed.origin;
  username = [];
  reachable = false;
  last_checked = none;
  couch_version = none;
  created_at = [];
  updated_at = [];
  kind = remote;
}

abbrev pub at : Text → Text → ResolvedEndpoint
at server_id db = record { server_id = server_id; db = db }

abbrev pub connect : ReplicatorDoc → ResolvedEndpoint → ResolvedEndpoint → ReplicationConnection
connect doc source target = record {
  source_server_id = source.server_id;
  target_server_id = target.server_id;
  source_db = source.db;
  target_db = target.db;
  continuous = doc.continuous;
  replicator_doc_id = option_or doc.replicator_doc_id (option_or doc.id []);
}

-- The connection of one document, where both endpoints are resolved.
abbrev pub connection_of :
    ReplicatorDoc → Option ResolvedEndpoint → Option ResolvedEndpoint → List ReplicationConnection
connection_of doc none t = []
connection_of doc (some s) none = []
connection_of doc (some s) (some t) = connect doc s t ∷ []

abbrev pub as_local : Server → Server
as_local s = record s { kind = local }

module _ (p : Platform) where
  -- The part of `resolveEndpoint` behind `new URL` and the decoding.
  pub place :
      Server → Text → Url → Text → Dict Text Server → Option ResolvedEndpoint × Dict Text Server
  place local_server local_key parsed db servers =
      let key = server_key p parsed.href in
      if is_nil key
      then (none, servers)
      else if key === local_key
      then (some (at local_server.id db), servers)
      else (
        some (at (remote_id key) db),
        if has (remote_id key) servers
            then servers
            else set (remote_id key) (remote_server key parsed) servers,
      )

  pub resolve_endpoint :
      Endpoint
      → Server
      → Text
      → Dict Text Server
      → Throwing (Option ResolvedEndpoint × Dict Text Server)
  resolve_endpoint endpoint local_server local_key servers =
      let raw = endpoint_url endpoint in
      elim (p.parse_url raw) [
        | none ↦
            value (if is_bare_db_name raw then some (at local_server.id raw) else none, servers)
        | some parsed ↦ elim (p.decode_component (last_segment parsed.pathname)) [
          | none ↦ throws
          | some db ↦ value (place local_server local_key parsed db servers)
        ]
      ]

  -- One round of the loop: the connections that it adds, and the servers after it.
  pub read_doc :
      Server
      → Text
      → ReplicatorDoc
      → Dict Text Server
      → Throwing (List ReplicationConnection × Dict Text Server)
  read_doc local_server local_key doc servers =
      if not (is_replication_doc doc) then value ([], servers) else do
        source ← resolve_endpoint doc.source local_server local_key servers
        target ← resolve_endpoint doc.target local_server local_key source.1
        value (connection_of doc source.0 target.0, target.1)

  pub read_docs :
      Server
      → Text
      → List ReplicatorDoc
      → Dict Text Server
      → Throwing (List ReplicationConnection × Dict Text Server)
  read_docs local_server local_key [] servers = value ([], servers)
  read_docs local_server local_key (doc ∷ docs) servers = do
    first ← read_doc local_server local_key doc servers
    rest ← read_docs local_server local_key docs first.1
    value (first.0 ++ rest.0, rest.1)

  pub build_topology : List ReplicatorDoc → Server → Throwing TopologyData
  build_topology docs local_server = do
    read ←
        read_docs local_server (server_key p local_server.url) docs
          (set local_server.id (as_local local_server) [])
    value (record { servers = values read.1; connections = read.0 })
