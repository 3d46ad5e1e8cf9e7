-- ===== src/TopologyGraph.antt =====
-- src/services/topology-model.ts: `buildTopologyGraph`, the graph that is drawn: a node for each
-- server and each database that a replication names, an edge for each pair of databases.
--
-- `encodeURIComponent` is a parameter. The key of a replication edge, the JSON text of the two node
-- ids in order, stands here as that pair of ids. The objects in the two maps that the loop changes in
-- place are set again under their keys.
pub mod Ids
pub mod Edges
pub mod Counts
mod Attaching
pub mod Drawn
mod Tests
use couch_companion_ui.Prelude.{
  ℕ, ◌+◌, Bool, true, false, not, ◌&&◌, ◌||◌, Option, none, some, List, [], ◌∷◌, ◌++◌, map, Text,
  codes, if◌then◌else◌, ◌===◌, is_nil, text_eq, Dict, get, has, set, values, text_ltb, Comparable,
  ◌≡◌, ◌↔◌, text_beq, text_beq_iff, arith,
}
use couch_companion_ui.SingleServer.{Kind, Server}
use couch_companion_ui.Topology.{TopologyData, ReplicationConnection}

pub record ServerNode : Type 0 where
  pub id : Text
  pub label : Text
  pub server_id : Text
  pub server_kind : Kind
  pub reachable : Bool

pub record Database : Type 0 where
  pub id : Text
  pub label : Text
  pub server_id : Text
  pub server_kind : Kind
  pub outgoing : Bool
  pub incoming : Bool

pub data DatabaseDirection : Type 0 where
  to_outside to_inside both_ways : DatabaseDirection

pub data Continuity : Type 0 where
  continuous one_time mixed : Continuity

pub record DatabaseNode : Type 0 where
  pub id : Text
  pub label : Text
  pub server_id : Text
  pub server_kind : Kind
  pub direction : DatabaseDirection

pub record Hosts : Type 0 where
  pub source : Text
  pub target : Text

pub record Replication : Type 0 where
  pub source : Text
  pub target : Text
  pub bidirectional : Bool
  pub count : ℕ
  pub continuity : Continuity
  pub replicator_doc_ids : List Text

pub data Node : Type 0 where
  server_node : ServerNode → Node
  database_node : DatabaseNode → Node

pub data Edge : Type 0 where
  hosts_edge : Hosts → Edge
  replication_edge : Replication → Edge

pub record TopologyGraph : Type 0 where
  pub nodes : List Node
  pub edges : List Edge

pub data Side : Type 0 where
  source_side target_side : Side

-- The pair of ids that keys an edge.
abbrev pub Pair : Type 0
Pair = Text × Text

abbrev pub pair_beq : Pair → Pair → Bool
pair_beq (a, b) (c, d) = text_beq a c && text_beq b d

pub pair_beq_iff : (x y : Pair) → (pair_beq x y ≡ true) ↔ (x ≡ y)
pair_beq_iff (a, b) (c, d) = ground (arith, text_beq_iff a c, text_beq_iff b d)

instance abbrev pub pair_eq : Comparable Pair
pair_eq = record { same = pair_beq; same_iff = pair_beq_iff }

-- The local variables of `buildTopologyGraph`.
pub record Building : Type 0 where
  pub server_nodes : Dict Text ServerNode
  pub databases : Dict Text Database
  pub hosts : List Hosts
  pub replications : Dict Pair Replication

pub server_node_id : Text → Text
server_node_id server_id = codes "server:" ++ server_id

-- `[source, target].sort()`
pub sorted_pair : Text → Text → Pair
sorted_pair a b = if text_ltb b a then (b, a) else (a, b)

abbrev pub mark : Side → Database → Database
mark source_side database = record database { outgoing = true }
mark target_side database = record database { incoming = true }

abbrev pub continuity_of : ReplicationConnection → Continuity
continuity_of connection = if connection.continuous then continuous else one_time

abbrev pub same_continuity : Continuity → Continuity → Bool
same_continuity continuous continuous = true
same_continuity one_time one_time = true
same_continuity mixed mixed = true
same_continuity _ _ = false

abbrev pub direction_of : Database → DatabaseDirection
direction_of d =
    if d.outgoing && d.incoming then both_ways else if d.outgoing then to_outside else to_inside

pub add_server : Dict Text ServerNode → Server → Dict Text ServerNode
add_server nodes server =
    set (server_node_id server.id)
      (record {
        id = server_node_id server.id;
        label = server.name;
        server_id = server.id;
        server_kind = server.kind;
        reachable = server.reachable;
      })
      nodes

pub add_servers : Dict Text ServerNode → List Server → Dict Text ServerNode
add_servers nodes [] = nodes
add_servers nodes (server ∷ servers) = add_servers (add_server nodes server) servers

abbrev pub new_edge : Text → Text → ReplicationConnection → Replication
new_edge source target connection = record {
  source = source;
  target = target;
  bidirectional = false;
  count = 1;
  continuity = continuity_of connection;
  replicator_doc_ids = connection.replicator_doc_id ∷ [];
}

-- One more document behind an edge.
abbrev pub merge_edge : Text → ReplicationConnection → Replication → Replication
merge_edge source connection existing = record existing {
  count = existing.count + 1;
  replicator_doc_ids = existing.replicator_doc_ids ++ connection.replicator_doc_id ∷ [];
  bidirectional = if not (existing.source === source) then true else existing.bidirectional;
  continuity =
      if not (same_continuity existing.continuity (continuity_of connection))
      then mixed
      else existing.continuity;
}

pub join : Text → Text → ReplicationConnection → Building → Building
join source target connection g =
    let key = sorted_pair source target in
    record g {
      replications = elim (get key g.replications) [
        | none ↦ set key (new_edge source target connection) g.replications
        | some existing ↦ set key (merge_edge source connection existing) g.replications
      ];
    }

-- Both ends, or nothing where one has no node.
pub join_both : Option Text → Option Text → ReplicationConnection → Building → Building
join_both none t connection g = g
join_both (some s) none connection g = g
join_both (some s) (some t) connection g = join s t connection g

abbrev pub node_of : Database → Node
node_of d = database_node (record {
  id = d.id;
  label = d.label;
  server_id = d.server_id;
  server_kind = d.server_kind;
  direction = direction_of d;
})

abbrev pub start : List Server → Building
start servers = record {
  server_nodes = add_servers [] servers;
  databases = [];
  hosts = [];
  replications = [];
}

module _ (encode_component : Text → Text) where
  pub database_node_id : Text → Text → Text
  database_node_id server_id db = codes "db:" ++ (server_id ++ (b':' ∷ encode_component db))

  abbrev pub new_database : ServerNode → Text → Text → Database
  new_database server server_id db = record {
    id = database_node_id server_id db;
    label = db;
    server_id = server_id;
    server_kind = server.server_kind;
    outgoing = false;
    incoming = false;
  }

  -- The part of `attach` behind the check of the server.
  pub attach_to : ServerNode → Text → Text → Side → Building → Option Text × Building
  attach_to server server_id db side g =
      let id = database_node_id server_id db in
      if is_nil db then (some server.id, g) else elim (get id g.databases) [
        | none ↦ (
          some id,
          record g {
            databases = set id (mark side (new_database server server_id db)) g.databases;
            hosts = g.hosts ++ (record { source = server.id; target = id }) ∷ [];
          },
        )
        | some database ↦
            (some id, record g { databases = set id (mark side database) g.databases })
      ]

  pub attach : Text → Text → Side → Building → Option Text × Building
  attach server_id db side g = elim (get (server_node_id server_id) g.server_nodes) [
    | none ↦ (none, g)
    | some server ↦ attach_to server server_id db side g
  ]

  pub connect : ReplicationConnection → Building → Building
  connect connection g =
      let s = attach connection.source_server_id connection.source_db source_side g in
      let t = attach connection.target_server_id connection.target_db target_side s.1 in
      join_both s.0 t.0 connection t.1

  pub connect_all : List ReplicationConnection → Building → Building
  connect_all [] g = g
  connect_all (c ∷ cs) g = connect_all cs (connect c g)

  pub build_topology_graph : TopologyData → TopologyGraph
  build_topology_graph t =
      let g = connect_all t.connections (start t.servers) in
      record {
        nodes = map server_node (values g.server_nodes) ++ map node_of (values g.databases);
        edges = map hosts_edge g.hosts ++ map replication_edge (values g.replications);
      }
