-- ===== src/TopologyGraph/Tests.antt =====
-- A graph with one pair of databases in both directions, and the theorems of the graph at it.
use couch_companion_ui.Prelude.{
  ℕ, ◌+◌, Bool, true, false, none, List, [], ◌∷◌, map, Text, codes, contains, nat_eq, ◌≡◌, refl,
  arith,
}
use couch_companion_ui.SingleServer.{Server, local}
use couch_companion_ui.Topology.{TopologyData, ReplicationConnection}
use couch_companion_ui.TopologyGraph.{
  Replication, replication_edge, hosts_edge, Edge, server_node_id, database_node_id, sorted_pair,
  attach_to, attach, join, join_both, connect, connect_all, add_server, add_servers,
  build_topology_graph,
}
use couch_companion_ui.TopologyGraph.Drawn.{IsGraph, build_topology_graph-IsGraph}

-- An encoding for the tests: each code unit moves past the colon.
abbrev encode : Text → Text
encode = map (λ c. c + 59)

map_injective : (a b : Text) → encode a ≡ encode b → a ≡ b
map_injective [] [] e = refl
map_injective [] (d ∷ b) e = cc
map_injective (c ∷ a) [] e = cc
map_injective (c ∷ a) (d ∷ b) e =
    let rest : encode a ≡ encode b = cc in
    let head : c ≡ d = ground arith in cc (map_injective a b rest)

no_colon : (a : Text) → contains b':' (encode a) ≡ false
no_colon [] = refl
no_colon (c ∷ a) = ground (arith, no_colon a)

abbrev server : Text → Server
server id = record {
  id = id;
  name = id;
  url = [];
  username = [];
  reachable = true;
  last_checked = none;
  couch_version = none;
  created_at = [];
  updated_at = [];
  kind = local;
}

abbrev connection : Text → Text → Bool → ReplicationConnection
connection a b c = record {
  source_server_id = codes "x";
  target_server_id = codes "x";
  source_db = a;
  target_db = b;
  continuous = c;
  replicator_doc_id = a;
}

abbrev both_ways : TopologyData
both_ways = record {
  servers = server (codes "x") ∷ [];
  connections =
      connection (codes "a") (codes "b") true
      ∷ connection (codes "b") (codes "a") false
      ∷ connection (codes "b") (codes "b") true
      ∷ [];
}

-- The edges between databases, behind the two that say which server has them.
abbrev replication_edges : List Edge → List Replication
replication_edges [] = []
replication_edges (hosts_edge h ∷ es) = replication_edges es
replication_edges (replication_edge r ∷ es) = r ∷ replication_edges es

one_edge_each_pair :
    map {B = Bool × ℕ}
      (λ r. (r.bidirectional, r.count))
      (replication_edges (build_topology_graph encode both_ways).edges)
    ≡ (true, 2) ∷ (false, 1) ∷ []
unfolding build_topology_graph connect_all connect attach attach_to join join_both sorted_pair
    add_servers add_server server_node_id database_node_id
one_edge_each_pair = refl

build_topology_graph-IsGraph_example : IsGraph (build_topology_graph encode both_ways)
build_topology_graph-IsGraph_example = build_topology_graph-IsGraph encode both_ways
