-- ===== src/TopologyGraph/Drawn.antt =====
-- The graph that `buildTopologyGraph` returns.
use couch_companion_ui.Prelude.{
  true, false, List, [], ◌∷◌, ◌++◌, map, Text, ◌===◌, contains, length, text_eq, nat_eq, Dict,
  values, ◌≡◌, ◌≢◌, refl, ap, ◌∙◌, arith, All, All-append, inl, inr, Bool-cases, text_beq_iff,
  IsDistinct, keys, contains-append, contains-keys, map-append, ap₂,
}
use couch_companion_ui.Topology.{TopologyData}
use couch_companion_ui.TopologyGraph.{
  ServerNode, Database, Replication, Hosts, Building, Pair, pair_eq, sorted_pair, Node, server_node,
  database_node, node_of, Edge, hosts_edge, replication_edge, TopologyGraph, connect_all, start,
  build_topology_graph,
}
use couch_companion_ui.TopologyGraph.Ids.{first_unit, sorted_pair_comm}
use couch_companion_ui.TopologyGraph.Edges.{
  is_node, IsHosted, IsEdgeEntry, IsServerEntry, IsDatabaseEntry, IsSound,
}
use couch_companion_ui.TopologyGraph.Attaching.{start-IsSound, connect_all-IsSound}

abbrev pub node_id : Node → Text
node_id (server_node n) = n.id
node_id (database_node n) = n.id

abbrev pub edge_source : Edge → Text
edge_source (hosts_edge h) = h.source
edge_source (replication_edge r) = r.source

abbrev pub edge_target : Edge → Text
edge_target (hosts_edge h) = h.target
edge_target (replication_edge r) = r.target

abbrev pub node_ids : TopologyGraph → List Text
node_ids g = map node_id g.nodes

-- The pairs of the replication edges.
abbrev pub pairs : List Edge → List Pair
pairs [] = []
pairs (hosts_edge h ∷ es) = pairs es
pairs (replication_edge r ∷ es) = sorted_pair r.source r.target ∷ pairs es

-- One document id for each document counted, and both directions only between different nodes.
abbrev pub IsConsistent : Edge → Type 0
IsConsistent (hosts_edge h) = Unit
IsConsistent (replication_edge r) =
    (length r.replicator_doc_ids ≡ r.count) × (r.bidirectional ≡ true → r.source ≢ r.target)

pub record IsGraph (g : TopologyGraph) : Type 0 where
  -- No two nodes share an id.
  pub nodes_distinct : IsDistinct (node_ids g)
  -- No edge hangs in the air.
  pub ends :
      All
        (λ e.
          (contains (edge_source e) (node_ids g) ≡ true)
          × (contains (edge_target e) (node_ids g) ≡ true))
        g.edges
  -- One replication edge at most for each pair of nodes.
  pub pairs_distinct : IsDistinct (pairs g.edges)
  -- A pair is the same in both directions.
  pub pairs_unordered : (a b : Text) → sorted_pair a b ≡ sorted_pair b a
  pub consistent : All IsConsistent g.edges

module _ (g : Building) (v : IsSound g) where
  abbrev all_ids : List Text
  all_ids = keys g.server_nodes ++ keys g.databases

  contains-all_ids : (x : Text) → contains x all_ids ≡ is_node g x
  contains-all_ids x = ground (
    arith,
    contains-append x (keys g.server_nodes) (keys g.databases),
    contains-keys x g.server_nodes,
    contains-keys x g.databases,
  )

server_ids :
    (d : Dict Text ServerNode)
    → All IsServerEntry d
    → map node_id (map server_node (values d)) ≡ keys d
server_ids [] h = refl
server_ids ((k, n) ∷ d) (e, h) = cc (e.0, server_ids d h)

database_ids :
    (d : Dict Text Database) → All IsDatabaseEntry d → map node_id (map node_of (values d)) ≡ keys d
database_ids [] h = refl
database_ids ((k, n) ∷ d) (e, h) = cc (e.0, database_ids d h)

no_server_among :
    (x : Text) (d : Dict Text Database)
    → first_unit x ≡ b's'
    → All IsDatabaseEntry d
    → contains x (keys d) ≡ false
no_server_among x [] f h = refl
no_server_among x ((k, n) ∷ d) f (e, h) = elim (Bool-cases (k === x)) [
  | inl same ↦
      let agree : first_unit k ≡ first_unit x = ap first_unit ((text_beq_iff k x).0 same) in
      absurd (omega (arith, agree, e.1))
  | inr other ↦ rw other (no_server_among x d f h)
]

keys-IsDistinct :
    (s : Dict Text ServerNode) (d : Dict Text Database)
    → All IsServerEntry s
    → All IsDatabaseEntry d
    → IsDistinct (keys s)
    → IsDistinct (keys d)
    → IsDistinct (keys s ++ keys d)
keys-IsDistinct [] d h k p q = q
keys-IsDistinct ((x, n) ∷ s) d (e, h) k (fresh, p) q = (
  ground (arith, contains-append x (keys s) (keys d), no_server_among x d e.1 k),
  keys-IsDistinct s d h k p q,
)

pairs-hosts : (hs : List Hosts) (es : List Edge) → pairs (map hosts_edge hs ++ es) ≡ pairs es
pairs-hosts [] es = refl
pairs-hosts (h ∷ hs) es = pairs-hosts hs es

pairs-replications :
    (g : Building) (d : Dict Pair Replication)
    → All (IsEdgeEntry g) d
    → pairs (map replication_edge (values d)) ≡ keys d
pairs-replications g [] h = refl
pairs-replications g ((k, r) ∷ d) (e, h) = cc (e.filed, pairs-replications g d h)

module _ (P : Edge → Type 0) (g : Building) where
  All-hosts :
      ((h : Hosts) → IsHosted g h → P (hosts_edge h))
      → (hs : List Hosts) → All (IsHosted g) hs
      → All P (map hosts_edge hs)
  All-hosts f [] h = tt
  All-hosts f (x ∷ hs) (k, h) = (f x k, All-hosts f hs h)

  All-replications :
      ((r : Pair × Replication) → IsEdgeEntry g r → P (replication_edge r.1))
      → (d : Dict Pair Replication) → All (IsEdgeEntry g) d
      → All P (map replication_edge (values d))
  All-replications f [] h = tt
  All-replications f (x ∷ d) (k, h) = (f x k, All-replications f d h)

abbrev graph_of : Building → TopologyGraph
graph_of g = record {
  nodes = map server_node (values g.server_nodes) ++ map node_of (values g.databases);
  edges = map hosts_edge g.hosts ++ map replication_edge (values g.replications);
}

module _ (g : Building) (v : IsSound g) where
  graph_ids : node_ids (graph_of g) ≡ all_ids g v
  graph_ids =
      map-append node_id (map server_node (values g.server_nodes))
        (map node_of (values g.databases))
      ∙ ap₂ (λ xs ys. xs ++ ys) (server_ids g.server_nodes v.server_entries)
          (database_ids g.databases v.database_entries)

  node-contained : (x : Text) → is_node g x ≡ true → contains x (node_ids (graph_of g)) ≡ true
  node-contained x h = ap (contains x) graph_ids ∙ contains-all_ids g v x ∙ h

  abbrev HasNodes : Edge → Type 0
  HasNodes e =
      (contains (edge_source e) (node_ids (graph_of g)) ≡ true)
      × (contains (edge_target e) (node_ids (graph_of g)) ≡ true)

  hosted-HasNodes : (h : Hosts) → IsHosted g h → HasNodes (hosts_edge h)
  hosted-HasNodes h (a, b) =
      (node-contained h.source (ground arith), node-contained h.target (ground arith))

  graph_of-IsGraph : IsGraph (graph_of g)
  graph_of-IsGraph = record {
    nodes_distinct = rw graph_ids (
        keys-IsDistinct g.server_nodes g.databases v.server_entries v.database_entries v.server_keys
          v.database_keys);
    ends =
        All-append HasNodes (map hosts_edge g.hosts) _
          (All-hosts HasNodes g hosted-HasNodes g.hosts v.hosted)
          (All-replications HasNodes g
            (λ r h.
              (node-contained r.1.source h.source_node, node-contained r.1.target h.target_node))
            g.replications v.edges);
    pairs_distinct =
        rw (pairs-hosts g.hosts (map replication_edge (values g.replications)))
          (rw (pairs-replications g g.replications v.edges) v.edge_keys);
    pairs_unordered = sorted_pair_comm;
    consistent =
        All-append IsConsistent (map hosts_edge g.hosts) _
          (All-hosts IsConsistent g (λ h k. tt) g.hosts v.hosted)
          (All-replications IsConsistent g (λ r h. (h.ids_counted, h.no_loop)) g.replications
            v.edges);
  }

-- Whatever servers and connections it is given, `buildTopologyGraph` returns a graph in which no two
-- nodes share an id, both ends of every edge are nodes, no two replication edges join the same two
-- nodes in either direction, and a replication edge has as many document ids as documents counted, and is bidirectional
-- only between two different nodes.
pub build_topology_graph-IsGraph :
    (encode : Text → Text) (t : TopologyData) → IsGraph (build_topology_graph encode t)
unfolding build_topology_graph
build_topology_graph-IsGraph encode t =
    graph_of-IsGraph (connect_all encode t.connections (start t.servers))
      (connect_all-IsSound encode t.connections (start t.servers) (start-IsSound t.servers))
