-- ===== src/TopologyGraph/Counts.antt =====
-- Every replication is counted once, on one edge.
use couch_companion_ui.Prelude.{
  ℕ, ◌+◌, true, ◌||◌, Option, none, some, List, [], ◌∷◌, ◌++◌, map, Text, ◌===◌, contains, length,
  text_eq, nat_eq, Dict, get, has, set, values, ◌≡◌, refl, ap, ◌∙◌, arith, All, All-mono, inl, inr,
  Option-cases, get-set, is_some,
}
use couch_companion_ui.SingleServer.{Server, Platform}
use couch_companion_ui.Topology.{
  TopologyData, ReplicationConnection, ReplicatorDoc, value, build_topology,
}
use couch_companion_ui.Topology.Servers.{ids, build_topology-IsDrawn}
use couch_companion_ui.TopologyGraph.{
  ServerNode, Replication, Hosts, Edge, hosts_edge, replication_edge, Side, source_side,
  target_side, Building, Pair, pair_eq, server_node_id, sorted_pair, new_edge, merge_edge, join,
  join_both, attach_to, attach, connect, connect_all, add_server, add_servers, start,
  build_topology_graph,
}

-- The documents behind the replication edges of a list.
pub total : List Edge → ℕ
total [] = 0
total (hosts_edge h ∷ es) = total es
total (replication_edge r ∷ es) = r.count + total es

abbrev count_of : Option Replication → ℕ
count_of none = 0
count_of (some r) = r.count

abbrev counted : Dict Pair Replication → ℕ
counted d = total (map replication_edge (values d))

counted-set :
    (k : Pair) (r : Replication) (d : Dict Pair Replication)
    → counted (set k r d) + count_of (get k d) ≡ counted d + r.count
unfolding total
counted-set k r [] = omega arith
counted-set k r ((j, w) ∷ d) = ground (arith, counted-set k r d)

join-counted :
    (s t : Text) (c : ReplicationConnection) (g : Building)
    → counted (join s t c g).replications ≡ counted g.replications + 1
unfolding join
join-counted s t c g = elim (Option-cases (get (sorted_pair s t) g.replications)) [
  | inl new ↦
      rw (new, join)
        (omega (arith, rw new at (counted-set (sorted_pair s t) (new_edge s t c) g.replications)))
  | inr (r, old) ↦
      rw (old, join)
        (omega (arith, rw old at (counted-set (sorted_pair s t) (merge_edge s c r) g.replications)))
]

module _ (encode : Text → Text) where
  -- `attach` answers exactly where the server has a node, and leaves the server nodes and the
  -- replications alone.
  attach-has :
      (server_id db : Text) (side : Side) (g : Building)
      → is_some (attach encode server_id db side g).0
        ≡ has (server_node_id server_id) g.server_nodes
  unfolding attach attach_to
  attach-has server_id db side g =
      elim (Option-cases (get (server_node_id server_id) g.server_nodes)) [
        | inl missing ↦ rw (missing, attach) refl
        | inr (server, found) ↦ rw (found, attach) (ground arith)
      ]

  attach-kept :
      (server_id db : Text) (side : Side) (g : Building)
      → ((attach encode server_id db side g).1.server_nodes ≡ g.server_nodes)
        × ((attach encode server_id db side g).1.replications ≡ g.replications)
  unfolding attach attach_to
  attach-kept server_id db side g = ground arith

  abbrev HasEnds : Dict Text ServerNode → ReplicationConnection → Type 0
  HasEnds nodes c =
      (has (server_node_id c.source_server_id) nodes ≡ true)
      × (has (server_node_id c.target_server_id) nodes ≡ true)

  join_both-server_nodes :
      (s t : Option Text) (c : ReplicationConnection) (g : Building)
      → (join_both s t c g).server_nodes ≡ g.server_nodes
  unfolding join_both join
  join_both-server_nodes none t c g = refl
  join_both-server_nodes (some s) none c g = refl
  join_both-server_nodes (some s) (some t) c g = refl

  join_both-counted :
      (s t : Option Text) (c : ReplicationConnection) (g : Building)
      → is_some s ≡ true
      → is_some t ≡ true
      → counted (join_both s t c g).replications ≡ counted g.replications + 1
  unfolding join_both
  join_both-counted none t c g h k = cc
  join_both-counted (some s) none c g h k = cc
  join_both-counted (some s) (some t) c g h k = join-counted s t c g

  connect-server_nodes :
      (c : ReplicationConnection) (g : Building)
      → (connect encode c g).server_nodes ≡ g.server_nodes
  unfolding connect
  connect-server_nodes c g =
      let s = attach encode c.source_server_id c.source_db source_side g in
      let t = attach encode c.target_server_id c.target_db target_side s.1 in
      join_both-server_nodes s.0 t.0 c t.1
      ∙ (attach-kept c.target_server_id c.target_db target_side s.1).0
      ∙ (attach-kept c.source_server_id c.source_db source_side g).0

  connect-counted :
      (c : ReplicationConnection) (g : Building)
      → HasEnds g.server_nodes c
      → counted (connect encode c g).replications ≡ counted g.replications + 1
  unfolding connect
  connect-counted c g h =
      let s = attach encode c.source_server_id c.source_db source_side g in
      let t = attach encode c.target_server_id c.target_db target_side s.1 in
      let ks = attach-kept c.source_server_id c.source_db source_side g in
      let kt = attach-kept c.target_server_id c.target_db target_side s.1 in
      join_both-counted s.0 t.0 c t.1
        (attach-has c.source_server_id c.source_db source_side g ∙ h.0)
        (attach-has c.target_server_id c.target_db target_side s.1 ∙ rw ks.0 h.1)
      ∙ ap (λ d. counted d + 1) (kt.1 ∙ ks.1)

  connect_all-counted :
      (cs : List ReplicationConnection) (g : Building)
      → All (HasEnds g.server_nodes) cs
      → counted (connect_all encode cs g).replications ≡ counted g.replications + length cs
  unfolding connect_all
  connect_all-counted [] g h = omega arith
  connect_all-counted (c ∷ cs) g (k, h) = omega (
    arith,
    connect_all-counted cs (connect encode c g) (rw (connect-server_nodes c g) h),
    connect-counted c g k,
  )

server_node_id-=== : (a b : Text) → (server_node_id a === server_node_id b) ≡ (a === b)
unfolding server_node_id
server_node_id-=== a b = refl

has-add_server :
    (nodes : Dict Text ServerNode) (s : Server) (x : Text)
    → has (server_node_id x) (add_server nodes s) ≡ (s.id === x || has (server_node_id x) nodes)
unfolding add_server
has-add_server nodes s x =
    let node : ServerNode = record {
      id = server_node_id s.id;
      label = s.name;
      server_id = s.id;
      server_kind = s.kind;
      reachable = s.reachable;
    } in
    ground (
      arith,
      get-set (server_node_id s.id) (server_node_id x) node nodes,
      server_node_id-=== s.id x,
    )

has-add_servers :
    (servers : List Server) (nodes : Dict Text ServerNode) (x : Text)
    → has (server_node_id x) (add_servers nodes servers)
      ≡ (contains x (ids servers) || has (server_node_id x) nodes)
unfolding add_servers
has-add_servers [] nodes x = refl
has-add_servers (s ∷ servers) nodes x =
    ground (arith, has-add_servers servers (add_server nodes s) x, has-add_server nodes s x)

total-hosts : (hs : List Hosts) (es : List Edge) → total (map hosts_edge hs ++ es) ≡ total es
unfolding total
total-hosts [] es = refl
total-hosts (h ∷ hs) es = total-hosts hs es

-- Both ends of each connection are among the servers.
abbrev pub HasServers : TopologyData → Type 0
HasServers t =
    All
      (λ c.
        (contains c.source_server_id (ids t.servers) ≡ true)
        × (contains c.target_server_id (ids t.servers) ≡ true))
      t.connections

HasEnds-start :
    (encode : Text → Text) (servers : List Server) (cs : List ReplicationConnection)
    → All
        (λ c.
          (contains c.source_server_id (ids servers) ≡ true)
          × (contains c.target_server_id (ids servers) ≡ true))
        cs
    → All (HasEnds encode (add_servers [] servers)) cs
HasEnds-start encode servers = All-mono (λ c h. (
  rw (has-add_servers servers [] c.source_server_id, h.0) refl,
  rw (has-add_servers servers [] c.target_server_id, h.1) refl,
))

-- Where both ends of every connection are among the servers, the counts of the replication edges add
-- up to the number of connections: none is dropped and none is counted twice.
pub total-build_topology_graph :
    (encode : Text → Text) (t : TopologyData)
    → HasServers t
    → total (build_topology_graph encode t).edges ≡ length t.connections
unfolding build_topology_graph
total-build_topology_graph encode t h =
    let g = connect_all encode t.connections (start t.servers) in
    total-hosts g.hosts (map replication_edge (values g.replications))
    ∙ connect_all-counted encode t.connections (start t.servers)
        (HasEnds-start encode t.servers t.connections h)
    ∙ unfold total in omega arith

-- So for every topology that `buildTopology` returns: the graph shows each of its connections.
pub total-build_topology :
    (p : Platform) (encode : Text → Text) (docs : List ReplicatorDoc) (l : Server)
    (t : TopologyData)
    → build_topology p docs l ≡ value t
    → total (build_topology_graph encode t).edges ≡ length t.connections
total-build_topology p encode docs l t e =
    total-build_topology_graph encode t (build_topology-IsDrawn p docs l t e).connected
