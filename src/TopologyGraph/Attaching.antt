-- ===== src/TopologyGraph/Attaching.antt =====
-- `attach` and the loop of `buildTopologyGraph` keep the invariant of the maps.
use couch_companion_ui.Prelude.{
  true, Option, none, some, List, [], ◌∷◌, ◌++◌, Text, is_nil, text_eq, nat_eq, Dict, get, has, set,
  ◌≡◌, refl, ◌∙◌, arith, All, All-mono, All-append, All-set, All-get, inl, inr, Option-cases,
  get-set, text_beq_iff, IsDistinct, keys, set-IsDistinct, if_rule,
}
use couch_companion_ui.SingleServer.{Server}
use couch_companion_ui.Topology.{ReplicationConnection}
use couch_companion_ui.TopologyGraph.{
  ServerNode, Database, Hosts, Side, source_side, target_side, Building, pair_eq, server_node_id,
  database_node_id, mark, join_both, new_database, attach_to, attach, connect, connect_all,
  add_server, add_servers, start,
}
use couch_companion_ui.TopologyGraph.Edges.{
  is_node, IsHosted, IsServerEntry, IsDatabaseEntry, IsSound, Grows, Grows-is_node, Grows-IsHosted,
  Grows-IsEdgeEntry, join-IsSound,
}

add_servers-entries :
    (servers : List Server) (nodes : Dict Text ServerNode)
    → All IsServerEntry nodes
    → IsDistinct (keys nodes)
    → All IsServerEntry (add_servers nodes servers) × IsDistinct (keys (add_servers nodes servers))
unfolding add_servers add_server server_node_id
add_servers-entries [] nodes h d = (h, d)
add_servers-entries (s ∷ servers) nodes h d =
    add_servers-entries servers _
      (All-set IsServerEntry (server_node_id s.id) _ nodes (refl, refl) h)
      (set-IsDistinct (server_node_id s.id) _ nodes d)

pub start-IsSound : (servers : List Server) → IsSound (start servers)
start-IsSound servers =
    let (entries, distinct) = add_servers-entries servers [] tt tt in
    record {
      server_entries = entries;
      database_entries = tt;
      server_keys = distinct;
      database_keys = tt;
      edge_keys = tt;
      hosted = tt;
      edges = tt;
    }

-- Where an endpoint is attached.
abbrev OnNode : Option Text → Building → Type 0
OnNode none g = Unit
OnNode (some x) g = is_node g x ≡ true

abbrev pub Attached : Building → Option Text × Building → Type 0
Attached g r = IsSound r.1 × Grows g r.1 × OnNode r.0 r.1

set-Grows :
    (g : Building) (id : Text) (d : Database) (hs : List Hosts)
    → Grows g (record g { databases = set id d g.databases; hosts = hs })
set-Grows g id d hs = record {
  same_servers = refl;
  kept = λ k h. rw (get-set id k d g.databases) (ground arith);
}

has-set_self : (id : Text) (d : Database) (ds : Dict Text Database) → has id (set id d ds) ≡ true
has-set_self id d ds = rw (get-set id id d ds) (ground (arith, text_beq_iff id id))

module _ (g : Building) (v : IsSound g) (id : Text) (d : Database)
    (entry : IsDatabaseEntry (id, d)) where
  -- Writing a database under its id, with no new edge or with the edge from its server.
  set_database-IsSound :
      (hs : List Hosts)
      → All (IsHosted (record g { databases = set id d g.databases; hosts = hs })) hs
      → IsSound (record g { databases = set id d g.databases; hosts = hs })
  set_database-IsSound hs h =
      let e = set-Grows g id d hs in
      record {
        server_entries = v.server_entries;
        database_entries = All-set IsDatabaseEntry id d g.databases entry v.database_entries;
        server_keys = v.server_keys;
        database_keys = set-IsDistinct id d g.databases v.database_keys;
        edge_keys = v.edge_keys;
        hosted = h;
        edges = All-mono (Grows-IsEdgeEntry e) g.replications v.edges;
      }

  mark_database-IsSound : IsSound (record g { databases = set id d g.databases })
  mark_database-IsSound =
      set_database-IsSound g.hosts
        (All-mono (Grows-IsHosted (set-Grows g id d g.hosts)) g.hosts v.hosted)

  host_database-IsSound :
      (server : Text)
      → has server g.server_nodes ≡ true
      → IsSound (record g {
        databases = set id d g.databases;
        hosts = g.hosts ++ (record { source = server; target = id }) ∷ [];
      })
  host_database-IsSound server known =
      let hs = g.hosts ++ (record { source = server; target = id }) ∷ [] in
      set_database-IsSound hs (
        All-append (IsHosted (record g { databases = set id d g.databases; hosts = hs })) g.hosts _
          (All-mono (Grows-IsHosted (set-Grows g id d hs)) g.hosts v.hosted)
          ((known, has-set_self id d g.databases), tt))

mark_id : (side : Side) (d : Database) → (mark side d).id ≡ d.id
mark_id source_side d = refl
mark_id target_side d = refl

module _ (encode : Text → Text) where
  attach_to-Attached :
      (server : ServerNode) (server_id db : Text) (side : Side) (g : Building)
      → IsSound g
      → has server.id g.server_nodes ≡ true
      → Attached g (attach_to encode server server_id db side g)
  unfolding attach_to database_node_id
  attach_to-Attached server server_id db side g v known =
      let id = database_node_id encode server_id db in
      if_rule (Attached g) (is_nil db)
        (λ e. (v, record { same_servers = refl; kept = λ k h. h }, rw known refl))
        (λ e. elim (Option-cases (get id g.databases)) [
          | inl new ↦ rw new (
            host_database-IsSound g v id (mark side (new_database encode server server_id db))
                (mark_id side _, refl) server.id known,
            set-Grows g id (mark side (new_database encode server server_id db)) _,
            ground (
              arith,
              has-set_self id (mark side (new_database encode server server_id db)) g.databases,
            ),
          )
          | inr (d, old) ↦ rw old (
            mark_database-IsSound g v id (mark side d) (
              mark_id side d ∙ (All-get IsDatabaseEntry id g.databases old v.database_entries).0,
              refl,
            ),
            set-Grows g id (mark side d) g.hosts,
            ground (arith, has-set_self id (mark side d) g.databases),
          )
        ])

  attach-Attached :
      (server_id db : Text) (side : Side) (g : Building)
      → IsSound g
      → Attached g (attach encode server_id db side g)
  unfolding attach
  attach-Attached server_id db side g v =
      elim (Option-cases (get (server_node_id server_id) g.server_nodes)) [
        | inl missing ↦
            rw (missing, attach) (v, record { same_servers = refl; kept = λ k h. h }, tt)
        | inr (server, found) ↦
            rw (found, attach)
              (attach_to-Attached server server_id db side g v (
                rw ((All-get IsServerEntry _ g.server_nodes found v.server_entries).0, found) refl))
      ]

  join_both-IsSound :
      (s t : Option Text) (c : ReplicationConnection) (g : Building)
      → IsSound g
      → OnNode s g
      → OnNode t g
      → IsSound (join_both s t c g)
  unfolding join_both
  join_both-IsSound none t c g v h k = v
  join_both-IsSound (some s) none c g v h k = v
  join_both-IsSound (some s) (some t) c g v h k = join-IsSound g v s t c h k

  OnNode-Grows : {g g' : Building} (o : Option Text) → Grows g g' → OnNode o g → OnNode o g'
  OnNode-Grows none e h = tt
  OnNode-Grows (some x) e h = Grows-is_node e x h

  connect-IsSound :
      (c : ReplicationConnection) (g : Building) → IsSound g → IsSound (connect encode c g)
  unfolding connect
  connect-IsSound c g v =
      let s = attach encode c.source_server_id c.source_db source_side g in
      let hs = attach-Attached c.source_server_id c.source_db source_side g v in
      let ht = attach-Attached c.target_server_id c.target_db target_side s.1 hs.0 in
      join_both-IsSound s.0 _ c _ ht.0 (OnNode-Grows s.0 ht.1 hs.2) ht.2

  pub connect_all-IsSound :
      (cs : List ReplicationConnection) (g : Building)
      → IsSound g
      → IsSound (connect_all encode cs g)
  unfolding connect_all
  connect_all-IsSound [] g v = v
  connect_all-IsSound (c ∷ cs) g v =
      connect_all-IsSound cs (connect encode c g) (connect-IsSound c g v)
