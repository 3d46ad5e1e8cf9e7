-- ===== src/TopologyGraph/Edges.antt =====
-- What the loop of `buildTopologyGraph` keeps: the entries of its maps, and where its edges end.
use couch_companion_ui.Prelude.{
  Bool, true, ◌||◌, [], ◌∷◌, Text, ◌===◌, length, text_eq, nat_eq, get, has, set, ◌≡◌, ◌≢◌, refl,
  sym, arith, All, All-mono, All-set, All-get, inl, inr, Bool-cases, Option-cases, text_beq_iff,
  IsDistinct, keys, set-IsDistinct, length-append,
}
use couch_companion_ui.Topology.{ReplicationConnection}
use couch_companion_ui.TopologyGraph.{
  ServerNode, Database, Replication, Hosts, Building, Pair, pair_eq, sorted_pair, new_edge,
  merge_edge, join,
}
use couch_companion_ui.TopologyGraph.Ids.{first_unit}

abbrev pub is_node : Building → Text → Bool
is_node g x = has x g.server_nodes || has x g.databases

abbrev pub IsHosted : Building → Hosts → Type 0
IsHosted g h = (has h.source g.server_nodes ≡ true) × (has h.target g.databases ≡ true)

-- An entry of the replication map: filed under its own pair, between nodes, with one document id for
-- each document counted, and bidirectional only between two different nodes.
pub record IsEdgeEntry (g : Building) (entry : Pair × Replication) : Type 0 where
  pub filed : entry.0 ≡ sorted_pair entry.1.source entry.1.target
  pub source_node : is_node g entry.1.source ≡ true
  pub target_node : is_node g entry.1.target ≡ true
  pub ids_counted : length entry.1.replicator_doc_ids ≡ entry.1.count
  pub no_loop : entry.1.bidirectional ≡ true → entry.1.source ≢ entry.1.target

abbrev pub IsServerEntry : Text × ServerNode → Type 0
IsServerEntry entry = (entry.1.id ≡ entry.0) × (first_unit entry.0 ≡ b's')

abbrev pub IsDatabaseEntry : Text × Database → Type 0
IsDatabaseEntry entry = (entry.1.id ≡ entry.0) × (first_unit entry.0 ≡ b'd')

pub record IsSound (g : Building) : Type 0 where
  pub server_entries : All IsServerEntry g.server_nodes
  pub database_entries : All IsDatabaseEntry g.databases
  pub server_keys : IsDistinct (keys g.server_nodes)
  pub database_keys : IsDistinct (keys g.databases)
  pub edge_keys : IsDistinct (keys g.replications)
  pub hosted : All (IsHosted g) g.hosts
  pub edges : All (IsEdgeEntry g) g.replications

-- The same servers, and every database that was there.
pub record Grows (g g' : Building) : Type 0 where
  pub same_servers : g'.server_nodes ≡ g.server_nodes
  pub kept : (k : Text) → has k g.databases ≡ true → has k g'.databases ≡ true

pub Grows-is_node :
    {g g' : Building} → Grows g g' → (x : Text) → is_node g x ≡ true → is_node g' x ≡ true
Grows-is_node {g} {g'} e x h = rw e.same_servers (ground (arith, e.kept x))

pub Grows-IsHosted : {g g' : Building} → Grows g g' → (h : Hosts) → IsHosted g h → IsHosted g' h
Grows-IsHosted e h (a, b) = (rw e.same_servers a, e.kept h.target b)

pub Grows-IsEdgeEntry :
    {g g' : Building} → Grows g g' → (r : Pair × Replication) → IsEdgeEntry g r → IsEdgeEntry g' r
Grows-IsEdgeEntry e r v = record {
  filed = v.filed;
  source_node = Grows-is_node e r.1.source v.source_node;
  target_node = Grows-is_node e r.1.target v.target_node;
  ids_counted = v.ids_counted;
  no_loop = v.no_loop;
}

-- A loop has a pair of equal ids, and no other edge has it.
sorted_pair_loop : (a b c d : Text) → sorted_pair a b ≡ sorted_pair c d → a ≡ b → c ≡ a
unfolding sorted_pair
sorted_pair_loop a b c d e h = ground arith

module _ (g : Building) (v : IsSound g) (s t : Text) (c : ReplicationConnection) where
  new_edge-IsEdgeEntry :
      is_node g s ≡ true → is_node g t ≡ true → IsEdgeEntry g (sorted_pair s t, new_edge s t c)
  new_edge-IsEdgeEntry h k = record {
    filed = refl;
    source_node = h;
    target_node = k;
    ids_counted = refl;
    no_loop = λ b. cc;
  }

  merge_edge-no_loop :
      (r : Replication)
      → IsEdgeEntry g (sorted_pair s t, r)
      → (merge_edge s c r).bidirectional ≡ true
      → r.source ≢ r.target
  merge_edge-no_loop r w b same = elim (Bool-cases (r.source === s)) [
    | inl own ↦ w.no_loop (rw own at b) same
    | inr other ↦
        let e : s ≡ r.source = sorted_pair_loop r.source r.target s t (sym w.filed) same in
        cc (other, (text_beq_iff r.source s).1 (sym e))
  ]

  merge_edge-IsEdgeEntry :
      (r : Replication)
      → IsEdgeEntry g (sorted_pair s t, r)
      → IsEdgeEntry g (sorted_pair s t, merge_edge s c r)
  merge_edge-IsEdgeEntry r w = record {
    filed = w.filed;
    source_node = w.source_node;
    target_node = w.target_node;
    ids_counted =
        omega (arith, length-append r.replicator_doc_ids (c.replicator_doc_id ∷ []), w.ids_counted);
    no_loop = merge_edge-no_loop r w;
  }

  with_edge :
      (r : Replication)
      → IsEdgeEntry g (sorted_pair s t, r)
      → IsSound (record g { replications = set (sorted_pair s t) r g.replications })
  with_edge r w =
      let still : (x : Pair × Replication)
          → IsEdgeEntry g x
          → IsEdgeEntry (record g { replications = set (sorted_pair s t) r g.replications }) x =
        λ x h. Grows-IsEdgeEntry (record { same_servers = refl; kept = λ k y. y }) x h in
      record {
        server_entries = v.server_entries;
        database_entries = v.database_entries;
        server_keys = v.server_keys;
        database_keys = v.database_keys;
        edge_keys = set-IsDistinct (sorted_pair s t) r g.replications v.edge_keys;
        hosted = v.hosted;
        edges =
            All-mono still (set (sorted_pair s t) r g.replications)
              (All-set (IsEdgeEntry g) (sorted_pair s t) r g.replications w v.edges);
      }

  pub join-IsSound : is_node g s ≡ true → is_node g t ≡ true → IsSound (join s t c g)
  unfolding join
  join-IsSound h k = elim (Option-cases (get (sorted_pair s t) g.replications)) [
    | inl new ↦ rw (new, join) (with_edge (new_edge s t c) (new_edge-IsEdgeEntry h k))
    | inr (r, old) ↦
        rw (old, join)
          (with_edge (merge_edge s c r) (
            merge_edge-IsEdgeEntry r
              (All-get (IsEdgeEntry g) (sorted_pair s t) g.replications old v.edges)))
  ]
