-- ===== src/Topology/Servers.antt =====
-- The servers that the topology draws, and that its connections stand between them.
use couch_companion_ui.Prelude.{
  true, false, not, Option, none, some, List, [], ◌∷◌, ◌++◌, Text, map, ◌===◌, is_nil, contains,
  text_eq, Dict, has, set, values, keys, ◌≡◌, refl, ap, ◌∙◌, arith, All, All-append, All-mono,
  IsDistinct, inl, inr, Bool-cases, Option-cases, get-set, set_of_absent, set-IsDistinct,
  contains-keys, text_beq_iff, if_rule,
}
use couch_companion_ui.SingleServer.{Url, Platform, remote, Server, server_key}
use couch_companion_ui.Topology.{
  Endpoint, ReplicatorDoc, ReplicationConnection, TopologyData, ResolvedEndpoint, Throwing, value,
  throws, ◌>>=◌, is_bare_db_name, endpoint_url, is_replication_doc, last_segment, remote_id,
  remote_server, place, resolve_endpoint, connection_of, read_doc, read_docs, as_local,
  build_topology,
}

-- A remote server's entry: it has its own id, and is never taken for reachable or signed in to.
pub record IsRemoteEntry (entry : Text × Server) : Type 0 where
  pub own_id : entry.1.id ≡ entry.0
  pub is_remote : entry.1.kind ≡ remote
  pub unprobed : entry.1.reachable ≡ false
  pub no_user : entry.1.username ≡ []

-- The map holds the local server first, and behind it remote servers only, each under its own id.
pub record IsServers (l : Server) (d : Dict Text Server) : Type 0 where
  pub remotes : Dict Text Server
  pub shape : d ≡ (l.id, as_local l) ∷ remotes
  pub remote_only : All IsRemoteEntry remotes
  pub distinct : IsDistinct (keys d)

-- What one endpoint does to the map, and where it ends.
abbrev Lands : Option ResolvedEndpoint → Dict Text Server → Type 0
Lands none d = Unit
Lands (some e) d = has e.server_id d ≡ true

record Extends (l : Server) (d d' : Dict Text Server) : Type 0 where
  kept : (k : Text) → has k d ≡ true → has k d' ≡ true
  servers : IsServers l d'

module _ (l : Server) where
  Extends-refl : (d : Dict Text Server) → IsServers l d → Extends l d d
  Extends-refl d v = record { kept = λ k h. h; servers = v }

  has_local : (d : Dict Text Server) → IsServers l d → has l.id d ≡ true
  has_local d v = rw v.shape (ground (arith, text_beq_iff l.id l.id))

  add_remote :
      (d : Dict Text Server) (key : Text) (u : Url)
      → IsServers l d
      → has (remote_id key) d ≡ false
      → IsServers l (set (remote_id key) (remote_server key u) d)
  add_remote d key u v absent = record {
    remotes = v.remotes ++ (remote_id key, remote_server key u) ∷ [];
    shape =
        set_of_absent (remote_id key) (remote_server key u) d (ground arith)
        ∙ ap (λ x. x ++ (remote_id key, remote_server key u) ∷ []) v.shape;
    remote_only =
        All-append IsRemoteEntry v.remotes ((remote_id key, remote_server key u) ∷ []) v.remote_only
          (record { own_id = refl; is_remote = refl; unprobed = refl; no_user = refl }, tt);
    distinct = set-IsDistinct (remote_id key) (remote_server key u) d v.distinct;
  }

  Extends-set :
      (d : Dict Text Server) (key : Text) (u : Url)
      → IsServers l d
      → has (remote_id key) d ≡ false
      → Extends l d (set (remote_id key) (remote_server key u) d)
  Extends-set d key u v absent = record {
    kept = λ k h. rw (get-set (remote_id key) k (remote_server key u) d) (ground arith);
    servers = add_remote d key u v absent;
  }

  abbrev Placed : Dict Text Server → Option ResolvedEndpoint × Dict Text Server → Type 0
  Placed d r = Extends l d r.1 × Lands r.0 r.1

  module _ (p : Platform) (key : Text) where
    place-Placed :
        (u : Url) (db : Text) (d : Dict Text Server)
        → IsServers l d
        → Placed d (place p l key u db d)
    unfolding place
    place-Placed u db d v =
        if_rule (Placed d) (is_nil (server_key p u.href)) (λ e. (Extends-refl d v, tt))
          (λ e.
            if_rule (Placed d) (server_key p u.href === key)
              (λ same. (Extends-refl d v, has_local d v))
              (λ other. elim (Bool-cases (has (remote_id (server_key p u.href)) d)) [
                | inl old ↦ rw old (Extends-refl d v, old)
                | inr new ↦ rw new (
                  Extends-set d (server_key p u.href) u v new,
                  rw
                      (get-set (remote_id (server_key p u.href)) (remote_id (server_key p u.href))
                        (remote_server (server_key p u.href) u) d)
                      (ground (arith, text_beq_iff (server_key p u.href) (server_key p u.href))),
                )
              ]))

-- What holds of the value where the call does not throw.
abbrev pub Yields {ℓ κ} : {A : Type ℓ} → (A → Type κ) → Throwing A → Type κ
Yields P (value a) = P a
Yields P throws = Unit

Yields->>= {ℓ κ} :
    {A B : Type ℓ} (P : A → Type κ) (Q : B → Type κ) (m : Throwing A) (f : A → Throwing B)
    → Yields P m
    → ((a : A) → P a → Yields Q (f a))
    → Yields Q (m >>= f)
Yields->>= P Q (value a) f h k = k a h
Yields->>= P Q throws f h k = tt

abbrev Known : Dict Text Server → ReplicationConnection → Type 0
Known d c = (has c.source_server_id d ≡ true) × (has c.target_server_id d ≡ true)

module _ (l : Server) where
  Extends-trans : (a b c : Dict Text Server) → Extends l a b → Extends l b c → Extends l a c
  Extends-trans a b c e f = record { kept = λ k h. f.kept k (e.kept k h); servers = f.servers }

  Known-Extends :
      (d d' : Dict Text Server) (cs : List ReplicationConnection)
      → Extends l d d'
      → All (Known d) cs
      → All (Known d') cs
  Known-Extends d d' cs e =
      All-mono (λ c h. (e.kept c.source_server_id h.0, e.kept c.target_server_id h.1)) cs

  Lands-Extends :
      (d d' : Dict Text Server) (o : Option ResolvedEndpoint)
      → Extends l d d'
      → Lands o d
      → Lands o d'
  Lands-Extends d d' none e h = tt
  Lands-Extends d d' (some r) e h = e.kept r.server_id h

  -- What a round, or the whole loop, gives.
  abbrev Read : Dict Text Server → List ReplicationConnection × Dict Text Server → Type 0
  Read d r = Extends l d r.1 × All (Known r.1) r.0

  connection_of-Known :
      (doc : ReplicatorDoc) (s t : Option ResolvedEndpoint) (d : Dict Text Server)
      → Lands s d
      → Lands t d
      → All (Known d) (connection_of doc s t)
  connection_of-Known doc none t d h k = tt
  connection_of-Known doc (some s) none d h k = tt
  connection_of-Known doc (some s) (some t) d h k = ((h, k), tt)

  module _ (p : Platform) (key : Text) where
    resolve_endpoint-Placed :
        (endpoint : Endpoint) (d : Dict Text Server)
        → IsServers l d
        → Yields (Placed l d) (resolve_endpoint p endpoint l key d)
    unfolding resolve_endpoint
    resolve_endpoint-Placed endpoint d v =
        elim (Option-cases (p.parse_url (endpoint_url endpoint))) [
          | inl bare ↦
              rw (bare, resolve_endpoint)
                (
                  Extends-refl l d v,
                  if_rule (λ o. Lands o d) (is_bare_db_name (endpoint_url endpoint))
                      (λ b. has_local l d v) (λ b. tt),
                )
          | inr (u, parsed) ↦
              rw (parsed, resolve_endpoint)
                (elim (Option-cases (p.decode_component (last_segment u.pathname))) [
                  | inl bad ↦ rw (bad, resolve_endpoint) tt
                  | inr (db, good) ↦ rw (good, resolve_endpoint) (place-Placed l p key u db d v)
                ])
        ]

    read_doc-Read :
        (doc : ReplicatorDoc) (d : Dict Text Server)
        → IsServers l d
        → Yields (Read d) (read_doc p l key doc d)
    unfolding read_doc
    read_doc-Read doc d v =
        if_rule (Yields (Read d)) (not (is_replication_doc doc)) (λ other. (Extends-refl l d v, tt))
          (λ replication.
            Yields->>= (Placed l d) (Read d) (resolve_endpoint p doc.source l key d) _
              (resolve_endpoint-Placed doc.source d v)
              (λ s hs.
                Yields->>= (Placed l s.1) (Read d) (resolve_endpoint p doc.target l key s.1) _
                  (resolve_endpoint-Placed doc.target s.1 hs.0.servers)
                  (λ t ht. (
                    Extends-trans d s.1 t.1 hs.0 ht.0,
                    connection_of-Known doc s.0 t.0 t.1 (Lands-Extends s.1 t.1 s.0 ht.0 hs.1) ht.1,
                  ))))

    read_docs-Read :
        (docs : List ReplicatorDoc) (d : Dict Text Server)
        → IsServers l d
        → Yields (Read d) (read_docs p l key docs d)
    unfolding read_docs
    read_docs-Read [] d v = (Extends-refl l d v, tt)
    read_docs-Read (doc ∷ docs) d v =
        Yields->>= (Read d) (Read d) (read_doc p l key doc d) _ (read_doc-Read doc d v) (λ a ha.
          Yields->>= (Read a.1) (Read d) (read_docs p l key docs a.1) _
            (read_docs-Read docs a.1 ha.0.servers)
            (λ b hb. (
              Extends-trans d a.1 b.1 ha.0 hb.0,
              All-append (Known b.1) a.0 b.0 (Known-Extends a.1 b.1 a.0 hb.0 ha.1) hb.1,
            )))

-- The ids of the drawn servers.
abbrev pub ids : List Server → List Text
ids servers = map (λ s. s.id) servers

keys-eq-ids :
    (l : Server) (remotes : Dict Text Server)
    → All IsRemoteEntry remotes
    → keys remotes ≡ ids (values remotes)
keys-eq-ids l [] h = refl
keys-eq-ids l ((k, s) ∷ d) (e, h) = cc (e.own_id, keys-eq-ids l d h)

values-remote :
    (remotes : Dict Text Server)
    → All IsRemoteEntry remotes
    → All (λ s. (s.kind ≡ remote) × (s.reachable ≡ false)) (values remotes)
values-remote [] h = tt
values-remote ((k, s) ∷ d) (e, h) = ((e.is_remote, e.unprobed), values-remote d h)

-- What a drawn topology satisfies.
pub record IsDrawn (l : Server) (t : TopologyData) : Type 0 where
  -- The local server comes first, marked local; the others are remote, and never reachable.
  pub remotes : List Server
  pub local_first : t.servers ≡ as_local l ∷ remotes
  pub remote_rest : All (λ s. (s.kind ≡ remote) × (s.reachable ≡ false)) remotes
  pub ids_distinct : IsDistinct (ids t.servers)
  -- Both ends of every connection are drawn.
  pub connected :
      All
        (λ c.
          (contains c.source_server_id (ids t.servers) ≡ true)
          × (contains c.target_server_id (ids t.servers) ≡ true))
        t.connections

servers-keys : (l : Server) (d : Dict Text Server) → IsServers l d → keys d ≡ ids (values d)
servers-keys l d v = rw v.shape (ap (λ ks. l.id ∷ ks) (keys-eq-ids l v.remotes v.remote_only))

start-IsServers : (l : Server) → IsServers l (set l.id (as_local l) [])
start-IsServers l = record { remotes = []; shape = refl; remote_only = tt; distinct = (refl, tt) }

Known-ids :
    (l : Server) (d : Dict Text Server) (cs : List ReplicationConnection)
    → IsServers l d
    → All (Known d) cs
    → All
        (λ c.
          (contains c.source_server_id (ids (values d)) ≡ true)
          × (contains c.target_server_id (ids (values d)) ≡ true))
        cs
Known-ids l d cs v =
    All-mono
      (λ c h.
        rw (← servers-keys l d v)
          (contains-keys c.source_server_id d ∙ h.0, contains-keys c.target_server_id d ∙ h.1))
      cs

IsDrawn-Read :
    (l : Server) (d : Dict Text Server) (r : List ReplicationConnection × Dict Text Server)
    → Read l d r
    → IsDrawn l (record { servers = values r.1; connections = r.0 })
IsDrawn-Read l d r h =
    let v = h.0.servers in
    record {
      remotes = values v.remotes;
      local_first = ap values v.shape;
      remote_rest = values-remote v.remotes v.remote_only;
      ids_distinct = rw (← servers-keys l r.1 v) v.distinct;
      connected = Known-ids l r.1 r.0 v h.1;
    }

build_topology-Yields :
    (p : Platform) (docs : List ReplicatorDoc) (l : Server)
    → Yields (IsDrawn l) (build_topology p docs l)
unfolding build_topology
build_topology-Yields p docs l =
    Yields->>= (Read l (set l.id (as_local l) [])) (IsDrawn l)
      (read_docs p l (server_key p l.url) docs (set l.id (as_local l) [])) _
      (read_docs-Read l p (server_key p l.url) docs _ (start-IsServers l))
      (λ r h. IsDrawn-Read l _ r h)

-- Where `buildTopology` returns: the local server comes first, marked local; every other server is
-- remote and not marked reachable; no two servers share an id; and both ends of each connection are
-- among the servers.
pub build_topology-IsDrawn :
    (p : Platform) (docs : List ReplicatorDoc) (l : Server) (t : TopologyData)
    → build_topology p docs l ≡ value t
    → IsDrawn l t
build_topology-IsDrawn p docs l t e = rw e at (build_topology-Yields p docs l)
