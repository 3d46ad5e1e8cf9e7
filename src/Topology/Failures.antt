-- ===== src/Topology/Failures.antt =====
-- When `buildTopology` throws, and what a document with one bad endpoint leaves behind.
use couch_companion_ui.Prelude.{
  Bool, true, false, not, ◌&&◌, ◌||◌, Option, none, some, List, [], ◌∷◌, Text, text_eq, Dict, set,
  ◌≡◌, refl, ◌∙◌, arith, inl, inr, Bool-cases, Option-cases, text_beq_iff, is_some, ap, ◌≢◌,
}
use couch_companion_ui.SingleServer.{Url, Platform, Server, server_key}
use couch_companion_ui.Topology.{
  Endpoint, ReplicatorDoc, ResolvedEndpoint, Throwing, value, throws, ◌>>=◌, is_bare_db_name,
  endpoint_url, is_replication_doc, last_segment, remote_id, remote_server, at, place,
  resolve_endpoint, read_doc, read_docs, as_local, build_topology,
}

abbrev pub is_throws {ℓ} : {A : Type ℓ} → Throwing A → Bool
is_throws (value a) = false
is_throws throws = true

abbrev pub any {ℓ} : {A : Type ℓ} → (A → Bool) → List A → Bool
any f [] = false
any f (x ∷ xs) = f x || any f xs

or_false : (b : Bool) {c : Bool} → c ≡ (b || false) → c ≡ b
or_false true e = e
or_false false e = e

throws->>= {ℓ} :
    {A B : Type ℓ} (m : Throwing A) (f : A → Throwing B) (b c : Bool)
    → is_throws m ≡ b
    → ((a : A) → is_throws (f a) ≡ c)
    → is_throws (m >>= f) ≡ (b || c)
throws->>= (value a) f b c h k = rw (← h) (k a)
throws->>= throws f b c h k = rw (← h)

module _ (p : Platform) where
  -- The endpoint is a URL whose database name is not valid percent-encoding.
  unfoldable pub is_malformed : Endpoint → Bool
  is_malformed endpoint = elim (p.parse_url (endpoint_url endpoint)) [
    | none ↦ false
    | some u ↦ not (is_some (p.decode_component (last_segment u.pathname)))
  ]

  abbrev pub spoils : ReplicatorDoc → Bool
  spoils doc = is_replication_doc doc && (is_malformed doc.source || is_malformed doc.target)

  module _ (l : Server) (key : Text) where
    resolve_endpoint-throws :
        (endpoint : Endpoint) (d : Dict Text Server)
        → is_throws (resolve_endpoint p endpoint l key d) ≡ is_malformed endpoint
    unfolding resolve_endpoint is_malformed
    resolve_endpoint-throws endpoint d = elim (Option-cases (p.parse_url (endpoint_url endpoint))) [
      | inl bare ↦ rw (bare, resolve_endpoint, is_malformed) refl
      | inr (u, parsed) ↦
          rw (parsed, resolve_endpoint, is_malformed)
            (elim (Option-cases (p.decode_component (last_segment u.pathname))) [
              | inl bad ↦ rw (bad, resolve_endpoint) refl
              | inr (db, good) ↦ rw (good, resolve_endpoint) refl
            ])
    ]

    read_doc-throws :
        (doc : ReplicatorDoc) (d : Dict Text Server)
        → is_throws (read_doc p l key doc d) ≡ spoils doc
    unfolding read_doc
    read_doc-throws doc d = elim (Bool-cases (is_replication_doc doc)) [
      | inl replication ↦ rw replication (
          throws->>= (resolve_endpoint p doc.source l key d) _ _ _
            (resolve_endpoint-throws doc.source d)
            (λ s. or_false _ (
              throws->>= (resolve_endpoint p doc.target l key s.1) _ _ false
                (resolve_endpoint-throws doc.target s.1) (λ t. refl))))
      | inr other ↦ rw other
    ]

    read_docs-throws :
        (docs : List ReplicatorDoc) (d : Dict Text Server)
        → is_throws (read_docs p l key docs d) ≡ any spoils docs
    unfolding read_docs
    read_docs-throws [] d = refl
    read_docs-throws (doc ∷ docs) d =
        throws->>= (read_doc p l key doc d) _ _ _ (read_doc-throws doc d) (λ a. or_false _ (
          throws->>= (read_docs p l key docs a.1) _ _ false (read_docs-throws docs a.1)
            (λ b. refl)))

  -- `buildTopology` throws exactly when some replication document among its inputs has a source or a
  -- target that is a URL whose last path segment is not valid percent-encoding.
  pub build_topology_throws :
      (docs : List ReplicatorDoc) (l : Server)
      → is_throws (build_topology p docs l) ≡ any spoils docs
  unfolding build_topology
  build_topology_throws docs l = or_false _ (
      throws->>= (read_docs p l (server_key p l.url) docs (set l.id (as_local l) [])) _ _ false
        (read_docs-throws l (server_key p l.url) docs _) (λ r. refl))

  resolve_url :
      (endpoint : Endpoint) (l : Server) (key : Text) (d : Dict Text Server) (u : Url) (db : Text)
      → p.parse_url (endpoint_url endpoint) ≡ some u
      → p.decode_component (last_segment u.pathname) ≡ some db
      → resolve_endpoint p endpoint l key d ≡ value (place p l key u db d)
  unfolding resolve_endpoint
  resolve_url endpoint l key d u db parsed decoded = ground (arith, parsed, decoded)

  resolve_junk :
      (endpoint : Endpoint) (l : Server) (key : Text) (d : Dict Text Server)
      → p.parse_url (endpoint_url endpoint) ≡ none
      → is_bare_db_name (endpoint_url endpoint) ≡ false
      → resolve_endpoint p endpoint l key d ≡ value (none, d)
  unfolding resolve_endpoint
  resolve_junk endpoint l key d junk not_name = ground (arith, junk, not_name)

  abbrev placed_at : Server → Url → Text → Option ResolvedEndpoint × Dict Text Server
  placed_at l u db = (
    some (at (remote_id (server_key p u.href)) db),
    (l.id, as_local l)
        ∷ (remote_id (server_key p u.href), remote_server (server_key p u.href) u)
        ∷ [],
  )

  place_foreign :
      (l : Server) (u : Url) (db : Text)
      → server_key p u.href ≢ []
      → server_key p u.href ≢ server_key p l.url
      → remote_id (server_key p u.href) ≢ l.id
      → place p l (server_key p l.url) u db (set l.id (as_local l) []) ≡ placed_at l u db
  unfolding place
  place_foreign l u db web foreign other = ground (
    arith,
    text_beq_iff (server_key p u.href) (server_key p l.url),
    text_beq_iff l.id (remote_id (server_key p u.href)),
  )

  -- A document with a remote source that resolves, and a target that is neither a URL nor a database
  -- name, adds no connection, but the server of its source is drawn all the same.
  pub half_drawn :
      (doc : ReplicatorDoc) (l : Server) (u : Url) (db : Text)
      → is_replication_doc doc ≡ true
      → p.parse_url (endpoint_url doc.source) ≡ some u
      → p.decode_component (last_segment u.pathname) ≡ some db
      → server_key p u.href ≢ []
      → server_key p u.href ≢ server_key p l.url
      → remote_id (server_key p u.href) ≢ l.id
      → p.parse_url (endpoint_url doc.target) ≡ none
      → is_bare_db_name (endpoint_url doc.target) ≡ false
      → build_topology p (doc ∷ []) l
        ≡ value (record {
          servers = as_local l ∷ remote_server (server_key p u.href) u ∷ [];
          connections = [];
        })
  unfolding build_topology read_docs read_doc
  half_drawn doc l u db replication parsed decoded web foreign other junk not_name =
      let start = set l.id (as_local l) [] in
      let placed = place_foreign l u db web foreign other in
      let first : resolve_endpoint p doc.source l (server_key p l.url) start
          ≡ value (placed_at l u db) =
        resolve_url doc.source l (server_key p l.url) start u db parsed decoded ∙ ap value placed in
      let second =
        resolve_junk doc.target l (server_key p l.url) (placed_at l u db).1 junk not_name in
      ground (arith, first, second)
