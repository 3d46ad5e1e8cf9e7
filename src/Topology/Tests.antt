-- ===== src/Topology/Tests.antt =====
-- A small replicator database, and the theorems of the topology at it.
use couch_companion_ui.Prelude.{
  true, false, none, some, [], ◌∷◌, ◌++◌, Text, codes, if◌then◌else◌, ◌===◌, text_eq, ◌≡◌, refl,
  trim, is_space, sym, ◌∙◌,
}
use couch_companion_ui.SingleServer.{Url, Platform, local, Server, server_key, key_of}
use couch_companion_ui.Topology.{
  text, ReplicatorDoc, TopologyData, value, is_bare_db_name, endpoint_url, is_replication_doc,
  last_segment, remote_server, place, resolve_endpoint, read_doc, read_docs, as_local,
  build_topology,
}
use couch_companion_ui.Topology.Servers.{IsDrawn, build_topology-IsDrawn}
use couch_companion_ui.Topology.Failures.{
  is_throws, any, is_malformed, spoils, build_topology_throws, half_drawn,
}

abbrev url : Text → Text → Text → Url
url hostname port pathname = record {
  protocol = codes "http:";
  hostname = hostname;
  port = port;
  host = hostname ++ codes ":" ++ port;
  origin = codes "http://" ++ hostname ++ codes ":" ++ port;
  pathname = pathname;
  href = codes "http://" ++ hostname ++ codes ":" ++ port ++ pathname;
}

abbrev home : Text
home = codes "http://localhost:1"

abbrev away : Text
away = codes "http://h:2/b"

abbrev bad : Text
bad = codes "http://h:2/%"

-- Three URLs are known, and a lone percent sign cannot be decoded.
abbrev platform : Platform
platform = record {
  parse_url = λ s.
      if s === home
      then some (url (codes "localhost") (codes "1") (codes "/"))
      else if s === away
      then some (url (codes "h") (codes "2") (codes "/b"))
      else if s === bad
      then some (url (codes "h") (codes "2") (codes "/%"))
      else none;
  decode_component = λ s. if s === codes "%" then none else some s;
}

abbrev here : Server
here = record {
  id = codes "local";
  name = codes "localhost:1";
  url = home;
  username = [];
  reachable = true;
  last_checked = none;
  couch_version = none;
  created_at = [];
  updated_at = [];
  kind = local;
}

abbrev doc : Text → Text → ReplicatorDoc
doc source target = record {
  id = some (codes "r1");
  replicator_doc_id = none;
  source = text source;
  target = text target;
  continuous = true;
}

abbrev drawn : TopologyData
drawn = record {
  servers = here ∷ remote_server (codes "h:2") (url (codes "h") (codes "2") (codes "/b")) ∷ [];
  connections =
      record {
        source_server_id = codes "local";
        target_server_id = codes "remote:h:2";
        source_db = codes "a";
        target_db = codes "b";
        continuous = true;
        replicator_doc_id = codes "r1";
      }
      ∷ [];
}

draws : build_topology platform (doc (codes " a ") away ∷ []) here ≡ value drawn
unfolding build_topology read_docs read_doc resolve_endpoint place endpoint_url is_replication_doc
    is_bare_db_name last_segment server_key key_of trim is_space
draws = refl

build_topology-IsDrawn_example : IsDrawn here drawn
build_topology-IsDrawn_example =
    build_topology-IsDrawn platform (doc (codes " a ") away ∷ []) here drawn draws

-- One document with a lone percent sign takes the whole picture down.
build_topology_throws_example :
    is_throws (build_topology platform (doc (codes "a") away ∷ doc bad (codes "a") ∷ []) here)
    ≡ any (spoils platform) (doc (codes "a") away ∷ doc bad (codes "a") ∷ [])
build_topology_throws_example =
    build_topology_throws platform (doc (codes "a") away ∷ doc bad (codes "a") ∷ []) here

spoiled : any (spoils platform) (doc (codes "a") away ∷ doc bad (codes "a") ∷ []) ≡ true
unfolding is_malformed endpoint_url is_replication_doc last_segment trim is_space
spoiled = refl

abbrev away_url : Url
away_url = url (codes "h") (codes "2") (codes "/b")

junk_is_replication : is_replication_doc (doc away (codes "A b")) ≡ true
unfolding is_replication_doc endpoint_url trim is_space
junk_is_replication = refl

away_parsed : platform.parse_url (endpoint_url (text away)) ≡ some away_url
unfolding endpoint_url trim is_space
away_parsed = refl

away_decoded : platform.decode_component (last_segment away_url.pathname) ≡ some (codes "b")
unfolding last_segment
away_decoded = refl

away_key : server_key platform away_url.href ≡ codes "h:2"
unfolding server_key key_of
away_key = refl

home_key : server_key platform here.url ≡ codes "localhost:1"
unfolding server_key key_of
home_key = refl

junk_not_url :
    (platform.parse_url (endpoint_url (text (codes "A b"))) ≡ none)
    × (is_bare_db_name (endpoint_url (text (codes "A b"))) ≡ false)
unfolding endpoint_url is_bare_db_name trim is_space
junk_not_url = (refl, refl)

half_drawn_example :
    build_topology platform (doc away (codes "A b") ∷ []) here
    ≡ value (record {
      servers = as_local here ∷ remote_server (server_key platform away_url.href) away_url ∷ [];
      connections = [];
    })
half_drawn_example =
    half_drawn platform (doc away (codes "A b")) here away_url (codes "b") junk_is_replication
      away_parsed away_decoded (λ e. cc (sym away_key ∙ e)) (λ e. cc (sym away_key ∙ e ∙ home_key))
      (λ e. cc (rw away_key at e)) junk_not_url.0 junk_not_url.1
