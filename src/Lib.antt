-- ===== src/Lib.antt =====
-- CouchCompanion UI: a verification library for the logic of the web client.
--
-- The client runs in the browser against one CouchDB server. Its screens talk to each other over an
-- event router, read the server through services, and draw what the services compute. This library
-- models the parts that hold state or decide something, one module for each:
--
-- - EventRouter: src/customEventRouter.ts. The two indexes of `CustomEventRouter`, the window
--   listeners and the transports are the record `Router`; each method is a function on it, and a
--   delivery is the list of effects it has, in order. An object is a number, its identity; what a
--   callback returns is a parameter of the delivery. Callbacks that throw, which would end the work of
--   their window listener, or that call the router back while it delivers, are not modelled.
-- - ModalStack: src/components/modal-overlay-stack.ts. The module's variables are the record
--   `Overlays`, with the two listeners that it adds to the document; what the document answers about
--   an element (attached, native dialog, `:modal`) is an argument of each call.
-- - SingleServer: src/services/single-server.ts. The key of a server's URL and the one server entry.
--   The URL parser is the parameter `Platform`, which the topology takes too.
-- - Topology: `buildTopology` of src/services/topology-model.ts. It keys servers as SingleServer
--   does, and its result is what TopologyGraph draws. A call that throws is `throws`.
-- - TopologyGraph: `buildTopologyGraph` of the same file. `encodeURIComponent` is a parameter. The
--   three maps are dictionaries in insertion order.
-- - DesignSync: src/services/git/design-sync.ts. The sync status of a design document, the gate on
--   the direction of a sync, the canonical form of a document and its path in a repository.
--   `JSON.stringify` is a parameter. An object is the list of its entries; that JavaScript lists
--   integer-like keys first is left out. The test by which `getRepoDocs` of
--   src/services/design-mgmt-service.ts tells the files of a database stands here too.
-- - SyncFlows: `syncToRepo` and `syncToCouch` of src/services/design-mgmt-service.ts, with the
--   reading of a document (Reading), on top of DesignSync. CouchDB, the git provider, the metadata
--   store, the JSON functions and the clock are the parameter `Remote`; a call gives the writes it
--   issues, in order, and its result or error. What the lookup of repository, target and account
--   finds is the parameter `Target`. All reads of a sync see the state before it.
-- - RecentServers: src/services/recent-servers.ts, on the list of entries that the storage holds; the
--   clock is an argument.
-- - Csp: src/services/csp-policy.ts. Reading, printing and editing a Content-Security-Policy header.
--   Csp/Scan is an independent reading of a header, from the right. Csp/Allowed judges origins with the
--   URL parser of SingleServer's `Platform`.
-- - PageRouter: src/router.ts. The routes, the redirects and the count of navigations; the value that
--   `location.hash` reads back is the parameter `fragment`. PageRouter/Events puts the router in a tab
--   whose events arrive later.
-- - Idp: src/services/oidc-ini.ts, and src/services/idp-origins.ts in Idp/Connect. The entries of the
--   `[oidc]` section, the providers that they make, the keys that none claims and the origins that a
--   policy must allow for them. `JSON.parse` and `JSON.stringify` are parameters.
-- - RepoTargets: src/services/repo-targets.ts, with `getRepo` of
--   src/services/design-mgmt-service.ts on the list that the store returns.
-- - RepoUrl: `parseRepoUrl` of src/services/git/github-provider.ts with `repoIdentity` and
--   `repoNameFromUrl` of src/services/design-mgmt-service.ts. A regular expression is the scan that
--   matches what it matches; letters are compared as those of ASCII.
-- - RepoRegistry: `registerRepo`, `detachTarget`, `unlinkRepo`, `deleteRepo` and `resolveSyncTarget`
--   (up to the git provider) of src/services/design-mgmt-service.ts, on the repositories of
--   RepoTargets and the identities of RepoUrl. The metadata store is the interface `Store`, over the
--   states of the database; src/services/git/couchcompanion-store.ts, which implements it, is not modelled.
--   RepoRegistry/Documented says how a store is taken to behave, for the ids of its own documents, and
--   RepoRegistry/Memory is an example of one. A request that fails may have been carried out.
--   Several repositories are detached one after the other, and no other client writes meanwhile.
-- - PageSize: src/services/page-size-preference.ts, on the text that the storage holds.
-- - Prelude: tests, lists, insertion-ordered maps and string operations that the others share. A
--   text is the list of its code units.
--
-- Numbers are natural numbers; no part computes on machine words. Every loop of the source that is
-- modelled runs over a list, so its function recurs on that list and needs no fuel. `resolve` of the
-- router calls itself and takes fuel; one pass is enough wherever it returns. The one other bound is in
-- `digits` of the Prelude, which prints a number `n` with `n + 1` rounds, more than its digits.
--
-- Not modelled: the Lit components and their rendering, requests and timers, storage of the browser,
-- cryptography, styling, and the services that the modules above do not name.
mod Prelude
pub mod EventRouter
pub mod ModalStack
pub mod SingleServer
pub mod Topology
pub mod TopologyGraph
pub mod DesignSync
pub mod SyncFlows
pub mod RecentServers
pub mod Csp
pub mod PageRouter
pub mod Idp
pub mod RepoTargets
pub mod RepoUrl
pub mod RepoRegistry
pub mod PageSize
