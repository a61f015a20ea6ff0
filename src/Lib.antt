-- ===== src/Lib.antt =====
-- SmolRouter: a router of requests for language models, and what of it is verified here.
--
-- A request names a model and comes from a client. Access control decides which models the client
-- sees (smolrouter/access_control.py); a strategy resolves the name to one of them
-- (smolrouter/strategies.py); where several hosts serve the model, the load balancer picks an
-- instance and counts its requests (smolrouter/load_balancer.py), or a route of the configuration
-- names the upstreams to try in turn (smolrouter/routing.py). The caller is known by a secret
-- (smolrouter/facade_keys.py), which belongs to a project (smolrouter/project_key_manager.py); and
-- a limiter admits the
-- request if its caller is within two rolling windows (smolrouter/request_rate_limits.py). The
-- parts share the data of smolrouter/interfaces.py.
--
-- The files, each named for the part that it models, the proofs in children of the definitions:
--   ModelInfo: `ModelInfo` and `display_name`, `matches_request` of smolrouter/interfaces.py.
--   Access/Patterns, Access/Ip, Access/Auth, Access/Control: the control by address, the control
--     by claims, and composites of them in the modes "all" and "any". The methods keep their
--     names; an access control is a tree, and the two methods of a composite are recursion on it.
--   Strategy/Names, Strategy/Rules, Strategy/Resolve: qualified names `name [provider]`, alias
--     rules and provider priorities, and `resolve_model_request`.
--   LoadBalancer/Names, Types, Registry, Metrics, Ranking, Balancer: `parse_model_name`, the data
--     classes, the orders of preference, and the methods as functions on one state. The children
--     of Balancer prove what selection promises, how loads are counted, and what holds in every
--     state that the calls reach.
--   Cache: `InMemoryModelCache` of smolrouter/caching.py, the models found at each provider; Keys
--     and History prove that its answers are those of its history of calls. Cache/Aggregator:
--     `ModelAggregator` over it, each coroutine as its stretches between two waits; Flights has
--     their interleavings.
--   RateLimit/Policy, Script, Limiter: the configuration parser, the Lua script as one function
--     on a sorted set, and the check around it. Window, Retry, Admission, Policy/Laws and the
--     children of Limiter prove what it promises.
--   Funnel: `GoogleGenAIRequestFunnel` of smolrouter/rate_limiter.py; Window, Meanwhile and Runs
--     prove what its slots promise over any interleaving of requests.
--   Routing/Table, Routing/Failover: the routes and aliases of smolrouter/routing.py, and the trial
--     of one instance after another on a network.
--   FacadeKeys/Values, Config, Registry: the keys that the router hands out, of
--     smolrouter/facade_keys.py: one key's configuration, and the registry of all keys with the
--     index of their secrets. The children of Registry follow a secret from the sources to its
--     caller (Claims, Laws, Sources) and back (Origins).
--   ProjectKeys/Sources, Manager, Ids, ProjectConfig, Projects: `ProjectKeyManager` of
--     smolrouter/project_key_manager.py, with the readers of facade_key_store.py and
--     secret_store.py. An operation gets what other programs do to the files meanwhile as an
--     argument.
--   Mediator: `ModelMediator` of smolrouter/mediator.py, on the parts above; Laws, Balanced and
--     Released prove which models a request gets and what becomes of the load balancer.
--   Value: values of a parsed configuration file. Prelude: lists, dictionaries, stable sorting,
--     results with errors. Tests files run the definitions on concrete inputs.
--
-- Parameters, for code that is not in the repository: Redis' sorted sets (RateLimit/Script, with
-- the documented effect of each command), SHA-256 (where two callers are told apart, without
-- collision), regular expressions and fnmatch (Access/Patterns), template expansion and
-- lower-case (Strategy/Rules), floats, urlparse and the order of a set (LoadBalancer/Runtime), the
-- HTTP client (Routing/Failover), conversions of values (FacadeKeys/Values), YAML and the digests of
-- files (ProjectKeys/Sources).
--
-- Every function is total by structural recursion; none uses fuel. Times of the limiter are whole
-- milliseconds as in the script; those of the cache are natural numbers of any unit, seconds in
-- its aggregator. Counters are natural numbers, as Python's integers do not wrap; priorities of
-- aliases and providers are taken to be natural numbers, and alias targets texts.
--
-- Two things that the code meets are left aside: decimal digits other than the ASCII ones in the
-- number of a model name (LoadBalancer/Names); and a write by another program just between the look at a
-- file's digest and the replacement of the file (ProjectKeys). An end of a request that is not under
-- way, which `end_request` does not refuse, is a step of its own (LoadBalancer/Balancer/Step).
--
-- Not modelled: the web application and its wiring, the adapters of providers, the storage of
-- records, configuration files and commands, all of which call services or files; reports of
-- statistics; and the calls of the providers after a request is resolved.
pub mod Prelude
pub mod Value
pub mod ModelInfo
pub mod Access
pub mod Strategy
pub mod RateLimit
pub mod LoadBalancer
pub mod Cache
pub mod Routing
pub mod FacadeKeys
pub mod ProjectKeys
pub mod Mediator
pub mod Funnel
