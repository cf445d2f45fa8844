-- ===== src/Lib.antt =====
-- fastapi-sample: the decisions of an API that guards and observes a homelab.
--
-- The program serves public and private routes, and a health board that probes services and their
-- providers at a bounded rate. A request passes the access control middleware first: the route policy
-- classes its path, and the class asks for a key, a token or a browser cookie, for some routes from a
-- trusted source address. WebSockets and mounted applications pass a guard of their own first, which
-- always asks for the owner's token. Health requests read snapshots that are refreshed by probes; what is probed,
-- how often, and what the results mean together is decided by the modules below.
--
-- The files, and the source that each follows (the names of the definitions are those of the
-- functions, without a leading underscore):
--   Prelude              lists, texts and dictionaries as Python has them
--   RoutePolicy          nabla/route_policy.py
--   TrustedIp            nabla/homelab_trusted_ip.py
--   AccessControl        nabla/access_control.py, nabla/diagnostics_readonly_mode.py; it takes the
--                        route's class from RoutePolicy and the source's answer from TrustedIp
--   OwnerSession         nabla/api/owner_ui_session.py
--   OwnerToken           nabla/cloudflare_ops_access.py
--   TransportGuard       nabla/asgi_transport_guard.py, in front of the middleware; it takes the class
--                        and the source's answer from the same two modules
--   ProbePolicy          nabla/api/homelab_probe_policy.py
--   ProviderCircuit      nabla/api/provider_circuit.py and the locks of
--                        nabla/api/external_probe_cache_redis.py
--   ProbeRate            nabla/api/provider_probe_budget.py
--   ProbeBudget          nabla/api/probe_budget.py
--   ProbeCache           nabla/api/external_probe_cache.py, nabla/api/external_probe_cache_types.py
--                        and the envelopes of nabla/api/external_probe_cache_redis.py; it asks
--                        ProviderCircuit and ProbeRate before it calls a loader
--   ProbeCadence         nabla/api/health_probe_cadence.py
--   SickzPolicy          nabla/api/sickz_policy.py, nabla/api/sickz_cloudflare_policy.py
--   DependencyHealth     nabla/api/homelab_dependency_health.py
--   Exposure             nabla/api/homelab_exposure.py, with the summary of a snapshot in
--                        nabla/api/cloudflare_exposure_observer.py
--   ComponentHealth      nabla/api/component_health.py
--   HealthContracts      nabla/api/health_contracts.py
--   SiteHealth           nabla/api/site_health_v2.py
--   CiScope              scripts/ci_scope.py
-- A module holds the definitions, its children the proofs, and its child Tests runs at concrete inputs.
--
-- State is passed explicitly: a world of the process and the Redis that replicas share, the counters
-- of a window, the cache of a cadence. An operation that can raise returns an option, or an outcome
-- with the exception. What the code awaits (a Redis reply, a loader's result, the clock) is an argument
-- of the operation; a Redis command that raises is a link that is down. A section that the process's
-- lock guards is one step, and the interleavings of tasks are the runs of a step relation.
--
-- Times are natural numbers of microseconds, so that a difference is written as a sum on the other
-- side where the code would see it negative; floats of seconds are taken as exact. Loops are structural
-- recursion over lists; the wait for a peer runs on one round for each poll interval of its
-- timeout and two more, and is proved to end within them. The propagation of health has the source's
-- bound on its rounds, which is proved to be enough. Dictionaries are association lists. Texts that
-- come over the wire are ASCII for the purposes of upper and lower case.
--
-- Parameters: the parser of addresses and networks (Python's ipaddress), the splitter of URLs, Python's
-- int and str and the HMAC of the session cookie, PyJWT's parser and decoder of tokens, and, as fields
-- of the inputs of the middleware and the guard, the verification of tokens, cookies and origins. Not
-- modelled: network I/O, logging, the cancellation of a call of the probe cache, the wording of
-- messages, FastAPI's wiring, the cache of the board, notes and users.
pub mod Prelude
pub mod AccessControl
pub mod CiScope
pub mod ComponentHealth
pub mod DependencyHealth
pub mod Exposure
pub mod HealthContracts
pub mod OwnerSession
pub mod OwnerToken
pub mod ProbeBudget
pub mod ProbeCache
pub mod ProbeCadence
pub mod ProbePolicy
pub mod ProbeRate
pub mod ProviderCircuit
pub mod RoutePolicy
pub mod SickzPolicy
pub mod SiteHealth
pub mod TransportGuard
pub mod TrustedIp
