-- ===== src/Api.antt =====
-- client/src/lib/api.js: the request layer. `Limiter` is the bound on open connections,
-- `Requests` the session-scoped cache, the shared reads in flight and the fate of a reply.
pub mod Limiter
pub mod Requests
