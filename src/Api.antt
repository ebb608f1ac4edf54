-- ===== src/Api.antt =====
-- The API service, services/api/honor_api: the request's context, its errors and log lines, the
-- settings, the owner's transactions and authentication, the idempotency records, the readiness
-- probes, the object storage, outbound targets and the Polli gateway.
pub mod Json
pub mod Logging
pub mod Config
pub mod Database
pub mod Idempotency
pub mod App
pub mod Errors
pub mod RequestContext
pub mod Storage
pub mod Polli
pub mod Auth
pub mod Outbound
