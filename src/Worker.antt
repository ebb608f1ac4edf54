-- ===== src/Worker.antt =====
-- The worker of services/worker/honor_worker: retries, the transitions of a job, its execution
-- under a heartbeat, the reconciler, the messages between them and the API, and the health signals.
pub mod Retry
pub mod Details
pub mod Transitions
pub mod Reconciler
pub mod System
pub mod Execute
pub mod Broker
pub mod Monitoring
