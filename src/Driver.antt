-- ===== src/Driver.antt =====
-- crates/monoio/src/driver: operations in flight, and readiness of sources.
pub mod Lifecycle
pub mod ScheduledIo
pub mod SharedFd
mod Tests
