-- ===== src/Controller.antt =====
-- pkg/controller
pub mod Env
pub mod Annotation
pub mod Credentials
pub mod Endpoints
pub mod Upstreams
pub mod Addresses
pub mod References
pub mod Act
pub mod Status
pub mod Queue
pub mod Notifications
pub mod Sync
pub mod Names
pub mod Lifecycle
pub mod Running
pub mod Resync
pub mod Fixtures
mod Tests
