-- ===== src/Nghttpx.antt =====
-- pkg/nghttpx
pub mod Types
pub mod Tls
pub mod Pems
pub mod Io
pub mod Files
pub mod Reload
pub mod Process
pub mod Setup
pub mod Diff
pub mod Fixtures
mod Tests
