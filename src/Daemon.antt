-- ===== src/Daemon.antt =====
-- src/daemon/engine: the services of the daemon.
pub mod ErrorCode
pub mod Config
pub mod Engine
pub mod Media
pub mod Process
pub mod Daemonize
pub mod Main
pub mod Transport
pub mod ExecCmdService
pub mod Tests
mod EngineTests
mod MainTests
