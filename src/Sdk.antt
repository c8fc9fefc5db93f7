-- ===== src/Sdk.antt =====
-- src/sdk: the clients of the daemon's services.
pub mod ExecCmdClient
pub mod NodeCommandClient
pub mod Command
pub mod Daemon
pub mod Tests
