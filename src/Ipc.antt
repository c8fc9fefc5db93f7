-- ===== src/Ipc.antt =====
-- src/common/ipc: the routers that multiplex service channels over a pipe.
pub mod ErrorCode
pub mod Types
pub mod Wire
pub mod Server
pub mod Client
pub mod Channel
pub mod ServerStack
pub mod Session
pub mod Pipe
pub mod Tests
