-- ===== src/Io.antt =====
-- src/common/io: socket addresses and the ownership of file descriptors.
pub mod SocketAddress
pub mod OwnFd
mod Tests
