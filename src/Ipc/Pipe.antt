-- ===== src/Ipc/Pipe.antt =====
-- src/common/ipc/pipe: the sockets that carry the messages of the routers.
pub mod Framing
pub mod SocketServer
pub mod SocketClient
