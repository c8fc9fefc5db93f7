-- ===== src/Lib.antt =====
-- Verification of the core of yakut-native: the routers that multiplex service channels over a pipe between
-- the daemon and its clients, the sockets and descriptors under them, the executor that waits for these, and
-- the start of the daemon, from its forks to its transports.
--
-- The program's parts. The daemon runs a server router (src/common/ipc/server_router.cpp) on a server
-- pipe; each process that uses the SDK runs a client router (src/common/ipc/client_router.cpp) on a
-- client pipe. A service channel owns a gateway on either side; the gateways of a channel share a tag.
-- The routers exchange `Route` messages (src/common/dsdl/ocvsmd/common/ipc): a connection request and
-- its answer, channel messages, and channel ends. The pipes are stream sockets on an address that is parsed
-- from a connection string (src/common/io); the executor (include/ocvsmd/platform) calls them back when a
-- descriptor is ready. The engine (src/daemon/engine/engine.cpp) makes a Cyphal transport over the media that
-- the configuration names, then the router, and runs the executor.
--
-- Files.
--   Base: names of the libraries, Boolean tests, lists and maps over the native numbers.
--   Posix: include/ocvsmd/platform/posix_utils.hpp. A system call is the list of the outcomes of its
--     attempts; the retry loop is structural on it and needs no fuel.
--   Platform/Executor: the awaitable nodes of
--     include/ocvsmd/platform/linux/epoll_single_threaded_executor.hpp; the kernel's interest list is the
--     argument `Epoll` with `IsEpoll` for what its manual promises. Platform/Kqueue: those of
--     include/ocvsmd/platform/bsd/kqueue_single_threaded_executor.hpp, over `Kqueue` with `IsKqueue`.
--     Platform/Polling: the polls of both.
--   Io/SocketAddress: `SocketAddress` of src/common/io/socket_address.cpp; `Libc` stands for the functions of
--     the C library and of fmt, `IsPosix` for what they document. Its children Types and HostPort hold
--     its data and extractFamilyHostAndPort, Calls the system calls, the others the proofs; Grammar is the
--     syntax of hosts and ports.
--   Io/OwnFd: `OwnFd` of src/common/io/io.hpp, over a store of objects and the list of what was closed.
--   Ipc/Types, Ipc/ErrorCode, Ipc/Wire: the data, src/common/ipc/ipc_types.hpp, gateway.hpp and
--     src/common/dsdl_helpers.hpp. `Wire` stands for the generated serializers and `IsStandard` for
--     what their documentation promises.
--   Ipc/Server: `ServerRouterImpl` and its `GatewayImpl`. `clients` is client_id_to_map_of_gateways_,
--     `factories` is service_id_to_channel_factory_; a gateway is an object of `heap` with a count of
--     its owners, and the maps hold weak pointers. Functions are named for the methods; `release` is
--     the end of a shared_ptr with ~GatewayImpl. Its children hold the proofs.
--   Ipc/Client: `ClientRouterImpl` and its `GatewayImpl`, in the same way; `linked` is is_connected_.
--   Ipc/Pipe/Framing: `SocketBase` of src/common/ipc/pipe/socket_base.cpp. `ReadState` is its `State`
--     less the descriptor; the outcomes of ::send and ::recv are arguments.
--   Ipc/Pipe/SocketServer: `SocketServer` of src/common/ipc/pipe/socket_server.cpp, with the router
--     behind its event handler as a parameter. Its child Status is the protocol of events.
--   Ipc/Pipe/SocketClient: `SocketClient` of src/common/ipc/pipe/socket_client.cpp in the same way; what
--     its socket_callback_ waits for is a `Callback`.
--   Ipc/Channel: `Channel` of src/common/ipc/channel.hpp and `registerChannel` of server_router.hpp.
--   Ipc/ServerStack: the server router as the handler of the socket server.
--   Ipc/Session: what one router sends, as the other takes it; its children Passing and Ordering, for a
--     channel of many messages, Typed, for one of values (Ipc/Channel), and OverSockets, through the framing and the
--     socket server.
--   Daemon/Media: the loop over the names of interfaces, as in src/daemon/engine/platform/udp/udp_media.hpp;
--     its children Can and Udp are the two collections of media, and UdpSockets the sockets of
--     src/daemon/engine/platform/udp/udp_sockets.hpp. The vendored socketcan driver is the
--     argument `opens`, the outcomes of its calls. Daemon/Transport: the two transport bags of
--     src/daemon/engine/cyphal; libcyphal's makeTransport is an argument.
--   Daemon/Config, Daemon/Engine: src/daemon/engine/config.cpp over the values of the TOML tree, and
--     src/daemon/engine/engine.cpp, with what libcyphal answers in `Environment`. Daemon/ErrorCode:
--     src/daemon/engine/engine_helpers.hpp.
--   Daemon/Process, Daemon/Daemonize, Daemon/Main: src/daemon/main.cpp. A process is its table of descriptors
--     and what it changes of itself; a part of the program goes on or exits. A fork is a run of the same
--     code in each process, with what the call returns there in `Calls`; `World` holds what the
--     libraries answer, with the number of descriptors that
--     spdlog's sinks open, and `Kernel` with `IsPosix` what the system promises. `::close` and `::dup2` act on
--     the table as POSIX says.
--   Daemon/ExecCmdService: `ExecCmdServiceImpl` and its `Fsm` of
--     src/daemon/engine/svc/node/exec_cmd_service.cpp. `fsms` is id_to_fsm_ with the keys of each
--     node_id_to_op_; the Cyphal calls are the argument `Cyphal`. Its child Stage is the life of a
--     request.
--   Sdk/ExecCmdClient: the event handlers of `ExecCmdClientImpl` of
--     src/sdk/svc/node/exec_cmd_client.cpp; an association list is node_id_to_response_.
--   Sdk/Command: the service of the daemon and that client, joined by one channel, with calls for other
--     requests between (its children). `Link` has the error codes of the channel's messages: what gives an
--     error is lost (exec_cmd_service.cpp only logs it), the rest arrives in order.
--   Sdk/NodeCommandClient, Sdk/Daemon: src/sdk/node_command_client.cpp and src/sdk/daemon.cpp.
--   Io/Tests, Platform/Tests, Platform/KqueueTests, Ipc/Tests, Daemon/Tests, Daemon/EngineTests,
--     Daemon/MainTests, Sdk/Tests: concrete states, and the theorems listed below at work on them.
--
-- Callbacks. Event handlers, channel factories and the pipe are fields of `Env`. A handler maps the
-- whole router state to a new one, so it may send, subscribe, complete or drop any channel. `Keeps`,
-- `Spares`, `Minds` and `Adopts` say what a theorem expects of them, `IsQuiet` that they keep the
-- state, for theorems that state exactly what the router itself does.
--
-- Bounds. Tags, sequence numbers and sizes wrap modulo 2 ^ 64 where the source's do. The loop
-- over the names of interfaces has fuel, the length of the text and two, which is proved to be enough; all
-- other loops are structural. Unordered maps are association lists; the order of a list is
-- one order in which the source may visit it.
--
-- Not modelled. Logging, memory allocation and its failures, threads (there are none), and the state of
-- moved-from values but for descriptors; the moves of channels, service ids, and what libcyphal does
-- behind the transports and the base class of the executors, whose effects here are arguments; vendored
-- drivers, the set-up of the loggers but for the descriptors of their sinks, and the command-line client.
pub mod Base
pub mod Posix
pub mod Platform
pub mod Io
pub mod Ipc
pub mod Daemon
pub mod Sdk
