-- ===== src/Ipc/ErrorCode.antt =====
-- `ErrorCode` of src/common/ipc/ipc_types.hpp. It has `int` below it, and any `int` may be cast to it.
use yakut_native.Base.{ℤ, pos}
use yakut_native.Posix.{enotconn, econnreset, eshutdown}

abbrev pub success : ℤ
success = pos 0

abbrev pub not_connected : ℤ
not_connected = pos enotconn

abbrev pub disconnected : ℤ
disconnected = pos econnreset

abbrev pub shutdown : ℤ
shutdown = pos eshutdown
