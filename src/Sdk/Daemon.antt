-- ===== src/Sdk/Daemon.antt =====
-- `DaemonImpl` of src/sdk/daemon.cpp: the SDK's connection to the daemon.
--
-- `router_start` is what `ClientRouter::start` returns on the pipe for the address.
use yakut_native.Base.{Option, none, some, ℤ, pos, is_zero, if◌then◌else◌, Text}
use yakut_native.Io.SocketAddress.{Libc, SocketAddress, ParseResult, success, failure, parse}

-- The result, and the address of the pipe that was made.
pub record Started : Type 0 where
  pub result : ℤ
  pub pipe : Option SocketAddress

module _ (libc : Libc) (router_start : SocketAddress → ℤ) where
  unfoldable pub with_address : ParseResult → Started
  with_address (failure err) = record { result = pos err; pipe = none }
  with_address (success address) = record { result = router_start address; pipe = some address }

  unfoldable pub start : Text → Started
  unfolding with_address
  start connection = with_address (parse libc connection 0)

  -- `Daemon::make`: whether there is a daemon, on its pipe.
  unfoldable pub make : Text → Option Started
  unfolding start
  make connection = if is_zero (start connection).result then some (start connection) else none
