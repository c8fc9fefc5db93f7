-- ===== src/Sdk/NodeCommandClient.antt =====
-- `NodeCommandClientImpl` of src/sdk/node_command_client.cpp: the commands to nodes, as requests to the
-- daemon.
--
-- `commands` has the command numbers of uavcan.node.ExecuteCommand.
use yakut_native.Base.{
  ℕ, ◌+◌, ◌-◌, ◌^◌, ◌≡◌, ◌<◌, List, [], ◌∷◌, ℤ, pos, negsuc, ltb, if◌then◌else◌, Text, arith, Map,
}
use yakut_native.Daemon.ExecCmdService.{Answer}
use yakut_native.Sdk.ExecCmdClient.{
  ExecCmdClient, Result, success, failure, ChannelEvent, handle_all,
}

pub record Commands : Type 0 where
  pub restart : ℕ
  pub begin_software_update : ℕ

pub record NodeRequest : Type 0 where
  pub command : ℕ
  pub parameter : Text

-- ExecCmdSpec::Request
pub record Request : Type 0 where
  pub timeout_us : ℕ
  pub node_ids : List ℕ
  pub payload : NodeRequest

-- A signed 64-bit count as `std::uint64_t`, and `std::max<std::uint64_t>(0, count)`.
unfoldable pub u64_of : ℤ → ℕ
u64_of (pos n) = n
u64_of (negsuc n) = 2 ^ 64 - (n + 1)

unfoldable pub timeout_us : ℤ → ℕ
unfolding u64_of
timeout_us count = if ltb 0 (u64_of count) then u64_of count else 0

unfoldable pub send_command : List ℕ → NodeRequest → ℤ → Request
unfolding timeout_us
send_command node_ids node_request timeout = record {
  timeout_us = timeout_us timeout;
  node_ids = node_ids;
  payload = node_request;
}

unfoldable pub restart : Commands → List ℕ → ℤ → Request
unfolding send_command
restart commands node_ids timeout =
    send_command node_ids (record { command = commands.restart; parameter = [] }) timeout

unfoldable pub begin_software_update : Commands → List ℕ → Text → ℤ → Request
unfolding send_command
begin_software_update commands node_ids file_path timeout =
    send_command node_ids
      (record { command = commands.begin_software_update; parameter = file_path }) timeout

-- `CommandSender::transform`: Command::Result of the result of the service client.
pub data CommandResult : Type 0 where
  command_success : Map Answer → CommandResult
  command_failure : ℤ → CommandResult

unfoldable pub transform : Result → CommandResult
transform (success responses) = command_success responses
transform (failure err) = command_failure err

abbrev transform_all : List Result → List CommandResult
transform_all [] = []
transform_all (r ∷ rs) = transform r ∷ transform_all rs

-- `submitImpl`: what the receiver of a command is called with, latest first.
unfoldable pub submit : List ChannelEvent → ExecCmdClient → List CommandResult
unfolding transform
submit events s = transform_all (handle_all events s).results

-- A negative timeout is not taken as zero: it is sent as a number of the upper half of the 64-bit range.
pub timeout_us-negative : (n : ℕ) → n < 2 ^ 63 → timeout_us (negsuc n) ≡ 2 ^ 64 - (n + 1)
unfolding timeout_us u64_of
timeout_us-negative n h = ground (arith, h)
