-- ===== src/Daemon/Media/Can.antt =====
-- `CanMedia` and `CanMediaCollection` of src/daemon/engine/platform/can/can_media.hpp: two sockets for each
-- interface.
--
-- The calls of the vendored driver are arguments: `opens` gives the outcome of each call of `socketcanOpen`,
-- counted from 0. `opened` and `closed` list the descriptors that it returned and that `::close` was called
-- with. The media of a collection are those that media_array_ has, in its order.
pub mod Conservation
use yakut_native.Base.{
  ℕ, ◌+◌, List, [], ◌∷◌, ◌++◌, Bool, true, false, Option, none, some, ℤ, pos, negsuc, ◌==◌,
  if◌then◌else◌, length, Text, c_str,
}
use yakut_native.Posix.{Outcome, returned, failed}
use yakut_native.Daemon.Media.{for_each_field}

pub record CanMedia : Type 0 where
  pub rx_fd : ℤ
  pub tx_fd : ℤ
  pub iface_address : Text

pub record Sockets : Type 0 where
  pub calls : ℕ
  pub opened : List ℕ
  pub closed : List ℕ

-- `if (fd >= 0) ::close(fd)`.
unfoldable pub close : ℤ → Sockets → Sockets
close (pos fd) w = record w { closed = fd ∷ w.closed }
close (negsuc n) w = w

-- ~CanMedia.
unfoldable pub destroy : CanMedia → Sockets → Sockets
unfolding close
destroy m w = close m.tx_fd (close m.rx_fd w)

-- The move constructor: the new object, and what is left of the old one.
unfoldable pub move_construct : CanMedia → CanMedia × CanMedia
move_construct m = (m, record m { rx_fd = negsuc 0; tx_fd = negsuc 0 })

pub data MakeResult : Type 0 where
  made : CanMedia → MakeResult
  platform_error : ℕ → MakeResult

-- A call of `socketcanOpen` is counted.
unfoldable pub note_open : Outcome ℕ → Sockets → Sockets
note_open (failed err) w = record w { calls = w.calls + 1 }
note_open (returned fd) w = record w { calls = w.calls + 1; opened = fd ∷ w.opened }

-- `make` after its second call.
unfoldable pub with_second : Text → ℕ → Outcome ℕ → Sockets → MakeResult × Sockets
unfolding close
with_second address rx (failed err) w = (platform_error err, close (pos rx) w)
with_second address rx (returned tx) w =
    (made (record { rx_fd = pos rx; tx_fd = pos tx; iface_address = address }), w)

-- fd_ after a socket was opened again, or not.
unfoldable pub reopened : Outcome ℕ → ℤ
reopened (returned fd) = pos fd
reopened (failed err) = negsuc 0

-- What the loop of `CanMediaCollection::parse` does with a result: the medium moves into the array, and
-- what is left of it goes.
unfoldable pub keep : List CanMedia → MakeResult × Sockets → (List CanMedia × Sockets) × Bool
unfolding move_construct destroy
keep media (made m, w) =
    ((media ++ (move_construct m).0 ∷ [], destroy (move_construct m).1 w), true)
keep media (platform_error err, w) = ((media, w), false)

-- The media that the collection had go first.
unfoldable pub reset : List CanMedia → Sockets → Sockets
unfolding destroy
reset [] w = w
reset (m ∷ ms) w = reset ms (destroy m w)

module _ (opens : ℕ → Text → Outcome ℕ) where
  unfoldable pub open_result : Text → Sockets → Outcome ℕ
  open_result address w = opens w.calls (c_str address)

  -- `make` after its first call.
  unfoldable pub with_first : Text → Outcome ℕ → Sockets → MakeResult × Sockets
  unfolding with_second note_open open_result
  with_first address (failed err) w = (platform_error err, w)
  with_first address (returned rx) w =
      with_second address rx (open_result address w) (note_open (open_result address w) w)

  unfoldable pub make : Text → Sockets → MakeResult × Sockets
  unfolding with_first note_open open_result
  make address w = with_first address (open_result address w) (note_open (open_result address w) w)

  unfoldable pub try_reopen : CanMedia → Sockets → CanMedia × Sockets
  unfolding close reopened note_open open_result
  try_reopen m w =
      let w' = close m.tx_fd (close m.rx_fd w) in
      let rx = open_result m.iface_address w' in
      let w'' = note_open rx w' in
      let tx = open_result m.iface_address w'' in
      (record m { rx_fd = reopened rx; tx_fd = reopened tx }, note_open tx w'')

  unfoldable pub emplace : ℕ → Text → List CanMedia × Sockets → (List CanMedia × Sockets) × Bool
  unfolding keep make
  emplace index address (media, w) = keep media (make address w)

  unfoldable pub parse : Text → List CanMedia → Sockets → Option ((List CanMedia × Sockets) × ℕ)
  unfolding emplace reset
  parse text media w = for_each_field emplace text ([], reset media w)

-- What the driver's calls return, as the interface reports it: `socketcanFilter` and `socketcanPush` by
-- their 16-bit result, negative for an error.
pub data MediaResult : Type 0 where
  done : MediaResult
  accepted : Bool → MediaResult
  media_error : ℕ → MediaResult

unfoldable pub set_filters : ℤ → MediaResult
set_filters (pos n) = done
set_filters (negsuc n) = media_error (n + 1)

-- `push`, with whether the payload is released.
unfoldable pub push : ℤ → MediaResult × Bool
push (negsuc n) = (media_error (n + 1), false)
push (pos n) = if n == 0 then (accepted false, false) else (accepted true, true)

pub record Frame : Type 0 where
  pub extended_can_id : ℕ
  pub payload_size : ℕ

pub data PopResult : Type 0 where
  pop_error : ℕ → PopResult
  nothing : PopResult
  popped : ℕ → Frame → PopResult

-- `pop`, of the driver's result and frame, at a time.
unfoldable pub pop : ℕ → ℤ → Frame → PopResult
pop now (negsuc n) frame = pop_error (n + 1)
pop now (pos n) frame = if n == 0 then nothing else popped now frame
