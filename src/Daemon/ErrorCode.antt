-- ===== src/Daemon/ErrorCode.antt =====
-- `errorToCode` of src/daemon/engine/engine_helpers.hpp: the `errno` value for a failure.
use yakut_native.Base.{ℕ}
use yakut_native.Posix.{einval}

abbrev ebusy : ℕ
ebusy = 16

abbrev eexist : ℕ
eexist = 17

abbrev enomem : ℕ
enomem = 12

abbrev etimedout : ℕ
etimedout = 110

-- The errors of libcyphal and of the serializers; a platform error has its code.
pub data Failure : Type 0 where
  memory capacity argument anonymous serialization already_exists promise_expired
        too_many_pending_requests :
      Failure
  platform : ℕ → Failure

unfoldable pub error_to_code : Failure → ℕ
error_to_code memory = enomem
error_to_code capacity = enomem
error_to_code argument = einval
error_to_code anonymous = einval
error_to_code serialization = einval
error_to_code already_exists = eexist
error_to_code (platform code) = code
error_to_code promise_expired = etimedout
error_to_code too_many_pending_requests = ebusy
