-- ===== src/Common/Status.antt =====
-- common/result.h: the status codes and the result of an operation that can fail.
use agentic_engineering_trai.Base.{Bool, true, false}

pub data Status : Type 0 where
  ok timeout crc_mismatch overflow invalid_argument not_ready hardware_fault protocol_error : Status

-- `status == Status::Ok`
abbrev pub is_ok : Status → Bool
is_ok ok = true
is_ok _ = false

-- A failed `Result` still holds a default value.
pub record Result {ℓ} (A : Type ℓ) : Type ℓ where
  pub status : Status
  pub value : A
