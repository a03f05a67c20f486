-- ===== src/Common/Logging.antt =====
-- common/logging.cpp: the names of the status codes, and which messages the sink is given. `text` is what
-- `vsnprintf` writes, and a sink is the list of what it was given.
use Prim.Native.String.{String}
use agentic_engineering_trai.Base.{
  ℕ, List, [], ◌∷◌, ◌++◌, Option, none, some, ltb, if◌then◌else◌, take,
}
use agentic_engineering_trai.Common.Status.{
  Status, ok, timeout, crc_mismatch, overflow, invalid_argument, not_ready, hardware_fault,
  protocol_error,
}

abbrev pub status_name : Status → String
status_name ok = "Ok"
status_name timeout = "Timeout"
status_name crc_mismatch = "CrcMismatch"
status_name overflow = "Overflow"
status_name invalid_argument = "InvalidArgument"
status_name not_ready = "NotReady"
status_name hardware_fault = "HardwareFault"
status_name protocol_error = "ProtocolError"

pub data LogLevel : Type 0 where
  debug info warn error : LogLevel

-- `static_cast<int>(level)`
abbrev pub level_code : LogLevel → ℕ
level_code debug = 0
level_code info = 1
level_code warn = 2
level_code error = 3

-- The sink by its number, 0 for `default_sink`, and what was given to the sinks.
pub record Logger : Type 0 where
  pub sink : ℕ
  pub level : LogLevel
  pub messages : List (ℕ × LogLevel × List ℕ)

abbrev pub new_logger : Logger
new_logger = record { sink = 0; level = info; messages = [] }

-- None is a null pointer.
abbrev pub set_log_sink : Logger → Option ℕ → Logger
set_log_sink l none = record l { sink = 0 }
set_log_sink l (some sink) = record l { sink = sink }

abbrev pub set_log_level : Logger → LogLevel → Logger
set_log_level l level = record l { level = level }

-- The buffer has room for 191 characters.
unfoldable pub log_message : Logger → LogLevel → List ℕ → Logger
log_message l level text =
    if ltb (level_code level) (level_code l.level)
    then l
    else record l { messages = l.messages ++ (l.sink, level, take 191 text) ∷ [] }
