-- ===== src/Sim/Watchdog.antt =====
-- sim/sim_board.h: the watchdog of the application processor.
use agentic_engineering_trai.Base.{ℕ, Bool, true, false, ◌&&◌, ltb, if◌then◌else◌, sub_u32}

abbrev pub watchdog_timeout_ms : ℕ
watchdog_timeout_ms = 500

pub record Watchdog : Type 0 where
  pub last_feed_ms : ℕ
  pub armed : Bool
  pub tripped : Bool

abbrev pub new_watchdog : Watchdog
new_watchdog = record { last_feed_ms = 0; armed = false; tripped = false }

-- `now` is the clock during the call.
unfoldable pub feed_watchdog : Watchdog → ℕ → Watchdog
feed_watchdog w now = record w { armed = true; last_feed_ms = now }

unfoldable pub check_watchdog : Watchdog → ℕ → Watchdog
check_watchdog w now =
    if w.armed && ltb watchdog_timeout_ms (sub_u32 now w.last_feed_ms)
    then record w { tripped = true }
    else w
