-- ===== src/Sim/Lid.antt =====
-- sim/lid_model.h: a lid with an electromagnetic lock.
use agentic_engineering_trai.Base.{Bool, true, false, ◌≡◌, arith, if◌then◌else◌}

pub record LidModel : Type 0 where
  pub closed : Bool
  pub locked : Bool

unfoldable pub user_open : LidModel → LidModel
user_open l = if l.locked then l else record l { closed = false }

unfoldable pub user_close : LidModel → LidModel
user_close l = record l { closed = true }

unfoldable pub set_lock : LidModel → Bool → LidModel
set_lock l locked = if l.closed then record l { locked = locked } else l

-- What can happen to the lid: the user, or the lock.
pub data LidEvent : Type 0 where
  opens closes : LidEvent
  locks : Bool → LidEvent

unfoldable pub lid_step : LidModel → LidEvent → LidModel
unfolding user_open user_close set_lock
lid_step l opens = user_open l
lid_step l closes = user_close l
lid_step l (locks b) = set_lock l b

-- A locked lid is closed.
abbrev pub IsLatched : LidModel → Type 0
IsLatched l = l.locked ≡ true → l.closed ≡ true

-- No use of the lid leads to a lid that is locked and open, and a locked lid stays closed until the
-- lock is released.
pub lid_step-IsLatched :
    (l : LidModel) (e : LidEvent)
    → IsLatched l
    → IsLatched (lid_step l e) × (l.locked ≡ true → (lid_step l e).closed ≡ true)
unfolding lid_step
lid_step-IsLatched l opens h = ground arith
lid_step-IsLatched l closes h = ground arith
lid_step-IsLatched l (locks b) h = ground arith
