-- ===== src/App/Cooking/Controller/Safety.antt =====
-- When the cooking session may start a program, and what a fault of the machine does to it.
use agentic_engineering_trai.Base.{
  ℕ, ◌≡◌, refl, sym, ◌∙◌, Bool, true, false, not, ◌||◌, Option, none, some, arith, ◌==◌,
}
use agentic_engineering_trai.Common.Status.{is_ok}
use agentic_engineering_trai.Common.Floats.{Floats}
use agentic_engineering_trai.Protocol.Wire.{Frame}
use agentic_engineering_trai.App.McuClient.{take_response}
use agentic_engineering_trai.App.Cooking.Program.{Program}
use agentic_engineering_trai.App.Cooking.Controller.{
  CookingController, is_running, is_stopping, is_faulted, is_some, begin_shutdown, start_program,
  acknowledge, resend, finish_shutdown, proceed, run_stopping_sequence, refresh, check_failure,
  advance_with, advance_session, tick_10ms,
}
use agentic_engineering_trai.App.Cooking.Controller.Invariant.{IsValid, start_program-IsValid}
use agentic_engineering_trai.App.Cooking.Controller.Tick.{
  refresh-IsValid, check_failure-IsValid, with_ota-IsValid,
}

none_only : {A : Type 0} (o : Option A) → is_some o ≡ false → o ≡ none
none_only none h = refl
none_only (some a) h = cc

-- The session is faulted and no program waits to be started.
pub record IsDown {F : Type 0} (c : CookingController F) : Type 0 where
  pub faulted_state : is_faulted c.state ≡ true
  pub fault_shut : c.fault_shutdown ≡ true
  pub nothing_waits : c.pending_program ≡ none

module _ (fl : Floats) where
  open fl use {Float}

  valid-IsDown : {c : CookingController Float} → IsValid c → is_faulted c.state ≡ true → IsDown c
  valid-IsDown {c} v h = record {
    faulted_state = h;
    fault_shut = sym v.fault_state ∙ h;
    nothing_waits = none_only c.pending_program (ground arith);
  }

  acknowledge-IsDown :
      {c : CookingController Float} (r : Option Frame) → IsDown c → IsDown (acknowledge fl c r)
  unfolding acknowledge
  acknowledge-IsDown none d = d
  acknowledge-IsDown (some r) d = ground arith

  resend-IsDown : {c : CookingController Float} → IsDown c → IsDown (resend fl c)
  unfolding resend
  resend-IsDown d = ground arith

  finish_shutdown-IsDown :
      (o : Option Program) (c : CookingController Float) (now : ℕ)
      → IsDown c
      → IsDown (finish_shutdown fl o c now)
  unfolding finish_shutdown
  finish_shutdown-IsDown none c now d = ground arith
  finish_shutdown-IsDown (some p) c now d = let shut = d.fault_shut in ground arith

  proceed-IsDown : (c : CookingController Float) (now : ℕ) → IsDown c → IsDown (proceed fl c now)
  unfolding proceed
  proceed-IsDown c now d = ground (arith, finish_shutdown-IsDown c.pending_program c now d)

  advance_with-IsDown :
      (o : Option Program) (c : CookingController Float) (r : Option Frame) (now : ℕ)
      → IsDown c
      → IsDown (advance_with fl o c r now)
  unfolding advance_with run_stopping_sequence
  advance_with-IsDown none c r now d =
      let shut : (is_stopping c.state || is_faulted c.state) ≡ true = ground arith in
      rw shut (proceed-IsDown _ now (resend-IsDown (acknowledge-IsDown r d)))
  advance_with-IsDown (some p) c r now d =
      let shut : (is_stopping c.state || is_faulted c.state) ≡ true = ground arith in
      let still : is_running c.state ≡ false = ground arith in
      rw (still, shut) (proceed-IsDown _ now (resend-IsDown (acknowledge-IsDown r d)))

  -- The session is to fail: the client reports a fault or a failed command, or the session is faulted.
  abbrev pub has_failed : CookingController Float → Bool
  has_failed c =
      is_faulted c.state
      || (not (c.client.last_fault == 0) || not (is_ok c.client.last_command_status))

  pub refresh-has_failed :
      (c : CookingController Float) (now : ℕ) → has_failed (refresh fl c now).0 ≡ has_failed c
  unfolding refresh take_response
  refresh-has_failed c now = ground arith

  check_failure-IsDown :
      (c : CookingController Float)
      → IsValid c
      → has_failed c ≡ true
      → is_faulted (check_failure fl c).state ≡ true
  unfolding check_failure begin_shutdown
  check_failure-IsDown c v h = ground arith

  -- From a valid state in which the machine has reported a fault or a command has failed, and from
  -- every faulted one, a tick leads to a faulted session, with no program waiting to be started.
  pub tick_10ms-IsDown :
      (c : CookingController Float) (now : ℕ)
      → IsValid c
      → has_failed c ≡ true
      → IsDown (tick_10ms fl c now)
  unfolding tick_10ms advance_session
  tick_10ms-IsDown c now v h =
      let (c₁, r) = refresh fl c now in
      let w = refresh-IsValid fl c now v in
      let down = check_failure-IsDown c₁ w (refresh-has_failed c now ∙ h) in
      advance_with-IsDown _ _ r now (
        valid-IsDown (with_ota-IsValid fl (check_failure fl c₁) (check_failure-IsValid fl c₁ w))
          down)

  start_program-has_failed :
      (c : CookingController Float) (o : Option Program)
      → (c.client.last_fault == 0) ≡ false
      → has_failed (start_program fl c o).0 ≡ true
  unfolding start_program begin_shutdown
  start_program-has_failed c none h = ground arith
  start_program-has_failed c (some p) h = ground arith

  -- While the client holds a fault that the machine reported, a program that is started is dropped at
  -- the next tick, also when starting it was accepted, and the session is faulted again.
  pub tick_10ms-start_program :
      (c : CookingController Float) (o : Option Program) (now : ℕ)
      → IsValid c
      → (c.client.last_fault == 0) ≡ false
      → IsDown (tick_10ms fl (start_program fl c o).0 now)
  tick_10ms-start_program c o now v h =
      tick_10ms-IsDown (start_program fl c o).0 now (start_program-IsValid fl c o v)
        (start_program-has_failed c o h)
