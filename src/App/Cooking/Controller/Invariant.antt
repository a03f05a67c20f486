-- ===== src/App/Cooking/Controller/Invariant.antt =====
-- The invariant of the cooking session: what its flags mean in each state.
use agentic_engineering_trai.Base.{
  ℕ, ◌≡◌, refl, sym, ap, ◌∙◌, Bool, true, false, ◌||◌, Option, none, some, inl, inr, arith,
  Bool-cases,
}
use agentic_engineering_trai.Common.Floats.{Floats}
use agentic_engineering_trai.Protocol.Wire.{Frame}
use agentic_engineering_trai.App.McuClient.{McuClient}
use agentic_engineering_trai.Sim.Watchdog.{Watchdog}
use agentic_engineering_trai.App.Cooking.Program.{Program}
use agentic_engineering_trai.App.Cooking.Controller.{
  CookingController, SessionState, is_running, is_stopping, is_faulted, done, is_some,
  new_controller, begin_program, begin_shutdown, start_program, stop_session, acknowledge, resend,
  finish_shutdown, proceed,
}

abbrev pub is_done : SessionState → Bool
is_done done = true
is_done _ = false

pub record IsValid {F : Type 0} (c : CookingController F) : Type 0 where
  -- The heater is switched off first.
  pub motor_second : c.shutdown_motor_sent ≡ true → c.shutdown_heater_done ≡ true
  pub in_order : c.shutdown_motor_done ≡ true → c.shutdown_heater_done ≡ true
  -- A session is done when both commands have been acknowledged.
  pub done_off : is_done c.state ≡ true → c.shutdown_motor_done ≡ true
  -- The session is faulted exactly when its shutdown is that of a fault.
  pub fault_state : is_faulted c.state ≡ c.fault_shutdown
  -- A program waits only while the outputs are being switched off.
  pub waits : c.start_after_shutdown ≡ true → is_stopping c.state ≡ true
  pub pending : is_some c.pending_program ≡ c.start_after_shutdown
  pub has_program : is_running c.state ≡ true → is_some c.program ≡ true

module _ (fl : Floats) where
  open fl use {Float}

  pub new_controller-IsValid : (m : McuClient) (w : Watchdog) → IsValid (new_controller fl m w)
  new_controller-IsValid m w = ground arith

  pub begin_shutdown-IsValid :
      (c : CookingController Float) (fault : Bool) → IsValid (begin_shutdown fl c fault)
  unfolding begin_shutdown
  begin_shutdown-IsValid c true = ground arith
  begin_shutdown-IsValid c false = ground arith

  pub start_program-IsValid :
      (c : CookingController Float) (p : Option Program)
      → IsValid c
      → IsValid (start_program fl c p).0
  unfolding start_program begin_shutdown
  start_program-IsValid c none v = v
  start_program-IsValid c (some p) v = ground arith

  pub stop_session-IsValid : (c : CookingController Float) → IsValid c → IsValid (stop_session fl c)
  unfolding stop_session begin_shutdown
  stop_session-IsValid c v = ground arith

  pub acknowledge-IsValid :
      (c : CookingController Float) (r : Option Frame) → IsValid c → IsValid (acknowledge fl c r)
  unfolding acknowledge
  acknowledge-IsValid c none v = v
  acknowledge-IsValid c (some r) v = ground arith

  pub resend-IsValid : (c : CookingController Float) → IsValid c → IsValid (resend fl c)
  unfolding resend
  resend-IsValid c v = ground arith

  begin_program-IsValid :
      (c : CookingController Float) (p : Program) (now : ℕ) → IsValid (begin_program fl c p now)
  unfolding begin_program
  begin_program-IsValid c p now = ground arith

  finish_shutdown-IsValid :
      (o : Option Program) (c : CookingController Float) (now : ℕ)
      → c.pending_program ≡ o
      → c.shutdown_motor_done ≡ true
      → IsValid c
      → IsValid (finish_shutdown fl o c now)
  unfolding finish_shutdown
  finish_shutdown-IsValid none c now e halt v =
      let unstarted : c.start_after_shutdown ≡ false = sym v.pending ∙ ap is_some e in ground arith
  finish_shutdown-IsValid (some p) c now e halt v =
      let starts : c.start_after_shutdown ≡ true = sym v.pending ∙ ap is_some e in
      let calm : c.fault_shutdown ≡ false = ground arith in
      rw (starts, calm) (begin_program-IsValid _ p now)

  -- The session moves on under the invariant.
  pub proceed-IsValid :
      (c : CookingController Float) (now : ℕ)
      → (is_stopping c.state || is_faulted c.state) ≡ true
      → IsValid c
      → IsValid (proceed fl c now)
  unfolding proceed
  proceed-IsValid c now h v = elim (Bool-cases c.shutdown_heater_done) [
    | inr cold ↦ rw cold (ground arith)
    | inl cold ↦ elim (Bool-cases c.shutdown_motor_done) [
      | inr halt ↦ rw (cold, halt) (ground arith)
      | inl halt ↦ simp (cold, halt) (finish_shutdown-IsValid c.pending_program c now refl halt v)
    ]
  ]
