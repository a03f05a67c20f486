-- ===== src/App/Cooking/Controller/Tick.antt =====
-- The tick of the cooking session: the invariant, when a program may start, and what a fault does.
use agentic_engineering_trai.Base.{
  ℕ, ◌≡◌, refl, ◌∙◌, true, false, not, ◌&&◌, ◌||◌, Option, none, some, inl, inr, arith, ◌==◌,
  Bool-cases, sub_u32,
}
use agentic_engineering_trai.Common.Status.{is_ok}
use agentic_engineering_trai.Common.Floats.{Floats}
use agentic_engineering_trai.Protocol.Wire.{Frame}
use agentic_engineering_trai.App.Cooking.Program.{Program, program_on_tick, program_finished}
use agentic_engineering_trai.App.Cooking.Controller.{
  CookingController, is_running, is_stopping, is_faulted, step_busy, acknowledge, resend,
  run_stopping_sequence, refresh, check_failure, run_program, advance_with, advance_session,
  tick_10ms,
}
use agentic_engineering_trai.App.Cooking.Controller.Invariant.{
  IsValid, begin_shutdown-IsValid, acknowledge-IsValid, resend-IsValid, proceed-IsValid,
}

module _ (fl : Floats) where
  open fl use {Float}

  acknowledge-state :
      (c : CookingController Float) (r : Option Frame) → (acknowledge fl c r).state ≡ c.state
  unfolding acknowledge
  acknowledge-state c none = refl
  acknowledge-state c (some r) = ground arith

  resend-state : (c : CookingController Float) → (resend fl c).state ≡ c.state
  unfolding resend
  resend-state c = ground arith

  -- The session between its acknowledgement and its next command.
  pub answered-state :
      (c : CookingController Float) (r : Option Frame)
      → (resend fl (acknowledge fl c r)).state ≡ c.state
  answered-state c r = resend-state (acknowledge fl c r) ∙ acknowledge-state c r

  run_stopping_sequence-IsValid :
      (c : CookingController Float) (r : Option Frame) (now : ℕ)
      → (is_stopping c.state || is_faulted c.state) ≡ true
      → IsValid c
      → IsValid (run_stopping_sequence fl c r now)
  unfolding run_stopping_sequence
  run_stopping_sequence-IsValid c r now h v =
      proceed-IsValid fl (resend fl (acknowledge fl c r)) now (rw (answered-state c r) h)
        (resend-IsValid fl (acknowledge fl c r) (acknowledge-IsValid fl c r v))

  run_program-IsValid :
      (c : CookingController Float) (p : Program) (now : ℕ)
      → is_running c.state ≡ true
      → IsValid c
      → IsValid (run_program fl c p now)
  unfolding run_program
  run_program-IsValid c p now h v =
      let elapsed_ms = sub_u32 now c.started_ms in
      let (q, client) = program_on_tick fl p c.client now elapsed_ms in
      elim (Bool-cases (program_finished q elapsed_ms)) [
        | inl e ↦ rw e (begin_shutdown-IsValid fl _ false)
        | inr e ↦ rw e (record {
          motor_second = v.motor_second;
          in_order = v.in_order;
          done_off = v.done_off;
          fault_state = v.fault_state;
          waits = v.waits;
          pending = v.pending;
          has_program = λ k. refl;
        })
      ]

  advance_with-IsValid :
      (o : Option Program) (c : CookingController Float) (r : Option Frame) (now : ℕ)
      → IsValid c
      → IsValid (advance_with fl o c r now)
  unfolding advance_with
  advance_with-IsValid none c r now v =
      elim (Bool-cases (is_stopping c.state || is_faulted c.state)) [
        | inl e ↦ rw e (run_stopping_sequence-IsValid c r now e v)
        | inr e ↦ rw e v
      ]
  advance_with-IsValid (some p) c r now v = elim (Bool-cases (is_running c.state)) [
    | inl run ↦ rw run (run_program-IsValid c p now run v)
    | inr run ↦ elim (Bool-cases (is_stopping c.state || is_faulted c.state)) [
      | inl e ↦ rw (run, e) (run_stopping_sequence-IsValid c r now e v)
      | inr e ↦ rw (run, e) v
    ]
  ]

  pub refresh-IsValid :
      (c : CookingController Float) (now : ℕ) → IsValid c → IsValid (refresh fl c now).0
  unfolding refresh
  refresh-IsValid c now v = record {
    motor_second = v.motor_second;
    in_order = v.in_order;
    done_off = v.done_off;
    fault_state = v.fault_state;
    waits = v.waits;
    pending = v.pending;
    has_program = v.has_program;
  }

  pub check_failure-IsValid :
      (c : CookingController Float) → IsValid c → IsValid (check_failure fl c)
  unfolding check_failure
  check_failure-IsValid c v =
      elim (Bool-cases (
        not (is_faulted c.state)
        && (not (c.client.last_fault == 0) || not (is_ok c.client.last_command_status)))) [
          | inl e ↦ rw e (begin_shutdown-IsValid fl c true)
          | inr e ↦ rw e v
        ]

  pub with_ota-IsValid :
      (c : CookingController Float) → IsValid c → IsValid (record c { ota = step_busy fl c.ota })
  with_ota-IsValid c v = record {
    motor_second = v.motor_second;
    in_order = v.in_order;
    done_off = v.done_off;
    fault_state = v.fault_state;
    waits = v.waits;
    pending = v.pending;
    has_program = v.has_program;
  }

  -- A tick keeps the invariant of the session: among others, a session is done only when both outputs
  -- have been acknowledged as off, the heater before the motor.
  pub tick_10ms-IsValid :
      (c : CookingController Float) (now : ℕ) → IsValid c → IsValid (tick_10ms fl c now)
  unfolding tick_10ms advance_session
  tick_10ms-IsValid c now v =
      let (c₁, r) = refresh fl c now in
      let w =
        with_ota-IsValid (check_failure fl c₁)
          (check_failure-IsValid c₁ (refresh-IsValid c now v)) in
      advance_with-IsValid _ _ r now w
