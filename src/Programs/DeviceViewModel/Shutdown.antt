-- ===== src/Programs/DeviceViewModel/Shutdown.antt =====
-- The user interface quits: in time, and too early where the clock of milliseconds wraps.
use agentic_engineering_trai.Base.{
  ◌+◌, ◌*◌, ◌%◌, ◌^◌, ◌≤◌, ◌<◌, ◌≡◌, ◌∙◌, ap, ◌⊎◌, inl, inr, refl, List, [], ◌∷◌, Bool, true, false,
  ◌||◌, Option, none, some, arith, Bool-cases, branch, length, leb, u32, subst, sym, if◌then◌else◌,
}
use agentic_engineering_trai.Common.Floats.{Floats}
use agentic_engineering_trai.Hal.Uart.{Uart}
use agentic_engineering_trai.App.McuClient.Deadline.{pump_total}
use agentic_engineering_trai.App.Cooking.Controller.{SessionState, is_running, stop_session}
use agentic_engineering_trai.App.Runtime.{ApplicationRuntime, tick_1ms, after_poll}
use agentic_engineering_trai.Programs.DeviceViewModel.{
  DeviceViewModel, vm_ms, is_over, refresh_ui, finish_ui, request_shutdown, divide_refresh,
  must_finish, check_shutdown, after_tick, tick_ui, put_client, vm_client,
}

-- What the machine does in a millisecond: the UART changes, and the socket is connected or not.
pub record Passing : Type 0 where
  pub change : Uart → Uart
  pub transport : Bool

busy : (s : SessionState) → is_running s ≡ true → is_over s ≡ false
busy s h = ground arith

module _ (fl : Floats) where
  open fl use {Float}

  unfoldable pub pass : DeviceViewModel Float → Passing → Option (DeviceViewModel Float)
  pass m p =
      tick_ui fl (put_client m (record (vm_client m) { uart = p.change (vm_client m).uart }))
        p.transport

  abbrev pub repeat_tick :
      Option (DeviceViewModel Float)
      → (DeviceViewModel Float → Option (DeviceViewModel Float))
      → Option (DeviceViewModel Float)
  repeat_tick none next = none
  repeat_tick (some m) next = next m

  -- The timer fires once for each millisecond, until it is stopped.
  unfoldable pub run_timer : List Passing → DeviceViewModel Float → Option (DeviceViewModel Float)
  run_timer [] m = some m
  run_timer (p ∷ ps) m =
      let rest = repeat_tick (pass m p) (run_timer ps) in if m.timer_active then rest else some m

  -- Every millisecond ends, and is what `tick` makes of a runtime behind its own.
  pass_total :
      (m : DeviceViewModel Float) (p : Passing)
      → (r : ApplicationRuntime Float) × (pass m p
          ≡ some (
              after_tick fl
                (record m { now_us = (m.now_us + 1000) % 2 ^ 64; runtime = r })
                p.transport))
  unfolding pass tick_ui tick_1ms
  pass_total m p =
      let later : DeviceViewModel Float =
        record (put_client m (record (vm_client m) { uart = p.change (vm_client m).uart })) {
          now_us = (m.now_us + 1000) % 2 ^ 64;
        } in
      let (client, polled) = pump_total (vm_client later) (vm_ms later) in
      (after_poll fl later.runtime client (vm_ms later), rw polled refl)

  timer_round :
      (p : Passing) (ps : List Passing) (m next : DeviceViewModel Float)
      → m.timer_active ≡ true
      → pass m p ≡ some next
      → run_timer (p ∷ ps) m ≡ run_timer ps next
  unfolding run_timer
  timer_round p ps m next active e = simp (active, e) refl

  -- The program waits for its shutdown, at the same time with the same deadline.
  pub record Waits (m after : DeviceViewModel Float) : Type 0 where
    pub asked : after.shutdown_requested ≡ true
    pub deadline : after.shutdown_deadline_ms ≡ m.shutdown_deadline_ms
    pub now : after.now_us ≡ m.now_us
    pub active : after.timer_active ≡ m.timer_active

  abbrev HasQuit : DeviceViewModel Float → Type 0
  HasQuit m = (m.ready_to_quit ≡ true) × (m.timer_active ≡ false)

  check_shutdown_deadline :
      (m : DeviceViewModel Float)
      → m.shutdown_requested ≡ true
      → HasQuit (check_shutdown fl m)
        ⊎ (vm_ms m < m.shutdown_deadline_ms) × (check_shutdown fl m ≡ m)
  unfolding check_shutdown finish_ui
  check_shutdown_deadline m asked = elim (Bool-cases (must_finish fl m)) [
    | inl e ↦ simp (asked, e) (inl (refl, refl))
    | inr e ↦ simp (asked, e) (inr (ground (arith, e), refl))
  ]

  divide_refresh-Waits :
      (m : DeviceViewModel Float) (transport : Bool)
      → m.shutdown_requested ≡ true
      → Waits m (divide_refresh fl m transport)
  unfolding refresh_ui
  divide_refresh-Waits m transport asked =
      branch (Waits m) (leb 25 (m.refresh_divider + 1))
        (λ e. record { asked = asked; deadline = refl; now = refl; active = refl })
        (λ e. record { asked = asked; deadline = refl; now = refl; active = refl })

  -- A tick quits, or the deadline is still ahead.
  after_tick_deadline :
      (m : DeviceViewModel Float) (transport : Bool)
      → m.shutdown_requested ≡ true
      → HasQuit (after_tick fl m transport)
        ⊎ (vm_ms m < m.shutdown_deadline_ms) × Waits m (after_tick fl m transport)
  unfolding after_tick
  after_tick_deadline m transport asked =
      let d = divide_refresh fl m transport in
      let w = divide_refresh-Waits m transport asked in
      elim (check_shutdown_deadline d w.asked) [
        | inl quit ↦ inl quit
        | inr (ahead, same) ↦
            inr (ground (arith, ahead, w.deadline, w.now), subst (Waits m) (sym same) w)
      ]

  run_timer-HasQuit :
      (ps : List Passing) (m : DeviceViewModel Float) → HasQuit m → run_timer ps m ≡ some m
  unfolding run_timer
  run_timer-HasQuit [] m h = refl
  run_timer-HasQuit (p ∷ ps) m h = simp h.1 refl

  run_timer_ends :
      (ps : List Passing) (m : DeviceViewModel Float)
      → m.timer_active ≡ true
      → m.shutdown_requested ≡ true
      → vm_ms m < m.shutdown_deadline_ms
      → m.now_us + 1000 * length ps < 4294967296000
      → m.shutdown_deadline_ms ≤ vm_ms m + length ps
      → (m' : DeviceViewModel Float) × (run_timer ps m ≡ some m') × HasQuit m'
  run_timer_ends [] m active asked ahead clock enough = absurd (omega arith)
  run_timer_ends (p ∷ ps) m active asked ahead clock enough =
      let (r, e) = pass_total m p in
      let behind : DeviceViewModel Float = record m {
        now_us = (m.now_us + 1000) % 2 ^ 64;
        runtime = r;
      } in
      let next = after_tick fl behind p.transport in
      let round = timer_round p ps m next active e in
      elim (after_tick_deadline behind p.transport asked) [
        | inl quit ↦ (next, round ∙ run_timer-HasQuit ps next quit, quit)
        | inr (still, w) ↦
            let (m', ran, quit) =
              run_timer_ends ps next (w.active ∙ active) w.asked
                (omega (arith, still, w.now, w.deadline)) (omega (arith, w.now))
                (omega (arith, w.now, w.deadline, clock)) in
            (m', round ∙ ran, quit)
      ]

  -- The program behind a request that stops the session.
  asked_at : DeviceViewModel Float → DeviceViewModel Float
  asked_at m = record m {
    shutdown_requested = true;
    shutdown_deadline_ms = u32 (vm_ms m + 1000);
    runtime = record m.runtime { controller = stop_session fl m.runtime.controller };
  }

  request_shutdown_over :
      (m : DeviceViewModel Float)
      → m.ready_to_quit ≡ false
      → m.shutdown_requested ≡ false
      → is_over m.runtime.controller.state ≡ true
      → request_shutdown fl m ≡ finish_ui m
  unfolding request_shutdown
  request_shutdown_over m waiting unasked over =
      branch (λ k. k ≡ finish_ui m) (m.ready_to_quit || m.shutdown_requested)
        (λ e. absurd (ground (arith, e, waiting, unasked)))
        (λ e.
          branch (λ k. k ≡ finish_ui m) (is_over m.runtime.controller.state) (λ f. refl)
            (λ f. absurd (ground (arith, f, over))))

  request_shutdown_asked :
      (m : DeviceViewModel Float)
      → m.ready_to_quit ≡ false
      → m.shutdown_requested ≡ false
      → is_over m.runtime.controller.state ≡ false
      → request_shutdown fl m ≡ asked_at m
  unfolding request_shutdown asked_at
  request_shutdown_asked m waiting unasked busy =
      branch (λ k. k ≡ asked_at m) (m.ready_to_quit || m.shutdown_requested)
        (λ e. absurd (ground (arith, e, waiting, unasked)))
        (λ e.
          branch (λ k. k ≡ asked_at m) (is_over m.runtime.controller.state)
            (λ f. absurd (ground (arith, f, busy))) (λ f. refl))

  finish_ui-HasQuit : (m : DeviceViewModel Float) → HasQuit (finish_ui m)
  unfolding finish_ui
  finish_ui-HasQuit m = (refl, refl)

  run_timer-asked_at :
      (ps : List Passing) (m : DeviceViewModel Float)
      → m.timer_active ≡ true
      → m.now_us + 1000 * length ps < 4294967296000
      → vm_ms m + 1000 < 4294967296
      → 1000 ≤ length ps
      → (m' : DeviceViewModel Float) × (run_timer ps (asked_at m) ≡ some m') × HasQuit m'
  unfolding asked_at
  run_timer-asked_at ps m active clock room enough =
      run_timer_ends ps (asked_at m) active refl (omega arith) clock (omega arith)

  -- A program that was asked to quit does so within 1000 ticks of its timer, whatever the UART and the
  -- socket do, where the clock of milliseconds does not wrap meanwhile.
  pub run_timer-request_shutdown :
      (ps : List Passing) (m : DeviceViewModel Float)
      → m.timer_active ≡ true
      → m.ready_to_quit ≡ false
      → m.shutdown_requested ≡ false
      → m.now_us + 1000 * length ps < 4294967296000
      → 1000 ≤ length ps
      → (m' : DeviceViewModel Float) × (run_timer ps (request_shutdown fl m) ≡ some m')
        × (m'.ready_to_quit ≡ true)
        × (m'.timer_active ≡ false)
  run_timer-request_shutdown ps m active waiting unasked clock enough =
      elim (Bool-cases (is_over m.runtime.controller.state)) [
        | inl e ↦
            let quit = finish_ui-HasQuit m in
            (
              finish_ui m,
              ap (run_timer ps) (request_shutdown_over m waiting unasked e)
                  ∙ run_timer-HasQuit ps (finish_ui m) quit,
              quit.0,
              quit.1,
            )
        | inr e ↦
            let (m', ran, quit) = run_timer-asked_at ps m active clock (omega arith) enough in
            (
              m',
              ap (run_timer ps) (request_shutdown_asked m waiting unasked e) ∙ ran,
              quit.0,
              quit.1,
            )
      ]

  -- In the last second before the clock of milliseconds wraps, a program that is asked to quit while
  -- its session runs quits at the next tick, whatever becomes of the session.
  pub pass-request_shutdown :
      (m : DeviceViewModel Float) (p : Passing)
      → m.ready_to_quit ≡ false
      → m.shutdown_requested ≡ false
      → is_running m.runtime.controller.state ≡ true
      → 4294966296000 ≤ m.now_us
      → m.now_us < 4294967295000
      → (m' : DeviceViewModel Float) × (pass (request_shutdown fl m) p ≡ some m')
        × (m'.ready_to_quit ≡ true)
  unfolding asked_at
  pass-request_shutdown m p waiting unasked runs late before =
      let (r, e) = pass_total (asked_at m) p in
      let behind : DeviceViewModel Float = record (asked_at m) {
        now_us = (m.now_us + 1000) % 2 ^ 64;
        runtime = r;
      } in
      let same = request_shutdown_asked m waiting unasked (busy m.runtime.controller.state runs) in
      elim (after_tick_deadline behind p.transport refl) [
        | inl quit ↦ (after_tick fl behind p.transport, ap (λ k. pass k p) same ∙ e, quit.0)
        | inr (still, w) ↦ absurd (omega (arith, still))
      ]
