-- ===== src/System/SystemSim/Guarded.antt =====
-- The whole device runs on, and what guards it holds: the safety MCU's requirements on the machine, and the
-- watchdog of the application processor.
use agentic_engineering_trai.Base.{
  ℕ, ◌+◌, ◌*◌, ◌/◌, ◌%◌, ◌^◌, ◌<◌, ◌≡◌, ◌⊎◌, refl, sym, ap, subst, ◌∙◌, inl, inr, List, [], ◌∷◌,
  Bool, true, false, Option, some, arith, Bool-cases, u32,
}
use agentic_engineering_trai.Common.Floats.{Floats, FloatLaws, of_nat}
use agentic_engineering_trai.Hal.Uart.{Uart}
use agentic_engineering_trai.Protocol.Wire.{sensor_failure}
use agentic_engineering_trai.Sim.Lid.{LidModel}
use agentic_engineering_trai.Sim.Plant.{clamp}
use agentic_engineering_trai.Sim.Board.{
  SimBoard, now_ms, step_board, set_power_w, command_duty, read_deci_celsius, add_mass, open_lid,
  close_lid, set_sensor_failed,
}
use agentic_engineering_trai.App.McuClient.{McuClient}
use agentic_engineering_trai.App.McuClient.Deadline.{pump_total}
use agentic_engineering_trai.App.Runtime.{ApplicationRuntime, after_poll}
use agentic_engineering_trai.App.Runtime
use agentic_engineering_trai.App.Runtime.Alive.{IsFresh, check_board, after_poll-IsFresh}
use agentic_engineering_trai.Mcu.Device.{Mcu}
use agentic_engineering_trai.Mcu.SafetyMcu.Tick.{IsControlled, IsSampled}
use agentic_engineering_trai.Mcu.SafetyMcu.Reach.{
  IsReachable, starts, ticks, reachable-IsControlled,
}
use agentic_engineering_trai.System.SystemSim.{
  SystemSim, Millisecond, hardware, drive_board, lend_app, step_system, new_system,
}

module _ (fl : Floats) where
  open fl use {Float, lt}

  -- What happens to the device: a millisecond passes, or the user or the test does something to the machine.
  pub data SystemEvent : Type 0 where
    passes_one : Millisecond Float → SystemEvent
    adds_mass : Float → SystemEvent
    opens_it closes_it : SystemEvent
    fails_sensor : Bool → SystemEvent

  unfoldable pub system_step : SystemSim Float → SystemEvent → Option (SystemSim Float)
  system_step s (passes_one i) = step_system fl s i
  system_step s (adds_mass grams) = some (record s { board = add_mass fl s.board grams })
  system_step s opens_it = some (record s { board = open_lid fl s.board })
  system_step s closes_it = some (record s { board = close_lid fl s.board })
  system_step s (fails_sensor failed) =
      some (record s { board = set_sensor_failed fl s.board failed })

  -- The safety MCU has come here by its ticks, and the watchdog was fed in time.
  pub record IsGuarded (s : SystemSim Float) : Type 0 where
    pub reached : IsReachable fl s.mcu
    pub fresh : IsFresh s.app.app_divider s.board.watchdog (now_ms fl s.board)

  -- The lid is open, or the temperature cannot be read.
  abbrev pub IsForbidden : SimBoard Float → Type 0
  IsForbidden b = (b.lid.closed ≡ false) ⊎ (b.sensor_failed ≡ true)

  module _ (laws : FloatLaws fl) where
    clamp_zero : clamp fl (of_nat fl 0) (of_nat fl 1200) (of_nat fl 0) ≡ of_nat fl 0
    clamp_zero =
        let never : lt (of_nat fl 1200) (of_nat fl 0) ≡ false = ground (
          arith,
          laws.int-tenths 1200 (omega arith),
          laws.int-tenths 0 (omega arith),
          laws.lt-tenths 12000 0 (omega arith) (omega arith),
        ) in
        ground (arith, never)

    -- What the MCU's tick shows at the machine.
    driven-heater :
        (b : SimBoard Float) (halted : Bool) (m : Mcu Float)
        → m.hw.power_w ≡ of_nat fl 0
        → (drive_board fl b halted m).heater_w ≡ of_nat fl 0
    unfolding drive_board set_power_w command_duty
    driven-heater b true m h = ap (clamp fl (of_nat fl 0) (of_nat fl 1200)) h ∙ clamp_zero
    driven-heater b false m h = ap (clamp fl (of_nat fl 0) (of_nat fl 1200)) h ∙ clamp_zero

    driven-now_us :
        (b : SimBoard Float) (halted : Bool) (m : Mcu Float)
        → (drive_board fl b halted m).now_us ≡ b.now_us
    unfolding drive_board set_power_w command_duty
    driven-now_us b true m = refl
    driven-now_us b false m = refl

    forbidden_off :
        (b : SimBoard Float) (i : Millisecond Float) (uart : Uart) (n m : Mcu Float)
        → IsControlled fl laws m
        → IsSampled fl laws (record n { hw = hardware fl b i uart }) m
        → IsForbidden b
        → m.hw.power_w ≡ of_nat fl 0
    unfolding read_deci_celsius
    forbidden_off b i uart n m controlled sampled (inr failed) =
        let blind : m.fault ≡ sensor_failure = sampled.failed (rw failed refl) in
        (controlled.fault_off (rw blind refl)).1
    forbidden_off b i uart n m controlled sampled (inl lid_open) =
        elim (Bool-cases b.sensor_failed) [
          | inl failed ↦
              let blind : m.fault ≡ sensor_failure = sampled.failed (rw failed refl) in
              (controlled.fault_off (rw blind refl)).1
          | inr readable ↦
              controlled.open_off
                (ap (λ k. k.lid_closed) (sampled.read (rw readable refl)) ∙ lid_open)
        ]

    -- The clock of milliseconds moves on by one.
    next_ms :
        (us : ℕ)
        → us + 1000 < 2 ^ 64
        → u32 (u32 (us / 1000) + 1) ≡ u32 ((us + 1000) % 2 ^ 64 / 1000)
    next_ms us h = omega arith

    lent-IsFresh :
        (s : SystemSim Float) (i : Millisecond Float) (c : McuClient)
        → s.board.now_us + 1000 < 2 ^ 64
        → IsFresh s.app.app_divider s.board.watchdog (now_ms fl s.board)
        → (let b = step_board fl s.board in
            let r = after_poll fl (lend_app fl s.app b i.app_line) c (now_ms fl b) in
            IsFresh r.app_divider r.controller.watchdog (now_ms fl b))
    unfolding step_board
    lent-IsFresh s i c before fresh =
        let r : ApplicationRuntime Float = record s.app {
          controller = record s.app.controller { watchdog = s.board.watchdog };
        } in
        subst
          (λ t.
            (let r' = after_poll fl (check_board fl r i.app_line t) c t in
              IsFresh r'.app_divider r'.controller.watchdog t))
          (next_ms s.board.now_us before)
          (after_poll-IsFresh fl r i.app_line c (now_ms fl s.board) (omega arith) fresh)

    stepped-IsForbidden : (b : SimBoard Float) → IsForbidden b → IsForbidden (step_board fl b)
    unfolding step_board
    stepped-IsForbidden b h = h

    stepped_clock : (b : SimBoard Float) → (step_board fl b).now_us ≡ (b.now_us + 1000) % 2 ^ 64
    unfolding step_board
    stepped_clock b = refl

    -- In a millisecond that the machine enters with an open lid or without a temperature, the heater gets
    -- no power.
    pub record Steps (s s' : SystemSim Float) : Type 0 where
      pub guarded : IsGuarded s'
      pub unheated : IsForbidden s.board → s'.board.heater_w ≡ of_nat fl 0
      pub clock : s'.board.now_us ≡ (s.board.now_us + 1000) % 2 ^ 64

    step_system-Steps :
        (s : SystemSim Float) (i : Millisecond Float)
        → s.board.now_us + 1000 < 2 ^ 64
        → IsGuarded s
        → (s' : SystemSim Float) × (step_system fl s i ≡ some s') × Steps s s'
    unfolding step_system Runtime.tick_1ms
    step_system-Steps s i before g =
        let b = step_board fl s.board in
        let uart = i.mcu_line s.mcu.hw.uart in
        let hw = hardware fl b i uart in
        let (m, ticked, controlled, sampled) = reachable-IsControlled fl laws s.mcu hw g.reached in
        let lent = lend_app fl s.app b i.app_line in
        let (c, polled) = pump_total lent.controller.client (now_ms fl b) in
        let r : ApplicationRuntime Float = after_poll fl lent c (now_ms fl b) in
        let driven = drive_board fl b i.halted m in
        let same = driven-now_us b i.halted m in
        (
          record { board = record driven { watchdog = r.controller.watchdog }; mcu = m; app = r },
          rw ticked (rw polled refl),
          record {
            guarded = record {
              reached = ticks s.mcu m hw g.reached ticked;
              fresh =
                  subst (λ k. IsFresh r.app_divider r.controller.watchdog (u32 (k / 1000)))
                    (sym same) (lent-IsFresh s i c before g.fresh);
            };
            unheated = λ forbidden. driven-heater b i.halted m (
                forbidden_off b i uart s.mcu m controlled sampled
                  (stepped-IsForbidden s.board forbidden));
            clock = same ∙ stepped_clock s.board;
          },
        )

    -- The number of milliseconds among the events.
    abbrev pub count_ms : List SystemEvent → ℕ
    count_ms [] = 0
    count_ms (passes_one i ∷ es) = count_ms es + 1
    count_ms (e ∷ es) = count_ms es

    -- Runs of the device, with every state that a millisecond leaves and the one in front of it.
    pub data Runs : SystemSim Float → List SystemEvent → Type 0 where
      rests : {s : SystemSim Float} → IsGuarded s → Runs s []
      steps :
          {s s' : SystemSim Float} {e : SystemEvent} {es : List SystemEvent}
          → system_step s e ≡ some s'
          → (passing : (i : Millisecond Float)
              → e ≡ passes_one i
              → IsForbidden s.board
              → s'.board.heater_w ≡ of_nat fl 0)
          → Runs s' es
          → Runs s (e ∷ es)

    -- What a hand does to the machine leaves the processors and the clocks alone.
    by_hand :
        (s : SystemSim Float) (b : SimBoard Float)
        → b.watchdog ≡ s.board.watchdog
        → b.now_us ≡ s.board.now_us
        → IsGuarded s
        → IsGuarded (record s { board = b })
    by_hand s b dog clock g = record {
      reached = g.reached;
      fresh =
          subst (λ k. IsFresh s.app.app_divider k (now_ms fl b)) (sym dog)
            (subst (λ k. IsFresh s.app.app_divider s.board.watchdog (u32 (k / 1000))) (sym clock)
              g.fresh);
    }

    -- Whatever the line, the noise, the user and the sensor do in whatever order, from a guarded state
    -- on: every millisecond ends; one that the machine enters with an open lid or without a temperature
    -- leaves the heater without power; and the application processor's watchdog stays fed. The
    -- floating-point laws are assumed, and that the 64-bit clock does not wrap.
    pub guarded-Runs :
        (es : List SystemEvent) (s : SystemSim Float)
        → s.board.now_us + 1000 * count_ms es < 2 ^ 64
        → IsGuarded s
        → Runs s es
    unfolding system_step add_mass open_lid close_lid set_sensor_failed
    guarded-Runs [] s before g = rests g
    guarded-Runs (passes_one i ∷ es) s before g =
        let (s', e, stepped) = step_system-Steps s i (omega arith) g in
        steps e (λ j same. stepped.unheated)
          (guarded-Runs es s' (omega (arith, stepped.clock)) stepped.guarded)
    guarded-Runs (adds_mass grams ∷ es) s before g =
        steps refl (λ j same. cc)
          (guarded-Runs es _ before (by_hand s (add_mass fl s.board grams) refl refl g))
    guarded-Runs (opens_it ∷ es) s before g =
        steps refl (λ j same. cc)
          (guarded-Runs es _ before (by_hand s (open_lid fl s.board) refl refl g))
    guarded-Runs (closes_it ∷ es) s before g =
        steps refl (λ j same. cc)
          (guarded-Runs es _ before (by_hand s (close_lid fl s.board) refl refl g))
    guarded-Runs (fails_sensor failed ∷ es) s before g =
        steps refl (λ j same. cc)
          (guarded-Runs es _ before (by_hand s (set_sensor_failed fl s.board failed) refl refl g))

    pub new_system-IsGuarded :
        (lid : LidModel) (mcu_uart app_uart : Uart) (i : Millisecond Float)
        → IsGuarded (new_system fl lid mcu_uart app_uart i)
    new_system-IsGuarded lid mcu_uart app_uart i = record {
      reached = starts _;
      fresh = record {
        bounded = omega arith;
        fed = omega arith;
        recent = λ e. cc;
        untripped = refl;
      };
    }
