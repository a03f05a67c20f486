-- ===== src/Programs/AppMain/Completed.antt =====
-- What a program has received that returns with the status 0.
use mathlib.Core.Option.{some-injective}
use agentic_engineering_trai.Base.{
  ℕ, zero, suc, ◌+◌, ◌%◌, ◌^◌, ◌≡◌, ◌≢◌, ◌⊎◌, inl, inr, refl, sym, subst, ◌∙◌, ap, List, [], ◌∷◌,
  ◌++◌, true, false, Option, none, some, arith, Option-cases,
}
use agentic_engineering_trai.Common.Floats.{Floats}
use agentic_engineering_trai.Common.Text.{Converted}
use agentic_engineering_trai.Protocol.Wire.{Frame}
use agentic_engineering_trai.Protocol.Wire
use agentic_engineering_trai.App.McuClient.{McuClient, pump, take_response}
use agentic_engineering_trai.App.McuClient.Deadline.{pump_total}
use agentic_engineering_trai.Programs.SafeStop.{begin_stop, is_active}
use agentic_engineering_trai.Programs.SafeStop.Order.{
  Completes, finish, further, InOrder, later, begin_stop-InOrder,
}
use agentic_engineering_trai.Programs.AppMain.{
  AppMain, AppInput, Step, go_on, clock_ms, after_pump, app_round, repeat_exit, run_app,
}
use agentic_engineering_trai.Programs.AppMain.Served.{
  done, gave_up, waits, disconnects, continues, quits, after_pump-Calm, after_pump-Served,
}

zero_or_not : (o : Option ℕ) → (o ≡ some 0) ⊎ (o ≢ some 0)
zero_or_not none = inr (λ e. cc)
zero_or_not (some zero) = inl refl
zero_or_not (some (suc n)) = inr (λ e. absurd (omega (arith, some-injective (suc n) 0 e)))

begun_active : (started : ℕ) → is_active (begin_stop started) ≡ true
unfolding begin_stop
begun_active started = refl

module _ (fl : Floats) (strtof : List ℕ → Converted fl.Float) where
  open fl use {Float, lt, le}

  abbrev pub response_of : Option McuClient → Option Frame
  response_of none = none
  response_of (some c) = (take_response c true).1

  -- The response that a round takes from the client.
  abbrev pub app_response : AppMain → AppInput → Option Frame
  app_response m input =
      let u = m.client.uart in
      let c : McuClient = record m.client {
        uart = record u { rx = u.rx ++ input.received; accepts = input.accepts };
      } in
      let later : AppMain = record m { now_us = (m.now_us + 1000) % 2 ^ 64 } in
      response_of (pump c (clock_ms later))

  abbrev pub heard_behind :
      Option ℕ → AppMain → (AppMain → List (Option Frame)) → List (Option Frame)
  heard_behind (some n) m next = []
  heard_behind none m next = next m

  abbrev pub heard_from : Option Step → (AppMain → List (Option Frame)) → List (Option Frame)
  heard_from none next = []
  heard_from (some s) next = heard_behind s.exit s.state next

  -- The responses that the rounds of a run take, up to the round in which the program returns.
  unfoldable pub heard : List AppInput → AppMain → List (Option Frame)
  heard [] m = []
  heard (input ∷ inputs) m =
      app_response m input ∷ heard_from (app_round fl strtof m input) (heard inputs)

  -- A run goes on behind a round that does not return, and stops at one that does.
  left_with :
      (t s : Step) (n : ℕ) (next : AppMain → Option Step)
      → t.exit ≡ some n
      → repeat_exit t.exit t next ≡ some s
      → s.exit ≡ some 0
      → n ≡ 0
  left_with t s n next e h x =
      let same : some t ≡ some s = simp e at h in
      some-injective n 0 (sym e ∙ ap (λ k. k.exit) (some-injective t s same) ∙ x)

  went_further :
      (t : Step) (next : AppMain → Option Step)
      → t.exit ≡ none
      → repeat_exit t.exit t next ≡ next t.state
  went_further t next e = simp e refl

  stopped :
      (t : Step) (n : ℕ) (next : AppMain → Option Step)
      → t.exit ≡ some n
      → repeat_exit t.exit t next ≡ some t
  stopped t n next e = simp e refl

  went_on :
      (t s : Step) (next : AppMain → Option Step)
      → t.exit ≡ none
      → repeat_exit t.exit t next ≡ some s
      → next t.state ≡ some s
  went_on t s next e h = simp e at h

  -- A round, and the response that it takes.
  round_taken :
      (m : AppMain) (input : AppInput)
      → (c : McuClient) × (app_round fl strtof m input
          ≡ some (
              after_pump fl strtof
                (record m { now_us = (m.now_us + 1000) % 2 ^ 64; client = c })
                input))
        × (app_response m input ≡ (take_response c true).1)
  unfolding app_round
  round_taken m input =
      let u = m.client.uart in
      let c : McuClient = record m.client {
        uart = record u { rx = u.rx ++ input.received; accepts = input.accepts };
      } in
      let later : AppMain = record m { now_us = (m.now_us + 1000) % 2 ^ 64 } in
      let (c', e) = pump_total c (clock_ms later) in (c', rw e refl, rw e refl)

  heard_round :
      (m : AppMain) (input : AppInput) (inputs : List AppInput) (t : Step) (r : Option Frame)
      → app_round fl strtof m input ≡ some t
      → app_response m input ≡ r
      → heard (input ∷ inputs) m ≡ r ∷ heard_behind t.exit t.state (heard inputs)
  unfolding heard
  heard_round m input inputs t r e taken = rw (e, taken) refl

  heard_leave :
      (m : AppMain) (input : AppInput) (inputs : List AppInput) (t : Step) (r : Option Frame)
      (n : ℕ)
      → app_round fl strtof m input ≡ some t
      → app_response m input ≡ r
      → t.exit ≡ some n
      → heard (input ∷ inputs) m ≡ r ∷ []
  heard_leave m input inputs t r n e taken left =
      heard_round m input inputs t r e taken ∙ simp left refl

  heard_stay :
      (m : AppMain) (input : AppInput) (inputs : List AppInput) (t : Step) (r : Option Frame)
      → app_round fl strtof m input ≡ some t
      → app_response m input ≡ r
      → t.exit ≡ none
      → heard (input ∷ inputs) m ≡ r ∷ heard inputs t.state
  heard_stay m input inputs t r e taken stays =
      heard_round m input inputs t r e taken ∙ simp stays refl

  run_app-Completes :
      (inputs : List AppInput) (m : AppMain) (s : Step)
      → m.quit_after_stop ≡ true
      → is_active m.safe_stop ≡ true
      → run_app fl strtof inputs m ≡ some s
      → s.exit ≡ some 0
      → Completes m.safe_stop (heard inputs m)
  unfolding run_app
  run_app-Completes [] m s q a h x =
      absurd (ground (arith, ap (λ k. k.exit) (some-injective (go_on m []) s h), x))
  run_app-Completes (input ∷ inputs) m s q a h x =
      let (c, e, taken) = round_taken m input in
      let next : AppMain = record m { now_us = (m.now_us + 1000) % 2 ^ 64; client = c } in
      let t = after_pump fl strtof next input in
      let r = (take_response c true).1 in
      let behind : repeat_exit t.exit t (run_app fl strtof inputs) ≡ some s = rw e at h in
      elim (after_pump-Served fl strtof next input q a) [
        | done c' now complete left ↦
            subst (Completes m.safe_stop) (sym (heard_leave m input inputs t r 0 e taken left))
              (finish c' now complete)
        | gave_up left ↦
            absurd (omega (arith, left_with t s 1 (run_app fl strtof inputs) left behind x))
        | waits c' now open_still same stays quitting active ↦
            subst (Completes m.safe_stop) (sym (heard_stay m input inputs t r e taken stays)) (
              further c' now open_still (
                subst (λ k. Completes k (heard inputs t.state)) same
                  (run_app-Completes inputs t.state s quitting active
                    (went_on t s (run_app fl strtof inputs) stays behind) x)))
      ]

  zero-InOrder :
      (inputs : List AppInput) (m : AppMain) (s : Step)
      → m.quit_after_stop ≡ false
      → run_app fl strtof inputs m ≡ some s
      → s.exit ≡ some 0
      → InOrder Wire.heater_off Wire.motor_stop (heard inputs m)
  unfolding run_app
  zero-InOrder [] m s q h x =
      absurd (ground (arith, ap (λ k. k.exit) (some-injective (go_on m []) s h), x))
  zero-InOrder (input ∷ inputs) m s q h x =
      let (c, e, taken) = round_taken m input in
      let next : AppMain = record m { now_us = (m.now_us + 1000) % 2 ^ 64; client = c } in
      let t = after_pump fl strtof next input in
      let r = (take_response c true).1 in
      let behind : repeat_exit t.exit t (run_app fl strtof inputs) ≡ some s = rw e at h in
      elim (after_pump-Calm fl strtof next input q) [
        | disconnects left ↦
            absurd (omega (arith, left_with t s 1 (run_app fl strtof inputs) left behind x))
        | continues stays calm ↦
            subst (InOrder Wire.heater_off Wire.motor_stop)
              (sym (heard_stay m input inputs t r e taken stays))
              (later (
                zero-InOrder inputs t.state s calm
                  (went_on t s (run_app fl strtof inputs) stays behind) x))
        | quits started stays quitting begun ↦
            subst (InOrder Wire.heater_off Wire.motor_stop)
              (sym (heard_stay m input inputs t r e taken stays))
              (later (
                begin_stop-InOrder started (heard inputs t.state) (
                  subst (λ k. Completes k (heard inputs t.state)) begun
                    (run_app-Completes inputs t.state s quitting (rw begun (begun_active started))
                      (went_on t s (run_app fl strtof inputs) stays behind) x))))
      ]

  run_app_total :
      (inputs : List AppInput) (m : AppMain) → (s : Step) × (run_app fl strtof inputs m ≡ some s)
  unfolding run_app
  run_app_total [] m = (go_on m [], refl)
  run_app_total (input ∷ inputs) m =
      let (c, e, taken) = round_taken m input in
      let next : AppMain = record m { now_us = (m.now_us + 1000) % 2 ^ 64; client = c } in
      let t = after_pump fl strtof next input in
      elim (Option-cases t.exit) [
        | inl stays ↦
            let (s, ran) = run_app_total inputs t.state in
            (s, rw e (went_further t (run_app fl strtof inputs) stays ∙ ran))
        | inr (n, left) ↦ (t, rw e (stopped t n (run_app fl strtof inputs) left))
      ]

  -- Whatever the socket and the console do, the rounds of the loop end; and the program has not returned
  -- the status 0, or among the responses that the rounds took from the client is the safety MCU's
  -- response to `heater_off`, and the last of them, behind it, is its response to `motor_stop`.
  pub run_app-InOrder :
      (inputs : List AppInput) (m : AppMain)
      → m.quit_after_stop ≡ false
      → (s : Step) × (run_app fl strtof inputs m ≡ some s)
        × ((s.exit ≢ some 0) ⊎ InOrder Wire.heater_off Wire.motor_stop (heard inputs m))
  run_app-InOrder inputs m q =
      let (s, ran) = run_app_total inputs m in
      elim (zero_or_not s.exit) [
        | inl x ↦ (s, ran, inr (zero-InOrder inputs m s q ran x))
        | inr other ↦ (s, ran, inl other)
      ]
