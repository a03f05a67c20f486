-- ===== src/Programs/AppMain/Quits.antt =====
-- A program that was told to quit returns.
use agentic_engineering_trai.Base.{
  ℕ, ◌+◌, ◌*◌, ◌%◌, ◌^◌, ◌≤◌, ◌<◌, ◌≡◌, ◌⊎◌, inl, inr, refl, sym, subst, List, [], ◌∷◌, ◌++◌, true,
  Option, none, some, arith, Bool-cases, length, sub_u32,
}
use agentic_engineering_trai.Common.Floats.{Floats}
use agentic_engineering_trai.Common.Text.{Converted}
use agentic_engineering_trai.Protocol.Wire.{Frame}
use agentic_engineering_trai.App.McuClient.{McuClient, take_response}
use agentic_engineering_trai.App.McuClient.Deadline.{pump_total}
use agentic_engineering_trai.Programs.SafeStop.{service, begin_stop, is_expired, stop_deadline_ms}
use agentic_engineering_trai.Programs.SafeStop.Pending.{IsPending, service-IsPending}
use agentic_engineering_trai.Programs.AppMain.{
  AppMain, AppInput, Step, Console, clock_ms, quit_app, serve_stop, handle_response, after_response,
  after_pump, app_round, run_app,
}

-- Told to quit, and in the stop that was begun at `started`, less than the deadline ago.
pub record IsQuitting (started : ℕ) (m : AppMain) : Type 0 where
  pub quitting : m.quit_after_stop ≡ true
  pub pending : IsPending started m.safe_stop
  pub word : started < 2 ^ 32
  pub early : sub_u32 (clock_ms m) started < stop_deadline_ms

-- The step returns, or the program quits on at the same time.
abbrev QuitsOn : ℕ → ℕ → Step → Type 0
QuitsOn started now s =
    ((n : ℕ) × (s.exit ≡ some n))
    ⊎ ((s.exit ≡ none) × IsQuitting started s.state × (s.state.now_us ≡ now))

serve_stop-QuitsOn :
    (m : AppMain) (r : Option Frame) (started : ℕ)
    → started < 2 ^ 32
    → m.quit_after_stop ≡ true
    → IsPending started m.safe_stop
    → QuitsOn started m.now_us (serve_stop m r)
unfolding serve_stop is_expired
serve_stop-QuitsOn m r started small q p =
    let (s, c, completed) = service m.safe_stop m.client (clock_ms m) r in
    elim (Bool-cases completed) [
      | inl e ↦ rw (e, q) (inl (0, refl))
      | inr e ↦
          let w : IsPending started s =
            service-IsPending m.safe_stop m.client (clock_ms m) r started e p in
          elim (Bool-cases (is_expired s (clock_ms m))) [
            | inl late ↦ rw (e, late) (inl (1, refl))
            | inr soon ↦
                rw (e, soon)
                  (inr (
                    refl,
                    record {
                      quitting = q;
                      pending = w;
                      word = small;
                      early = ground (arith, soon, w.active, w.begun);
                    },
                    refl,
                  ))
          ]
    ]

module _ (fl : Floats) (strtof : List ℕ → Converted fl.Float) where
  -- The console is not read behind a stop that a program that quits waits for.
  after_response_same :
      (s : Step) (console : Console) (started now : ℕ)
      → QuitsOn started now s
      → after_response fl strtof s console ≡ s
  unfolding after_response
  after_response_same s console started now (inl (n, e)) = simp e refl
  after_response_same s console started now (inr (e, v, same)) = simp (e, v.quitting) refl

  after_response-QuitsOn :
      (s : Step) (console : Console) (started now : ℕ)
      → QuitsOn started now s
      → QuitsOn started now (after_response fl strtof s console)
  after_response-QuitsOn s console started now v =
      subst (QuitsOn started now) (sym (after_response_same s console started now v)) v

  after_pump-QuitsOn :
      (m : AppMain) (input : AppInput) (started : ℕ)
      → started < 2 ^ 32
      → m.quit_after_stop ≡ true
      → IsPending started m.safe_stop
      → QuitsOn started m.now_us (after_pump fl strtof m input)
  unfolding after_pump handle_response
  after_pump-QuitsOn m input started small q p =
      let (c, r) = take_response m.client true in
      elim (Bool-cases input.connected) [
        | inl e ↦
            rw (e, p.active)
              (after_response-QuitsOn (serve_stop (record m { client = c }) r) input.console started
                m.now_us (serve_stop-QuitsOn (record m { client = c }) r started small q p))
        | inr e ↦ rw e (inl (1, refl))
      ]

  -- A round of the loop ends, and is what it makes of a client behind its receive loop.
  pub app_round_total :
      (m : AppMain) (input : AppInput)
      → (c : McuClient) × (app_round fl strtof m input
          ≡ some (
              after_pump fl strtof
                (record m { now_us = (m.now_us + 1000) % 2 ^ 64; client = c })
                input))
  unfolding app_round
  app_round_total m input =
      let u = m.client.uart in
      let c : McuClient = record m.client {
        uart = record u { rx = u.rx ++ input.received; accepts = input.accepts };
      } in
      let later : AppMain = record m { now_us = (m.now_us + 1000) % 2 ^ 64 } in
      let (c', e) = pump_total c (clock_ms later) in (c', rw e refl)

  -- The rounds of a quitting program.
  round-QuitsOn :
      (m : AppMain) (input : AppInput) (started : ℕ)
      → IsQuitting started m
      → (s : Step) × (app_round fl strtof m input ≡ some s)
        × QuitsOn started ((m.now_us + 1000) % 2 ^ 64) s
  round-QuitsOn m input started v =
      let (c, e) = app_round_total m input in
      let next : AppMain = record m { now_us = (m.now_us + 1000) % 2 ^ 64; client = c } in
      (
        after_pump fl strtof next input,
        e,
        after_pump-QuitsOn next input started v.word v.quitting v.pending,
      )

  run_app-IsQuitting :
      (inputs : List AppInput) (m : AppMain) (started : ℕ)
      → IsQuitting started m
      → m.now_us + 1000 * length inputs < 2 ^ 64
      → stop_deadline_ms ≤ sub_u32 (clock_ms m) started + length inputs
      → (s : Step) × (n : ℕ) × (run_app fl strtof inputs m ≡ some s) × (s.exit ≡ some n)
  unfolding run_app
  run_app-IsQuitting [] m started v clock enough = absurd (omega (arith, v.early))
  run_app-IsQuitting (input ∷ inputs) m started v clock enough =
      let (s, e, on) = round-QuitsOn m input started v in
      elim on [
        | inl (n, left) ↦ (s, n, rw (e, left) refl, left)
        | inr (stays, w, now) ↦
            let (t, n, e', left) =
              run_app-IsQuitting inputs s.state started w (omega (arith, now))
                (omega (arith, now, v.early, v.word)) in
            (t, n, rw e (rw stays e'), left)
      ]

  -- Once the program was told to quit, it returns within 1000 rounds of a millisecond, whatever the
  -- socket and the console do, while the 64-bit clock does not wrap.
  pub run_app-quit_app :
      (inputs : List AppInput) (m : AppMain)
      → m.now_us + 1000 * length inputs < 2 ^ 64
      → stop_deadline_ms ≤ length inputs
      → (s : Step) × (n : ℕ) × (run_app fl strtof inputs (quit_app m) ≡ some s) × (s.exit ≡ some n)
  unfolding quit_app begin_stop
  run_app-quit_app inputs m clock enough =
      run_app-IsQuitting inputs (quit_app m) (clock_ms m)
        (record {
          quitting = refl;
          pending = record { active = refl; begun = refl };
          word = omega arith;
          early = omega arith;
        })
        clock (omega arith)
