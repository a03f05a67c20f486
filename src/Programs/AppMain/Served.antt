-- ===== src/Programs/AppMain/Served.antt =====
-- What one round makes of a program that stops before it returns, and of one that was not told to quit.
use agentic_engineering_trai.Base.{
  ℕ, ◌≡◌, inl, inr, refl, List, [], ◌++◌, true, false, not, ◌||◌, ◌&&◌, Option, none, some,
  Bool-cases, branch,
}
use agentic_engineering_trai.Common.Floats.{Floats, of_nat}
use agentic_engineering_trai.Common.Text.{Converted, codes, equal, starts_with, is_empty}
use agentic_engineering_trai.Common.Status.{is_ok}
use agentic_engineering_trai.Protocol.Wire.{Frame, FrameType, request, response, telemetry, nack}
use agentic_engineering_trai.App.McuClient.{McuClient, take_response}
use agentic_engineering_trai.Programs.SafeStop.{
  SafeStop, service, begin_stop, is_active, is_expired,
}
use agentic_engineering_trai.Programs.SafeStop.Pending.{service-IsPending}
use agentic_engineering_trai.Programs.AppMain.{
  AppMain, AppInput, Step, Console, failed, quiet, typed, AppLine, clock_ms, stop_app, quit_app,
  serve_stop, report_frame, report_response, handle_response, set_speed, set_temp, run_typed,
  read_console, after_response, after_pump,
}

-- What one call of `service` on a stop, with the response it was given, makes of the program.
pub data Served (stop : SafeStop) (r : Option Frame) : Step → Type 0 where
  done :
      {s : Step} (c : McuClient) (now : ℕ)
      → (service stop c now r).2 ≡ true
      → s.exit ≡ some 0
      → Served stop r s
  gave_up : {s : Step} → s.exit ≡ some 1 → Served stop r s
  waits :
      {s : Step} (c : McuClient) (now : ℕ)
      → (service stop c now r).2 ≡ false
      → s.state.safe_stop ≡ (service stop c now r).0
      → s.exit ≡ none
      → s.state.quit_after_stop ≡ true
      → is_active s.state.safe_stop ≡ true
      → Served stop r s

serve_stop-Served :
    (m : AppMain) (r : Option Frame)
    → m.quit_after_stop ≡ true
    → is_active m.safe_stop ≡ true
    → Served m.safe_stop r (serve_stop m r)
unfolding serve_stop
serve_stop-Served m r q p =
    let (s, c, completed) = service m.safe_stop m.client (clock_ms m) r in
    elim (Bool-cases completed) [
      | inl e ↦ done m.client (clock_ms m) e (rw (e, q) refl)
      | inr e ↦
          let w =
            service-IsPending m.safe_stop m.client (clock_ms m) r m.safe_stop.started_ms e
              (record { active = p; begun = refl }) in
          elim (Bool-cases (is_expired s (clock_ms m))) [
            | inl late ↦ rw (e, late) (gave_up refl)
            | inr soon ↦ rw (e, soon) (waits m.client (clock_ms m) e refl refl q w.active)
          ]
    ]

-- What a round makes of a program that was not told to quit.
pub data Calm : Step → Type 0 where
  disconnects : {s : Step} → s.exit ≡ some 1 → Calm s
  continues : {s : Step} → s.exit ≡ none → s.state.quit_after_stop ≡ false → Calm s
  quits :
      {s : Step} (started : ℕ)
      → s.exit ≡ none
      → s.state.quit_after_stop ≡ true
      → s.state.safe_stop ≡ begin_stop started
      → Calm s

serve_stop-Calm :
    (m : AppMain) (r : Option Frame) → m.quit_after_stop ≡ false → Calm (serve_stop m r)
unfolding serve_stop
serve_stop-Calm m r q =
    let (s, c, completed) = service m.safe_stop m.client (clock_ms m) r in
    branch Calm completed (λ e. continues (rw q refl) q)
      (λ e.
        branch Calm (is_expired s (clock_ms m)) (λ late. disconnects refl)
          (λ soon. continues refl q))

report_frame-Calm :
    (m : AppMain) (t : FrameType) → m.quit_after_stop ≡ false → Calm (report_frame m t)
report_frame-Calm m response q = continues refl q
report_frame-Calm m nack q = continues refl q
report_frame-Calm m request q =
    branch Calm (not (is_ok m.client.last_command_status)) (λ e. continues refl q)
      (λ e. continues refl q)
report_frame-Calm m telemetry q =
    branch Calm (not (is_ok m.client.last_command_status)) (λ e. continues refl q)
      (λ e. continues refl q)

report_response-Calm :
    (m : AppMain) (r : Option Frame) → m.quit_after_stop ≡ false → Calm (report_response m r)
report_response-Calm m none q =
    branch Calm (not (is_ok m.client.last_command_status)) (λ e. continues refl q)
      (λ e. continues refl q)
report_response-Calm m (some r) q = report_frame-Calm m r.type q

handle_response-Calm :
    (m : AppMain) (r : Option Frame) → m.quit_after_stop ≡ false → Calm (handle_response m r)
unfolding handle_response
handle_response-Calm m r q =
    branch Calm (is_active m.safe_stop) (λ e. serve_stop-Calm m r q)
      (λ e. report_response-Calm m r q)

quit_app-Calm : (m : AppMain) → Calm (record { state = quit_app m; lines = []; exit = none })
unfolding quit_app
quit_app-Calm m = quits (clock_ms m) refl refl refl

set_speed-Calm : (m : AppMain) (o : Option ℕ) → m.quit_after_stop ≡ false → Calm (set_speed m o)
set_speed-Calm m none q = continues refl q
set_speed-Calm m (some dial) q = continues refl q

module _ (fl : Floats) (strtof : List ℕ → Converted fl.Float) where
  open fl use {Float, lt, le}

  set_temp-Calm :
      (m : AppMain) (o : Option Float) → m.quit_after_stop ≡ false → Calm (set_temp fl strtof m o)
  set_temp-Calm m none q = continues refl q
  set_temp-Calm m (some celsius) q =
      branch Calm (lt (of_nat fl 0) celsius && lt celsius (of_nat fl 37)) (λ e. continues refl q)
        (λ e.
          branch Calm (le celsius (of_nat fl 0) && le (of_nat fl 0) celsius) (λ e. continues refl q)
            (λ e. continues refl q))

  run_typed-Calm :
      (m : AppMain) (line : List ℕ) → m.quit_after_stop ≡ false → Calm (run_typed fl strtof m line)
  unfolding run_typed stop_app
  run_typed-Calm m line q =
      branch Calm (is_active m.safe_stop) (λ e. continues refl q)
        (λ e.
          branch Calm (equal line (codes "status")) (λ e. continues refl q)
            (λ e.
              branch Calm (starts_with line (codes "set-temp ")) (λ e. set_temp-Calm m _ q)
                (λ e.
                  branch Calm (starts_with line (codes "set-speed ")) (λ e. set_speed-Calm m _ q)
                    (λ e.
                      branch Calm (equal line (codes "tare")) (λ e. continues refl q)
                        (λ e.
                          branch Calm (equal line (codes "stop")) (λ e. continues refl q)
                            (λ e.
                              branch Calm (not (is_empty line)) (λ e. continues refl q)
                                (λ e. continues refl q)))))))

  read_console-Calm :
      (m : AppMain) (console : Console)
      → m.quit_after_stop ≡ false
      → Calm (read_console fl strtof m console)
  unfolding read_console quit_app
  read_console-Calm m (failed interrupted) q =
      branch Calm interrupted (λ e. continues refl q) (λ e. quits (clock_ms m) refl refl refl)
  read_console-Calm m quiet q = continues refl q
  read_console-Calm m (typed none) q = quits (clock_ms m) refl refl refl
  read_console-Calm m (typed (some line)) q =
      branch Calm (equal line (codes "quit") || equal line (codes "exit"))
        (λ e. quits (clock_ms m) refl refl refl) (λ e. run_typed-Calm m line q)

  relabel-Calm : (s : Step) (ls : List AppLine) → Calm s → Calm (record s { lines = ls })
  relabel-Calm s ls (disconnects e) = disconnects e
  relabel-Calm s ls (continues e q) = continues e q
  relabel-Calm s ls (quits started e q b) = quits started e q b

  after_response-Calm :
      (s : Step) (console : Console) → Calm s → Calm (after_response fl strtof s console)
  unfolding after_response
  after_response-Calm s console (disconnects e) = simp e (disconnects e)
  after_response-Calm s console (continues e q) =
      let step = read_console fl strtof s.state console in
      simp (e, q) (relabel-Calm step (s.lines ++ step.lines) (read_console-Calm s.state console q))
  after_response-Calm s console (quits started e q b) = simp (e, q) (quits started e q b)

  after_response-Served :
      (stop : SafeStop) (r : Option Frame) (s : Step) (console : Console)
      → Served stop r s
      → Served stop r (after_response fl strtof s console)
  unfolding after_response
  after_response-Served stop r s console (done c now e x) = simp x (done c now e x)
  after_response-Served stop r s console (gave_up e) = simp e (gave_up e)
  after_response-Served stop r s console (waits c now e same x q a) =
      simp (x, q) (waits c now e same x q a)

  pub after_pump-Calm :
      (m : AppMain) (input : AppInput)
      → m.quit_after_stop ≡ false
      → Calm (after_pump fl strtof m input)
  unfolding after_pump
  after_pump-Calm m input q =
      let (c, r) = take_response m.client true in
      branch Calm (not input.connected) (λ e. disconnects refl)
        (λ e.
          after_response-Calm _ input.console (handle_response-Calm (record m { client = c }) r q))

  pub after_pump-Served :
      (m : AppMain) (input : AppInput)
      → m.quit_after_stop ≡ true
      → is_active m.safe_stop ≡ true
      → Served m.safe_stop (take_response m.client true).1 (after_pump fl strtof m input)
  unfolding after_pump handle_response
  after_pump-Served m input q a =
      let (c, r) = take_response m.client true in
      branch (Served m.safe_stop r) (not input.connected) (λ e. gave_up refl)
        (λ e.
          after_response-Served m.safe_stop r _ input.console
            (rw a (serve_stop-Served (record m { client = c }) r q a)))
