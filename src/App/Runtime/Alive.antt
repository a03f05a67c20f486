-- ===== src/App/Runtime/Alive.antt =====
-- The application processor keeps its watchdog fed.
use agentic_engineering_trai.Base.{
  ℕ, ◌+◌, ◌≤◌, ◌<◌, ◌≡◌, refl, ◌∙◌, subst, List, [], ◌∷◌, length, true, false, ◌&&◌, Option, none,
  some, arith, leb, ltb, ◌⊎◌, inl, inr, Bool-cases, u8, u32, sub_u32,
}
use agentic_engineering_trai.Common.Floats.{Floats}
use agentic_engineering_trai.Hal.Uart.{Uart}
use agentic_engineering_trai.Protocol.Wire.{Frame}
use agentic_engineering_trai.Sim.Watchdog.{
  Watchdog, watchdog_timeout_ms, feed_watchdog, check_watchdog,
}
use agentic_engineering_trai.App.McuClient.{McuClient}
use agentic_engineering_trai.App.McuClient.Deadline.{pump_total}
use agentic_engineering_trai.App.Cooking.Program.{Program}
use agentic_engineering_trai.App.Cooking.Controller.{
  CookingController, begin_program, begin_shutdown, acknowledge, resend, finish_shutdown, proceed,
  run_stopping_sequence, refresh, check_failure, run_program, advance_with, advance_session,
  tick_10ms,
}
use agentic_engineering_trai.App.Runtime.{ApplicationRuntime, after_poll, tick_1ms}

-- The watchdog has not tripped, and if it is armed it was fed at most `age` milliseconds ago.
pub record IsFresh (age : ℕ) (w : Watchdog) (now : ℕ) : Type 0 where
  pub bounded : age < 10
  pub fed : w.last_feed_ms < 4294967296
  pub recent : w.armed ≡ true → sub_u32 now w.last_feed_ms ≤ age
  pub untripped : w.tripped ≡ false

check_watchdog-IsFresh :
    (age : ℕ) (w : Watchdog) (now : ℕ)
    → now < 4294967296
    → age < 9
    → IsFresh age w now
    → IsFresh (age + 1) (check_watchdog w (u32 (now + 1))) (u32 (now + 1))
unfolding check_watchdog
check_watchdog-IsFresh age w now c less f =
    let quiet : (w.armed && ltb watchdog_timeout_ms (sub_u32 (u32 (now + 1)) w.last_feed_ms))
        ≡ false =
      ground (arith, f.recent, f.fed) in
    rw quiet record {
      bounded = omega arith;
      fed = f.fed;
      recent = λ a. (let bound = f.recent a in let below = f.fed in omega arith);
      untripped = f.untripped;
    }

feed_watchdog-IsFresh :
    (age : ℕ) (w : Watchdog) (now : ℕ)
    → now < 4294967296
    → IsFresh age w now
    → IsFresh 0 (feed_watchdog (check_watchdog w (u32 (now + 1))) (u32 (now + 1))) (u32 (now + 1))
unfolding check_watchdog feed_watchdog
feed_watchdog-IsFresh age w now c f =
    let quiet : (w.armed && ltb watchdog_timeout_ms (sub_u32 (u32 (now + 1)) w.last_feed_ms))
        ≡ false =
      ground (arith, f.recent, f.fed, f.bounded) in
    rw quiet record {
      bounded = omega arith;
      fed = omega arith;
      recent = λ a. omega arith;
      untripped = f.untripped;
    }

module _ (fl : Floats) where
  open fl use {Float}

  watchdog-acknowledge :
      (c : CookingController Float) (r : Option Frame) → (acknowledge fl c r).watchdog ≡ c.watchdog
  unfolding acknowledge
  watchdog-acknowledge c none = refl
  watchdog-acknowledge c (some r) = ground arith

  watchdog-resend : (c : CookingController Float) → (resend fl c).watchdog ≡ c.watchdog
  unfolding resend
  watchdog-resend c = ground arith

  watchdog-finish_shutdown :
      (o : Option Program) (c : CookingController Float) (now : ℕ)
      → (finish_shutdown fl o c now).watchdog ≡ c.watchdog
  unfolding finish_shutdown begin_program
  watchdog-finish_shutdown none c now = refl
  watchdog-finish_shutdown (some p) c now = ground arith

  watchdog-proceed :
      (c : CookingController Float) (now : ℕ) → (proceed fl c now).watchdog ≡ c.watchdog
  unfolding proceed
  watchdog-proceed c now = ground (arith, watchdog-finish_shutdown c.pending_program c now)

  watchdog-run_stopping_sequence :
      (c : CookingController Float) (r : Option Frame) (now : ℕ)
      → (run_stopping_sequence fl c r now).watchdog ≡ c.watchdog
  unfolding run_stopping_sequence
  watchdog-run_stopping_sequence c r now =
      watchdog-proceed (resend fl (acknowledge fl c r)) now
      ∙ watchdog-resend (acknowledge fl c r)
      ∙ watchdog-acknowledge c r

  watchdog-run_program :
      (c : CookingController Float) (p : Program) (now : ℕ)
      → (run_program fl c p now).watchdog ≡ c.watchdog
  unfolding run_program begin_shutdown
  watchdog-run_program c p now = ground arith

  watchdog-advance_with :
      (o : Option Program) (c : CookingController Float) (r : Option Frame) (now : ℕ)
      → (advance_with fl o c r now).watchdog ≡ c.watchdog
  unfolding advance_with
  watchdog-advance_with none c r now = ground (arith, watchdog-run_stopping_sequence c r now)
  watchdog-advance_with (some p) c r now =
      ground (arith, watchdog-run_stopping_sequence c r now, watchdog-run_program c p now)

  watchdog-check_failure :
      (c : CookingController Float) → (check_failure fl c).watchdog ≡ c.watchdog
  unfolding check_failure begin_shutdown
  watchdog-check_failure c = ground arith

  -- Whatever the session does, a tick of the controller feeds the watchdog once.
  pub watchdog-tick_10ms :
      (c : CookingController Float) (now : ℕ)
      → (tick_10ms fl c now).watchdog ≡ feed_watchdog c.watchdog now
  unfolding tick_10ms advance_session refresh
  watchdog-tick_10ms c now =
      let (c₁, r) = refresh fl c now in watchdog-advance_with _ _ r now ∙ watchdog-check_failure c₁

  abbrev dog : ApplicationRuntime Float → Watchdog
  dog r = r.controller.watchdog

  -- A divider of ten lets the controller tick, and that feeds the watchdog.
  dog-after_poll :
      (r : ApplicationRuntime Float) (client : McuClient) (now : ℕ)
      → r.app_divider < 10
      → ((after_poll fl r client now).app_divider ≡ r.app_divider + 1)
          × (r.app_divider < 9)
          × (dog (after_poll fl r client now) ≡ dog r)
        ⊎ ((after_poll fl r client now).app_divider ≡ 0)
          × (dog (after_poll fl r client now) ≡ feed_watchdog (dog r) now)
  unfolding after_poll
  dog-after_poll r client now h = elim (Bool-cases (leb 10 (u8 (r.app_divider + 1)))) [
    | inl e ↦
        inr (rw e refl, rw e (watchdog-tick_10ms (record r.controller { client = client }) now))
    | inr e ↦ inl (rw e (omega arith), ground arith, rw e refl)
  ]

  -- The board's millisecond, at whose end it checks the watchdog; meanwhile the UART changes.
  abbrev pub check_board : ApplicationRuntime Float → (Uart → Uart) → ℕ → ApplicationRuntime Float
  check_board r change now =
      let client : McuClient = record r.controller.client {
        uart = change r.controller.client.uart;
      } in
      record r {
        controller = record r.controller {
          watchdog = check_watchdog r.controller.watchdog now;
          client = client;
        };
      }

  -- Milliseconds, one after the other, behind the time `now` of a clock of 32 bits: the board's and then
  -- the processor's. The list says how the UART changes in each of them.
  unfoldable pub run_for :
      List (Uart → Uart) → ApplicationRuntime Float → ℕ → Option (ApplicationRuntime Float)
  run_for [] r now = some r
  run_for (f ∷ fs) r now =
      let later = u32 (now + 1) in
      elim (tick_1ms fl (check_board r f later) later) [
        | none ↦ none
        | some r' ↦ run_for fs r' later
      ]

  pub after_poll-IsFresh :
      (r : ApplicationRuntime Float) (f : Uart → Uart) (client : McuClient) (now : ℕ)
      → now < 4294967296
      → IsFresh r.app_divider (dog r) now
      → (let r' = after_poll fl (check_board r f (u32 (now + 1))) client (u32 (now + 1)) in
          IsFresh r'.app_divider (dog r') (u32 (now + 1)))
  after_poll-IsFresh r f client now c h =
      let checked = check_board r f (u32 (now + 1)) in
      elim (dog-after_poll checked client (u32 (now + 1)) h.bounded) [
        | inl (age, less, same) ↦
            rw (age, same) (check_watchdog-IsFresh r.app_divider (dog r) now c less h)
        | inr (age, same) ↦ rw (age, same) (feed_watchdog-IsFresh r.app_divider (dog r) now c h)
      ]

  -- Whatever the UART receives and accepts: from a state in which the watchdog has not tripped and was
  -- fed at most as many milliseconds ago as the divider counts, the processor runs through any number
  -- of milliseconds, at each of which the board checks the watchdog first, and the same holds then.
  pub run_for-IsFresh :
      (fs : List (Uart → Uart)) (r : ApplicationRuntime Float) (now : ℕ)
      → now < 4294967296
      → IsFresh r.app_divider r.controller.watchdog now
      → (r' : ApplicationRuntime Float) × (run_for fs r now ≡ some r')
        × IsFresh r'.app_divider r'.controller.watchdog (u32 (now + length fs))
  unfolding run_for tick_1ms
  run_for-IsFresh [] r now c h =
      (r, refl, subst (λ t. IsFresh r.app_divider (dog r) t) (omega arith) h)
  run_for-IsFresh (f ∷ fs) r now c h =
      let later = u32 (now + 1) in
      let (client, polled) = pump_total (check_board r f later).controller.client later in
      let (r', ran, fresh) =
        run_for-IsFresh fs (after_poll fl (check_board r f later) client later) later (omega arith)
          (after_poll-IsFresh r f client now c h) in
      (
        r',
        rw (polled, run_for) ran,
        subst (λ t. IsFresh r'.app_divider (dog r') t) (omega arith) fresh,
      )
