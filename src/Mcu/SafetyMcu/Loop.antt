-- ===== src/Mcu/SafetyMcu/Loop.antt =====
-- The receive loop of the control tick: it ends, and keeps the invariant of the safety MCU.
use agentic_engineering_trai.Base.{
  ℕ, zero, suc, ◌<◌, ◌≡◌, subst, true, false, not, inl, inr, some, arith, if◌then◌else◌,
  Option-cases, length,
}
use mathlib.Core.Option.{some-injective}
use agentic_engineering_trai.Common.Floats.{Floats}
use agentic_engineering_trai.Hal.Uart.{Uart}
use agentic_engineering_trai.Protocol.Wire.{Frame, is_no_fault, is_request}
use agentic_engineering_trai.Protocol.Link.{Link, poll}
use agentic_engineering_trai.Protocol.Link.Receive.{poll-shorter}
use agentic_engineering_trai.Mcu.Device.{Mcu}
use agentic_engineering_trai.Mcu.CommandHandler.{handle}
use agentic_engineering_trai.Mcu.SafetyMcu.{serve, serve_loop}
use agentic_engineering_trai.Mcu.SafetyMcu.Serving.{handle-Kept, handle-SameRx}

module _ (fl : Floats) where
  open fl use {Float}

  -- What one served request leaves alone, and that it may only end a fault, never raise one.
  pub record Serves (m m' : Mcu Float) : Type 0 where
    pub same_inputs : m'.inputs ≡ m.inputs
    pub same_now : m'.hw.now_ms ≡ m.hw.now_ms
    pub same_temperature : m'.hw.temperature ≡ m.hw.temperature
    pub same_sensor : m'.temp_sensor_ok ≡ m.temp_sensor_ok
    pub fault_ends : is_no_fault m.fault ≡ true → is_no_fault m'.fault ≡ true
    pub fault_kept : is_no_fault m'.fault ≡ false → m'.fault ≡ m.fault

  -- The state in which the handler runs.
  abbrev pub noted : Mcu Float → Frame → Mcu Float
  noted m f = if is_request f.type then record m { last_valid_frame_ms = m.hw.now_ms } else m

  abbrev handled : Mcu Float → Frame → Mcu Float
  handled m f = handle fl f (noted m f).inputs (not (is_no_fault (noted m f).fault)) (noted m f)

  pub serve-Serves : (m : Mcu Float) (f : Frame) → Serves m (serve fl m f)
  unfolding serve
  serve-Serves m f =
      ground (
        arith,
        handle-Kept fl f (noted m f).inputs (noted m f) (not (is_no_fault (noted m f).fault)),
      )

  pub serve-rx : (m : Mcu Float) (f : Frame) → (serve fl m f).hw.uart.rx ≡ m.hw.uart.rx
  unfolding serve
  serve-rx m f = ground (
    arith,
    handle-SameRx fl f (noted m f).inputs (noted m f) (not (is_no_fault (noted m f).fault)),
  )

  abbrev polled : Mcu Float → Mcu Float
  polled m =
      let (link, uart, out) = poll m.link m.hw.uart m.hw.now_ms in
      record m { link = link; hw = record m.hw { uart = uart } }

  -- The receive loop ends when the bytes that have come are used up: with more fuel than bytes it
  -- gives a state.
  pub serve_loop_total :
      (fuel : ℕ) (m : Mcu Float)
      → length m.hw.uart.rx < fuel
      → (m' : Mcu Float) × (serve_loop fl fuel m ≡ some m')
  unfolding serve_loop
  serve_loop_total zero m h = absurd (omega arith)
  serve_loop_total (suc fuel) m h = elim (Option-cases (poll m.link m.hw.uart m.hw.now_ms).2) [
    | inl e ↦ (polled m, rw (e, serve_loop))
    | inr (f, e) ↦
        let fewer = poll-shorter m.link m.hw.uart m.hw.now_ms f e in
        rw (e, serve_loop)
          (serve_loop_total fuel (serve fl (polled m) f)
            (rw (serve-rx (polled m) f) (omega (arith, fewer))))
  ]

  -- What every poll and every served frame keeps, the loop keeps.
  pub serve_loop_inv :
      (P : Mcu Float → Type 0)
      → ((m : Mcu Float) (l : Link) (u : Uart)
          → P m
          → P (record m { link = l; hw = record m.hw { uart = u } }))
      → ((m : Mcu Float) (f : Frame) → P m → P (serve fl m f))
      → (fuel : ℕ) (m m' : Mcu Float) → P m
      → serve_loop fl fuel m ≡ some m'
      → P m'
  unfolding serve_loop
  serve_loop_inv P polls serves zero m m' v e = cc
  serve_loop_inv P polls serves (suc fuel) m m' v e =
      elim (Option-cases (poll m.link m.hw.uart m.hw.now_ms).2) [
        | inl h ↦ subst P (some-injective _ _ (rw (h, serve_loop) at e)) (polls m _ _ v)
        | inr (f, h) ↦
            serve_loop_inv P polls serves fuel (serve fl (polled m) f) m'
              (serves (polled m) f (polls m _ _ v)) (rw (h, serve_loop) at e)
      ]
