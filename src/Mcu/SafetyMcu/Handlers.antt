-- ===== src/Mcu/SafetyMcu/Handlers.antt =====
-- What the request handlers may do to the motor and the heater controller, over the whole table:
-- what all of them leave alone.
use agentic_engineering_trai.Base.{
  ℕ, ◌≡◌, refl, List, [], ◌∷◌, true, false, inl, inr, Option, none, some, arith, ltb, ◌==◌,
  if◌then◌else◌, All, Bool-cases, get_or,
}
use agentic_engineering_trai.Common.Floats.{Floats}
use agentic_engineering_trai.Protocol.Wire.{
  Frame, MsgId, response, nack, get_u16, get_i16, put_u16, put_i32,
}
use agentic_engineering_trai.Protocol.Link.Send.{rx-send}
use agentic_engineering_trai.Mcu.Limits.{max_rpm}
use agentic_engineering_trai.Mcu.Interlocks.{Inputs, clamp_speed_request}
use agentic_engineering_trai.Mcu.MotorController
use agentic_engineering_trai.Sim.Lid.{set_lock}
use agentic_engineering_trai.Mcu.MotorController.{MotorController}
use agentic_engineering_trai.Mcu.HeaterPid
use agentic_engineering_trai.Mcu.Device.{Mcu, send_frame, next_reading, later_readings}
use agentic_engineering_trai.Mcu.CommandHandler.{
  respond, nack_request, current_grams, handle_ping, handle_get_version, handle_motor_set_target,
  handle_motor_stop, handle_heater_set_target, handle_heater_off, handle_scale_tare,
  handle_scale_read, handle_lid_lock, handle_lid_unlock, Handler, handlers, run_entry,
}

module _ (fl : Floats) where
  open fl use {Float}

  -- A property that the refusal and every handler give is given by the search.
  pub run_entry_inv :
      (P : Mcu Float → Type 0) (es : List (MsgId × Handler fl)) (r : Frame) (s : Inputs Float)
      (m : Mcu Float)
      → P (nack_request fl m r)
      → All (λ (e : MsgId × Handler fl). (e.0 == r.msg_id) ≡ true → P (e.1 r s m)) es
      → P (run_entry fl es r s m)
  unfolding run_entry
  run_entry_inv P [] r s m n h = n
  run_entry_inv P ((id, f) ∷ es) r s m n h = elim (Bool-cases (id == r.msg_id)) [
    | inl e ↦ rw e (h.0 e)
    | inr e ↦ rw e (run_entry_inv P es r s m n h.1)
  ]

  module _ (r : Frame) (s : Inputs Float) (m : Mcu Float) where
    -- What no handler and no answer changes: the fault, the sampled inputs, and the clock.
    pub record Kept (m' : Mcu Float) : Type 0 where
      pub fault : m'.fault ≡ m.fault
      pub inputs : m'.inputs ≡ m.inputs
      pub now_ms : m'.hw.now_ms ≡ m.hw.now_ms
      pub temperature : m'.hw.temperature ≡ m.hw.temperature
      pub temp_sensor_ok : m'.temp_sensor_ok ≡ m.temp_sensor_ok
      pub last_valid : m'.last_valid_frame_ms ≡ m.last_valid_frame_ms

    pub nack-Kept : Kept (nack_request fl m r)
    unfolding nack_request send_frame
    nack-Kept = record {
      fault = refl;
      inputs = refl;
      now_ms = refl;
      temperature = refl;
      temp_sensor_ok = refl;
      last_valid = refl;
    }

    pub table-Kept :
        All (λ (e : MsgId × Handler fl). (e.0 == r.msg_id) ≡ true → Kept (e.1 r s m)) (handlers fl)
    unfolding nack_request respond send_frame current_grams handle_ping handle_get_version
        handle_motor_set_target handle_motor_stop handle_heater_set_target handle_heater_off
        handle_scale_tare handle_scale_read handle_lid_lock handle_lid_unlock
    table-Kept = (
      λ h. ground arith,
      (
        λ h. ground arith,
        (
          λ h. ground arith,
          (
            λ h. ground arith,
            (
              λ h. ground arith,
              (
                λ h. ground arith,
                (
                  λ h. ground arith,
                  (λ h. ground arith, (λ h. ground arith, (λ h. ground arith, tt))),
                ),
              ),
            ),
          ),
        ),
      ),
    )

    pub respond-rx :
        (p : Mcu Float) (payload : Option (List ℕ)) (n : ℕ)
        → (respond fl p r payload n).hw.uart.rx ≡ p.hw.uart.rx
    unfolding respond send_frame
    respond-rx p payload n = rx-send p.link p.hw.uart response r.seq r.msg_id payload n

    pub nack-rx : (p : Mcu Float) → (nack_request fl p r).hw.uart.rx ≡ p.hw.uart.rx
    unfolding nack_request send_frame
    nack-rx p = rx-send p.link p.hw.uart nack r.seq r.msg_id none 0

    abbrev pub SameRx : Mcu Float → Type 0
    SameRx p = p.hw.uart.rx ≡ m.hw.uart.rx

    motor_rx : SameRx (handle_motor_set_target fl r s m)
    unfolding handle_motor_set_target
    motor_rx =
        let requested = get_u16 r.payload in
        let bounded : ℕ = if ltb max_rpm requested then max_rpm else requested in
        let allowed = clamp_speed_request fl bounded s in
        ground (
          arith,
          nack-rx m,
          respond-rx (record m { motor = MotorController.burst fl m.motor bounded })
              (some (put_u16 bounded)) 2,
          respond-rx
              (record m {
                motor = MotorController.set_target fl m.motor allowed (get_or r.payload 2 0);
              })
              (some (put_u16 allowed)) 2,
        )

    tare_rx : SameRx (handle_scale_tare fl r s m)
    unfolding handle_scale_tare
    tare_rx =
        let m' : Mcu Float = record m { hw = record m.hw { scale = later_readings m.hw.scale } } in
        ground (
          arith,
          nack-rx m,
          nack-rx m',
          respond-rx (record m' { tare_offset_counts = (next_reading m.hw.scale).value }) none 0,
        )

    lock_rx : SameRx (handle_lid_lock fl r s m)
    unfolding handle_lid_lock
    lock_rx =
        let lid = set_lock m.hw.lid true in
        ground (
          arith,
          nack-rx m,
          respond-rx (record m { hw = record m.hw { lid = lid } })
              (some ((if lid.locked then 1 else 0) ∷ [])) 1,
        )

    pub table-SameRx :
        All
          (λ (e : MsgId × Handler fl). (e.0 == r.msg_id) ≡ true → SameRx (e.1 r s m))
          (handlers fl)
    unfolding current_grams handle_ping handle_get_version handle_motor_stop
        handle_heater_set_target handle_heater_off handle_scale_read handle_lid_unlock
    table-SameRx = (
      λ h. ground (arith, nack-rx m, respond-rx m none 0),
      (
        λ h. ground (arith, nack-rx m, respond-rx m (some (0 ∷ 9 ∷ 0 ∷ [])) 3),
        (
          λ h. motor_rx,
          (
            λ h. ground (
              arith,
              nack-rx m,
              respond-rx (record m { motor = MotorController.stop fl m.motor }) none 0,
            ),
            (
              λ h. ground (
                arith,
                nack-rx m,
                respond-rx (record m { pid = HeaterPid.set_target fl m.pid (get_i16 r.payload) })
                    none 0,
              ),
              (
                λ h. ground (
                  arith,
                  nack-rx m,
                  respond-rx (record m { pid = HeaterPid.disable fl m.pid }) none 0,
                ),
                (
                  λ h. tare_rx,
                  (
                    λ h. ground (
                      arith,
                      nack-rx m,
                      respond-rx (current_grams fl m).0 (some (put_i32 (current_grams fl m).1)) 4,
                    ),
                    (
                      λ h. lock_rx,
                      (
                        λ h. ground (
                          arith,
                          nack-rx m,
                          respond-rx
                              (record m { hw = record m.hw { lid = set_lock m.hw.lid false } }) none
                              0,
                        ),
                        tt,
                      ),
                    ),
                  ),
                ),
              ),
            ),
          ),
        ),
      ),
    )
