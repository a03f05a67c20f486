-- ===== src/Mcu/SafetyMcu/Requests.antt =====
-- What single requests may and may not do: end a fault, release the lid, start the motor.
use agentic_engineering_trai.Base.{
  ◌≡◌, ◌<◌, ap, ◌∙◌, Bool, true, false, ◌&&◌, inl, inr, arith, ◌==◌, if◌then◌else◌, Bool-cases, All,
}
use agentic_engineering_trai.Common.Floats.{Floats}
use agentic_engineering_trai.Sim.Lid.{set_lock}
use agentic_engineering_trai.Protocol.Wire.{
  Frame, MsgId, no_fault, is_request, motor_stop, lid_unlock,
}
use agentic_engineering_trai.Mcu.Limits.{unlock_max_rpm}
use agentic_engineering_trai.Mcu.Interlocks.{Inputs}
use agentic_engineering_trai.Mcu.Device.{Mcu, send_frame}
use agentic_engineering_trai.Mcu.CommandHandler.{
  respond, nack_request, current_grams, handle_ping, handle_get_version, handle_motor_set_target,
  handle_motor_stop, handle_heater_set_target, handle_heater_off, handle_scale_tare,
  handle_scale_read, handle_lid_lock, handle_lid_unlock, Handler, handlers, is_allowed_in_fault,
  handle,
}
use agentic_engineering_trai.Mcu.SafetyMcu.{serve}
use agentic_engineering_trai.Mcu.SafetyMcu.Serving.{handle_inv}
use agentic_engineering_trai.Mcu.SafetyMcu.Sampling.{
  is_gone, InTick, serve_fault, InTick-Sampled, can_clear_fault-is_gone,
}

module _ (fl : Floats) where
  open fl use {Float, lt}

  -- Wherever in the receive loop of a tick a frame is served: it ends the fault if it is a request to
  -- stop the motor with an empty payload and, where the fault is an overtemperature, the sensor reads
  -- less than 165 degrees in this tick, where it is a failure of the sensor, the sensor can be read;
  -- every other frame leaves the fault as it is (SR-007).
  pub serve-fault :
      (m p : Mcu Float) (f : Frame)
      → InTick fl m p
      → (serve fl p f).fault ≡ (
          if ((is_request f.type && f.msg_id == motor_stop) && f.payload_len == 0)
            && is_gone fl p.fault m.hw
          then no_fault
          else p.fault)
  serve-fault m p f h =
      serve_fault fl p f
      ∙ ap
          (λ b.
            if ((is_request f.type && f.msg_id == motor_stop) && f.payload_len == 0) && b
            then no_fault
            else p.fault)
          (can_clear_fault-is_gone fl m.hw p (InTick-Sampled fl m h))

  module _ (r : Frame) (s : Inputs Float) (m : Mcu Float) (faulted : Bool) where
    -- What is needed to release a locked lid.
    abbrev pub MayUnlock : Mcu Float → Type 0
    MayUnlock p =
        m.hw.lid.locked ≡ true
        → p.hw.lid.locked ≡ false
        → (r.msg_id ≡ lid_unlock)
          × (r.payload_len ≡ 0)
          × (s.rpm < unlock_max_rpm)
          × (faulted ≡ false)

    not_in_fault :
        (faulted ≡ true → is_allowed_in_fault fl r.msg_id ≡ true)
        → (lid_unlock == r.msg_id) ≡ true
        → faulted ≡ false
    not_in_fault a e = elim (Bool-cases faulted) [
      | inl f ↦ let allowed = a f in ground arith
      | inr f ↦ f
    ]

    table-MayUnlock :
        (faulted ≡ true → is_allowed_in_fault fl r.msg_id ≡ true)
        → All
            (λ (e : MsgId × Handler fl). (e.0 == r.msg_id) ≡ true → MayUnlock (e.1 r s m))
            (handlers fl)
    unfolding nack_request respond send_frame current_grams handle_ping handle_get_version
        handle_motor_set_target handle_motor_stop handle_heater_set_target handle_heater_off
        handle_scale_tare handle_scale_read handle_lid_lock handle_lid_unlock set_lock
    table-MayUnlock a = (
      λ h. ground arith,
      (
        λ h. ground arith,
        (
          λ h. ground arith,
          (
            λ h. ground arith,
            (
              λ h. ground arith,
              (
                λ h. ground arith,
                (
                  λ h. ground arith,
                  (
                    λ h. ground arith,
                    (λ h. ground arith, (λ h. ground (arith, not_in_fault a h), tt)),
                  ),
                ),
              ),
            ),
          ),
        ),
      ),
    )

    -- A request releases a locked lid only if it asks for that with an empty payload, the blade turns
    -- slower than 100 rpm, and there is no fault (SR-008).
    pub handle-lid_locked :
        m.hw.lid.locked ≡ true
        → (handle fl r s faulted m).hw.lid.locked ≡ false
        → (r.msg_id ≡ lid_unlock)
          × (r.payload_len ≡ 0)
          × (s.rpm < unlock_max_rpm)
          × (faulted ≡ false)
    unfolding nack_request send_frame
    handle-lid_locked =
        handle_inv fl r s m MayUnlock faulted (λ a b. absurd (cc (a, b)))
          (λ a b. absurd (cc (a, b))) table-MayUnlock
