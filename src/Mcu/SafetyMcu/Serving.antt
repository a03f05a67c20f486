-- ===== src/Mcu/SafetyMcu/Serving.antt =====
-- What a request may do to the outputs: no speed above the maximum and no heater target outside
-- the user range, and nothing at all during a fault but switching off.
use agentic_engineering_trai.Base.{
  ℕ, ◌≡◌, refl, Bool, true, false, not, ◌&&◌, inl, inr, ◌≤ℤ◌, arith, ltb, ◌==◌, if◌then◌else◌, All,
  Bool-cases, get_or,
}
use agentic_engineering_trai.Common.Floats.{Floats, FloatLaws, of_nat}
use agentic_engineering_trai.Protocol.Wire.{Frame, MsgId, is_request, get_u16}
use agentic_engineering_trai.Mcu.Limits.{max_rpm, heater_min_target_deci, heater_max_target_deci}
use agentic_engineering_trai.Mcu.Interlocks.{Inputs, clamp_speed_request}
use agentic_engineering_trai.Mcu.MotorController
use agentic_engineering_trai.Mcu.MotorController.{MotorController}
use agentic_engineering_trai.Mcu.MotorController.Bounds.{
  IsBounded, set_target-IsBounded, burst-IsBounded, stop-IsBounded,
}
use agentic_engineering_trai.Mcu.HeaterPid
use agentic_engineering_trai.Mcu.HeaterPid.{HeaterPid}
use agentic_engineering_trai.Mcu.Device.{Mcu, send_frame}
use agentic_engineering_trai.Mcu.CommandHandler.{
  respond, nack_request, current_grams, handle_ping, handle_get_version, handle_motor_set_target,
  handle_motor_stop, handle_heater_set_target, handle_heater_off, handle_scale_tare,
  handle_scale_read, handle_lid_lock, handle_lid_unlock, Handler, handlers, is_allowed_in_fault,
  handle,
}
use agentic_engineering_trai.Mcu.SafetyMcu.Handlers.{
  run_entry_inv, Kept, nack-Kept, table-Kept, SameRx, nack-rx, table-SameRx,
}

-- The motor and the heater controller are off.
pub record Quiet (fl : Floats) (p : Mcu fl.Float) : Type 0 where
  pub target_zero : p.motor.target_rpm ≡ 0
  pub commanded_zero : p.motor.commanded_rpm ≡ of_nat fl 0
  pub heater_disabled : p.pid.enabled ≡ false

-- A heater that is on has a target that the user may set.
abbrev pub IsLegalTarget : {F : Type 0} → HeaterPid F → Type 0
IsLegalTarget p =
    p.enabled ≡ true
    → (heater_min_target_deci ≤ℤ p.target_deci) × (p.target_deci ≤ℤ heater_max_target_deci)

module _ (fl : Floats) where
  open fl use {Float}

  module _ (r : Frame) (s : Inputs Float) (m : Mcu Float) where
    nack-Quiet : Quiet fl m → Quiet fl (nack_request fl m r)
    unfolding nack_request send_frame
    nack-Quiet v = record {
      target_zero = v.target_zero;
      commanded_zero = v.commanded_zero;
      heater_disabled = v.heater_disabled;
    }

    table-Quiet :
        Quiet fl m
        → is_allowed_in_fault fl r.msg_id ≡ true
        → All
            (λ (e : MsgId × Handler fl). (e.0 == r.msg_id) ≡ true → Quiet fl (e.1 r s m))
            (handlers fl)
    unfolding nack_request respond send_frame handle_ping handle_get_version handle_motor_stop
        handle_heater_off MotorController.stop HeaterPid.disable
    table-Quiet v a = (
      λ h. ground arith,
      (
        λ h. ground arith,
        (
          λ h. ground arith,
          (
            λ h. ground arith,
            (
              λ h. ground arith,
              (
                λ h. ground arith,
                (
                  λ h. ground arith,
                  (λ h. ground arith, (λ h. ground arith, (λ h. ground arith, tt))),
                ),
              ),
            ),
          ),
        ),
      ),
    )

    table-IsLegalTarget :
        IsLegalTarget m.pid
        → All
            (λ (e : MsgId × Handler fl). (e.0 == r.msg_id) ≡ true → IsLegalTarget (e.1 r s m).pid)
            (handlers fl)
    unfolding nack_request respond send_frame current_grams handle_ping handle_get_version
        handle_motor_set_target handle_motor_stop handle_heater_set_target handle_heater_off
        handle_scale_tare handle_scale_read handle_lid_lock handle_lid_unlock HeaterPid.disable
        HeaterPid.set_target
    table-IsLegalTarget v = (
      λ h. ground arith,
      (
        λ h. ground arith,
        (
          λ h. ground arith,
          (
            λ h. ground arith,
            (
              λ h. ground arith,
              (
                λ h. ground arith,
                (
                  λ h. ground arith,
                  (λ h. ground arith, (λ h. ground arith, (λ h. ground arith, tt))),
                ),
              ),
            ),
          ),
        ),
      ),
    )

    table-motor :
        (P : MotorController Float → Type 0)
        → P m.motor
        → ((rpm profile : ℕ) → P (MotorController.set_target fl m.motor rpm profile))
        → ((rpm : ℕ) → P (MotorController.burst fl m.motor rpm))
        → P (MotorController.stop fl m.motor)
        → All
            (λ (e : MsgId × Handler fl). (e.0 == r.msg_id) ≡ true → P (e.1 r s m).motor)
            (handlers fl)
    unfolding nack_request respond send_frame current_grams handle_ping handle_get_version
        handle_motor_set_target handle_motor_stop handle_heater_set_target handle_heater_off
        handle_scale_tare handle_scale_read handle_lid_lock handle_lid_unlock
    table-motor P v set up off = (
      λ h. ground arith,
      (
        λ h. ground arith,
        (
          λ h. ground (
            arith,
            set
                (clamp_speed_request fl
                  (if ltb max_rpm (get_u16 r.payload) then max_rpm else get_u16 r.payload) s)
                (get_or r.payload 2 0),
            up (if ltb max_rpm (get_u16 r.payload) then max_rpm else get_u16 r.payload),
          ),
          (
            λ h. ground arith,
            (
              λ h. ground arith,
              (
                λ h. ground arith,
                (
                  λ h. ground arith,
                  (λ h. ground arith, (λ h. ground arith, (λ h. ground arith, tt))),
                ),
              ),
            ),
          ),
        ),
      ),
    )

    -- `handle` refuses, or runs an entry of the table that the fault lets through, or does nothing.
    pub handle_inv :
        (P : Mcu Float → Type 0) (faulted : Bool)
        → P m
        → P (nack_request fl m r)
        → ((faulted ≡ true → is_allowed_in_fault fl r.msg_id ≡ true)
            → All
                (λ (e : MsgId × Handler fl). (e.0 == r.msg_id) ≡ true → P (e.1 r s m))
                (handlers fl))
        → P (handle fl r s faulted m)
    unfolding handle
    handle_inv P faulted v n h = elim (Bool-cases (is_request r.type)) [
      | inl e ↦ elim (Bool-cases (faulted && not (is_allowed_in_fault fl r.msg_id))) [
        | inl f ↦ rw (e, f) n
        | inr f ↦ rw (e, f) (run_entry_inv fl P (handlers fl) r s m n (h (λ g. ground arith)))
      ]
      | inr e ↦ rw e v
    ]

    self-Kept : Kept fl r s m m
    self-Kept = record {
      fault = refl;
      inputs = refl;
      now_ms = refl;
      temperature = refl;
      temp_sensor_ok = refl;
      last_valid = refl;
    }

    pub handle-Kept : (faulted : Bool) → Kept fl r s m (handle fl r s faulted m)
    handle-Kept faulted =
        handle_inv (Kept fl r s m) faulted self-Kept (nack-Kept fl r s m) (λ a. table-Kept fl r s m)

    pub handle-SameRx : (faulted : Bool) → SameRx fl r s m (handle fl r s faulted m)
    handle-SameRx faulted =
        handle_inv (SameRx fl r s m) faulted refl (nack-rx fl r s m m) (λ a. table-SameRx fl r s m)

    -- If the motor and the heater controller are off, no request during a fault switches them on.
    pub handle-Quiet : Quiet fl m → Quiet fl (handle fl r s true m)
    handle-Quiet v = handle_inv (Quiet fl) true v (nack-Quiet v) (λ a. table-Quiet v (a refl))

    -- If a heater that is on has a target from 37.0 to 160.0 degrees, so it has after any request.
    pub handle-IsLegalTarget :
        (faulted : Bool) → IsLegalTarget m.pid → IsLegalTarget (handle fl r s faulted m).pid
    unfolding nack_request send_frame
    handle-IsLegalTarget faulted v =
        handle_inv (λ p. IsLegalTarget p.pid) faulted v v (λ a. table-IsLegalTarget v)

    -- No request takes the motor out of its bounds.
    pub handle-IsBounded :
        (laws : FloatLaws fl) (faulted : Bool)
        → IsBounded fl laws m.motor
        → IsBounded fl laws (handle fl r s faulted m).motor
    unfolding nack_request send_frame
    handle-IsBounded laws faulted v =
        handle_inv (λ p. IsBounded fl laws p.motor) faulted v v
          (λ a.
            table-motor (IsBounded fl laws) v
              (λ rpm profile. set_target-IsBounded fl laws rpm profile v)
              (λ rpm. burst-IsBounded fl laws rpm v) (stop-IsBounded fl laws v))
