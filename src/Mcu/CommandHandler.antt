-- ===== src/Mcu/CommandHandler.antt =====
-- mcu/command_handler.cpp: the requests of the application processor, one handler each, in the
-- order of the handler table.
use agentic_engineering_trai.Base.{
  ℕ, List, [], ◌∷◌, Bool, true, false, not, ◌&&◌, ◌||◌, Option, none, some, ℤ, pos, ◌-ℤ◌, ltb, leb,
  ltb_ℤ, ◌==◌, if◌then◌else◌, get_or,
}
use agentic_engineering_trai.Common.Status.{is_ok}
use agentic_engineering_trai.Common.Floats.{Floats, of_nat}
use agentic_engineering_trai.Sim.Lid.{set_lock}
use agentic_engineering_trai.Protocol.Wire.{
  Frame, MsgId, response, nack, is_request, ping, get_version, motor_set_target, motor_stop,
  heater_set_target, heater_off, scale_tare, scale_read, lid_lock, lid_unlock, ramp_burst, get_u16,
  put_u16, get_i16, put_i32,
}
use agentic_engineering_trai.Mcu.Limits.{
  max_rpm, unlock_max_rpm, tare_max_rpm, heater_min_target_deci, heater_max_target_deci,
}
use agentic_engineering_trai.Mcu.Interlocks.{Inputs, is_hot, clamp_speed_request}
use agentic_engineering_trai.Mcu.MotorController
use agentic_engineering_trai.Mcu.HeaterPid
use agentic_engineering_trai.Mcu.Device.{Mcu, next_reading, later_readings, send_frame}

module _ (fl : Floats) where
  open fl use {Float, div, ratio, trunc}

  unfoldable pub respond : Mcu Float → Frame → Option (List ℕ) → ℕ → Mcu Float
  respond m request payload payload_len =
      (send_frame m response request.seq request.msg_id payload payload_len).0

  unfoldable pub nack_request : Mcu Float → Frame → Mcu Float
  nack_request m request = (send_frame m nack request.seq request.msg_id none 0).0

  -- Tare-adjusted grams, 0 if the scale cannot be read. Each call reads the scale. The source subtracts
  -- 32-bit integers, and where that overflows it defines no value.
  unfoldable pub current_grams : Mcu Float → Mcu Float × ℤ
  current_grams m =
      let raw = next_reading m.hw.scale in
      (
        record m { hw = record m.hw { scale = later_readings m.hw.scale } },
        if not (is_ok raw.status)
            then pos 0
            else trunc (div (ratio (raw.value -ℤ m.tare_offset_counts) 1) (of_nat fl 10)),
      )

  unfoldable pub handle_ping : Frame → Inputs Float → Mcu Float → Mcu Float
  handle_ping request state m =
      if not (request.payload_len == 0) then nack_request m request else respond m request none 0

  unfoldable pub handle_get_version : Frame → Inputs Float → Mcu Float → Mcu Float
  handle_get_version request state m =
      if not (request.payload_len == 0)
      then nack_request m request
      else respond m request (some (0 ∷ 9 ∷ 0 ∷ [])) 3

  unfoldable pub handle_motor_set_target : Frame → Inputs Float → Mcu Float → Mcu Float
  handle_motor_set_target request state m =
      let requested = get_u16 request.payload in
      let bounded = if ltb max_rpm requested then max_rpm else requested in
      let ramp = get_or request.payload 2 0 in
      let allowed = clamp_speed_request fl bounded state in
      if not (request.payload_len == 3)
      then nack_request m request
      else if ltb ramp_burst ramp
      then nack_request m request
      else if ramp == ramp_burst
      then (if not state.lid_locked || is_hot fl state
          then nack_request m request
          else respond (record m { motor = MotorController.burst fl m.motor bounded }) request
              (some (put_u16 bounded)) 2)
      else respond (record m { motor = MotorController.set_target fl m.motor allowed ramp }) request
          (some (put_u16 allowed)) 2

  unfoldable pub handle_motor_stop : Frame → Inputs Float → Mcu Float → Mcu Float
  handle_motor_stop request state m =
      if not (request.payload_len == 0)
      then nack_request m request
      else respond (record m { motor = MotorController.stop fl m.motor }) request none 0

  unfoldable pub handle_heater_set_target : Frame → Inputs Float → Mcu Float → Mcu Float
  handle_heater_set_target request state m =
      let target = get_i16 request.payload in
      if not (request.payload_len == 2)
      then nack_request m request
      else if ltb_ℤ target heater_min_target_deci || ltb_ℤ heater_max_target_deci target
      then nack_request m request
      else respond (record m { pid = HeaterPid.set_target fl m.pid target }) request none 0

  unfoldable pub handle_heater_off : Frame → Inputs Float → Mcu Float → Mcu Float
  handle_heater_off request state m =
      if not (request.payload_len == 0)
      then nack_request m request
      else respond (record m { pid = HeaterPid.disable fl m.pid }) request none 0

  unfoldable pub handle_scale_tare : Frame → Inputs Float → Mcu Float → Mcu Float
  handle_scale_tare request state m =
      let raw = next_reading m.hw.scale in
      let m' : Mcu Float = record m { hw = record m.hw { scale = later_readings m.hw.scale } } in
      if not (request.payload_len == 0) || ltb tare_max_rpm state.rpm
      then nack_request m request
      else if not (is_ok raw.status)
      then nack_request m' request
      else respond (record m' { tare_offset_counts = raw.value }) request none 0

  unfoldable pub handle_scale_read : Frame → Inputs Float → Mcu Float → Mcu Float
  handle_scale_read request state m =
      if not (request.payload_len == 0)
      then nack_request m request
      else (let (m', grams) = current_grams m in respond m' request (some (put_i32 grams)) 4)

  unfoldable pub handle_lid_lock : Frame → Inputs Float → Mcu Float → Mcu Float
  handle_lid_lock request state m =
      let lid = set_lock m.hw.lid true in
      if not (request.payload_len == 0)
      then nack_request m request
      else respond (record m { hw = record m.hw { lid = lid } }) request
          (some ((if lid.locked then 1 else 0) ∷ [])) 1

  unfoldable pub handle_lid_unlock : Frame → Inputs Float → Mcu Float → Mcu Float
  handle_lid_unlock request state m =
      if not (request.payload_len == 0) || leb unlock_max_rpm state.rpm
      then nack_request m request
      else respond (record m { hw = record m.hw { lid = set_lock m.hw.lid false } }) request none 0

  abbrev pub Handler : Type 0
  Handler = Frame → Inputs Float → Mcu Float → Mcu Float

  -- `kHandlers`
  abbrev pub handlers : List (MsgId × Handler)
  handlers =
      (ping, handle_ping)
      ∷ (get_version, handle_get_version)
      ∷ (motor_set_target, handle_motor_set_target)
      ∷ (motor_stop, handle_motor_stop)
      ∷ (heater_set_target, handle_heater_set_target)
      ∷ (heater_off, handle_heater_off)
      ∷ (scale_tare, handle_scale_tare)
      ∷ (scale_read, handle_scale_read)
      ∷ (lid_lock, handle_lid_lock)
      ∷ (lid_unlock, handle_lid_unlock)
      ∷ []

  -- The search of `handle` through the table.
  unfoldable pub run_entry : List (MsgId × Handler) → Frame → Inputs Float → Mcu Float → Mcu Float
  run_entry [] request state m = nack_request m request
  run_entry ((id, handler) ∷ entries) request state m =
      if id == request.msg_id then handler request state m else run_entry entries request state m

  -- The requests that are served during a fault.
  abbrev pub is_allowed_in_fault : MsgId → Bool
  is_allowed_in_fault id = id == motor_stop || id == heater_off || id == ping || id == get_version

  unfoldable pub handle : Frame → Inputs Float → Bool → Mcu Float → Mcu Float
  handle request state faulted m =
      if not (is_request request.type)
      then m
      else if faulted && not (is_allowed_in_fault request.msg_id)
      then nack_request m request
      else run_entry handlers request state m
