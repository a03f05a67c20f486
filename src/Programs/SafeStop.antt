-- ===== src/Programs/SafeStop.antt =====
-- apps/culina_app_main.cpp, class SafeStop: the heater is switched off and then the motor, each
-- acknowledged, within a deadline.
pub mod Order
pub mod Pending
use agentic_engineering_trai.Base.{
  ℕ, Bool, true, false, not, ◌&&◌, Option, none, some, leb, ◌==◌, if◌then◌else◌, sub_u32,
}
use agentic_engineering_trai.Common.Status.{Status, is_ok}
use agentic_engineering_trai.Protocol.Wire.{Frame}
use agentic_engineering_trai.Protocol.Wire
use agentic_engineering_trai.App.McuClient.{McuClient, heater_off, motor_stop}
use agentic_engineering_trai.App.Cooking.Controller.{is_response, clear_command_status}

pub data StopPhase : Type 0 where
  idle heater motor : StopPhase

abbrev pub is_idle : StopPhase → Bool
is_idle idle = true
is_idle _ = false

pub record SafeStop : Type 0 where
  pub phase : StopPhase
  pub request_sent : Bool
  pub started_ms : ℕ

abbrev pub new_safe_stop : SafeStop
new_safe_stop = record { phase = idle; request_sent = false; started_ms = 0 }

abbrev pub stop_deadline_ms : ℕ
stop_deadline_ms = 1000

unfoldable pub begin_stop : ℕ → SafeStop
begin_stop now = record { phase = heater; request_sent = false; started_ms = now }

abbrev pub is_active : SafeStop → Bool
is_active s = not (is_idle s.phase)

unfoldable pub is_expired : SafeStop → ℕ → Bool
is_expired s now = is_active s && leb stop_deadline_ms (sub_u32 now s.started_ms)

-- A response of the safety MCU, and whether the stop is complete.
abbrev pub note_phase : StopPhase → SafeStop → ℕ → SafeStop × Bool
note_phase idle s id = (s, false)
note_phase heater s id =
    if id == Wire.heater_off
    then (record s { phase = motor; request_sent = false }, false)
    else (s, false)
note_phase motor s id =
    if id == Wire.motor_stop
    then (record s { phase = idle; request_sent = false }, true)
    else (s, false)

unfoldable pub note_response : SafeStop → Option Frame → SafeStop × Bool
note_response s none = (s, false)
note_response s (some r) = if is_response r.type then note_phase s.phase s r.msg_id else (s, false)

-- A request that failed is sent again.
abbrev pub forget_failure : SafeStop → McuClient → SafeStop × McuClient
forget_failure s c =
    if not (is_ok c.last_command_status)
    then (record s { request_sent = false }, clear_command_status c)
    else (s, c)

abbrev send_phase : StopPhase → McuClient → ℕ → McuClient × Status
send_phase heater c now = heater_off c now
send_phase _ c now = motor_stop c now

unfoldable pub send_stop : SafeStop → McuClient → ℕ → SafeStop × McuClient
send_stop s c now =
    let (c', status) = send_phase s.phase c now in
    if not s.request_sent && not c.waiting
    then (record s { request_sent = is_ok status }, c')
    else (s, c)

abbrev pub request_stop : SafeStop → McuClient → ℕ → SafeStop × McuClient
request_stop s c now = let (s', c') = forget_failure s c in send_stop s' c' now

-- Whether the stop is complete comes last.
unfoldable pub service : SafeStop → McuClient → ℕ → Option Frame → SafeStop × McuClient × Bool
service s c now response =
    let (s', complete) = note_response s response in
    let (s'', c') = request_stop s' c now in if complete then (s', c, true) else (s'', c', false)
