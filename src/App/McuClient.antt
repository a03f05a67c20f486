-- ===== src/App/McuClient.antt =====
-- app/mcu_client.cpp: requests to the safety MCU, their retry and their deadline. The UART and the
-- telemetry store are part of the state; `now` is the clock during one call.
pub mod Deadline
pub mod Answers
use agentic_engineering_trai.Base.{
  ℕ, zero, suc, ◌+◌, List, [], ◌∷◌, ◌++◌, Bool, true, false, not, ◌&&◌, ◌||◌, Option, none, some, ℤ,
  pos, ltb, leb, ltb_ℤ, ◌==◌, if◌then◌else◌, u8, sub_u32, to_int32, length, take, drop, get_or,
  replicate,
}
use agentic_engineering_trai.Common.Status.{
  Status, ok, timeout, not_ready, invalid_argument, protocol_error, is_ok,
}
use agentic_engineering_trai.Hal.Uart.{Uart}
use agentic_engineering_trai.Protocol.Wire.{
  Frame, FrameType, request, response, telemetry, nack, MsgId, ping, motor_set_target,
  heater_set_target, scale_tare, lid_lock, lid_unlock, telemetry_msg, fault_msg, max_payload,
  telemetry_payload_size, get_i16, get_u16, get_i32, put_u16, put_i16, empty_frame,
}
use agentic_engineering_trai.Protocol.Wire
use agentic_engineering_trai.Protocol.Link.{
  Link, new_link, blit, cancel_pending_tx, send, poll, is_null, pointed,
}
use agentic_engineering_trai.App.TelemetryStore.{TelemetryStore, append}

abbrev pub response_timeout_ms : ℕ
response_timeout_ms = 50

abbrev pub request_deadline_ms : ℕ
request_deadline_ms = 150

abbrev pub heartbeat_interval_ms : ℕ
heartbeat_interval_ms = 1000

-- `last_fault` is the code as it was received.
pub record McuClient : Type 0 where
  pub link : Link
  pub uart : Uart
  pub store : TelemetryStore
  pub next_seq : ℕ
  pub pending_seq : ℕ
  pub waiting : Bool
  pub pending_msg_id : MsgId
  pub response_ready : Bool
  pub response_frame : Frame
  pub last_fault : ℕ
  pub sent_at_ms : ℕ
  pub request_started_ms : ℕ
  pub retried : Bool
  pub pending_payload : List ℕ
  pub pending_payload_len : ℕ
  pub last_command_status : Status
  pub last_tx_ms : ℕ

abbrev pub new_client : Uart → McuClient
new_client uart = record {
  link = new_link;
  uart = uart;
  store = [];
  next_seq = 0;
  pending_seq = 0;
  waiting = false;
  pending_msg_id = ping;
  response_ready = false;
  response_frame = empty_frame;
  last_fault = 0;
  sent_at_ms = 0;
  request_started_ms = 0;
  retried = false;
  pending_payload = replicate max_payload 0;
  pending_payload_len = 0;
  last_command_status = ok;
  last_tx_ms = 0;
}

-- `link_.send(...)` on the client's link.
abbrev pub client_send : McuClient → ℕ → MsgId → Option (List ℕ) → ℕ → McuClient × Status
client_send c seq msg_id payload len =
    let (link, uart, status) = send c.link c.uart request seq msg_id payload len in
    (record c { link = link; uart = uart }, status)

unfoldable pub give_up : McuClient → McuClient
give_up c = record c {
  link = cancel_pending_tx c.link;
  waiting = false;
  last_command_status = timeout;
}

unfoldable pub retry : McuClient → ℕ → McuClient
retry c now =
    let (c', status) =
      client_send c c.next_seq c.pending_msg_id (some c.pending_payload) c.pending_payload_len in
    if is_ok status
    then record c' {
      next_seq = u8 (c.next_seq + 1);
      pending_seq = c.next_seq;
      retried = true;
      sent_at_ms = now;
      last_tx_ms = now;
    }
    else c'

-- The part of `poll` in front of the receive loop.
unfoldable pub check_pending : McuClient → ℕ → McuClient
check_pending c now =
    if c.waiting && leb request_deadline_ms (sub_u32 now c.request_started_ms)
    then give_up c
    else if c.waiting
        && ltb_ℤ (pos 0) (to_int32 (sub_u32 (sub_u32 now c.sent_at_ms) response_timeout_ms))
    then (if not c.retried then retry c now else give_up c)
    else c

-- One received frame.
unfoldable pub take_answer : McuClient → Frame → Status → McuClient
take_answer c frame status =
    if (c.waiting && frame.msg_id == c.pending_msg_id) && frame.seq == c.pending_seq
    then record c {
      response_frame = frame;
      response_ready = true;
      waiting = false;
      last_command_status = status;
    }
    else c

abbrev pub route_type : FrameType → McuClient → Frame → ℕ → McuClient
route_type telemetry c frame now =
    if frame.msg_id == telemetry_msg && frame.payload_len == telemetry_payload_size
    then record c {
      store = append c.store (record {
        t_ms = now;
        deci_celsius = get_i16 (drop 4 frame.payload);
        rpm = get_u16 (drop 6 frame.payload);
        grams = get_i32 (drop 8 frame.payload);
        flags = get_or frame.payload 12 0;
      });
    }
    else if frame.msg_id == fault_msg && frame.payload_len == 1
    then record c { last_fault = get_or frame.payload 0 0 }
    else c
route_type response c frame now = take_answer c frame ok
route_type nack c frame now = take_answer c frame protocol_error
route_type request c frame now = c

unfoldable pub route : McuClient → Frame → ℕ → McuClient
route c frame now = route_type frame.type c frame now

-- The receive loop, with fuel; none means that the fuel ran out.
unfoldable pub route_loop : ℕ → McuClient → ℕ → Option McuClient
route_loop zero c now = none
route_loop (suc fuel) c now =
    let (link, uart, out) = poll c.link c.uart now in
    let c' : McuClient = record c { link = link; uart = uart } in
    elim out [ none ↦ some c' | some frame ↦ route_loop fuel (route c' frame now) now ]

unfoldable pub heartbeat : McuClient → ℕ → McuClient
heartbeat c now =
    let (c', status) =
      client_send (record c { next_seq = u8 (c.next_seq + 1) }) c.next_seq ping none 0 in
    if not c.waiting && leb heartbeat_interval_ms (sub_u32 now c.last_tx_ms)
    then (if is_ok status then record c' { last_tx_ms = now } else c')
    else c

abbrev pub map_client : (McuClient → McuClient) → Option McuClient → Option McuClient
map_client f none = none
map_client f (some c) = some (f c)

-- `McuClient::poll`
unfoldable pub pump : McuClient → ℕ → Option McuClient
pump c now =
    let checked = check_pending c now in
    map_client (λ k. heartbeat k now) (route_loop (suc (length c.uart.rx)) checked now)

unfoldable pub submit : McuClient → ℕ → MsgId → Option (List ℕ) → ℕ → McuClient × Status
submit c now id payload len =
    let (c', status) =
      client_send (record c { pending_seq = c.next_seq; next_seq = u8 (c.next_seq + 1) }) c.next_seq
        id payload len in
    if c.waiting || c.response_ready
    then (c, not_ready)
    else if ltb max_payload len || (ltb 0 len && is_null payload)
    then (c, invalid_argument)
    else if not (is_ok status)
    then (c', status)
    else (
      record c' {
        waiting = true;
        pending_msg_id = id;
        response_ready = false;
        sent_at_ms = now;
        request_started_ms = now;
        last_tx_ms = now;
        retried = false;
        last_command_status = ok;
        pending_payload =
            if ltb 0 len
            then blit c.pending_payload 0 (take len (pointed payload))
            else c.pending_payload;
        pending_payload_len = len;
      },
      ok,
    )

-- The frame goes through `out`, unless that is null.
unfoldable pub take_response : McuClient → Bool → McuClient × Option Frame
take_response c has_out =
    if not c.response_ready || not has_out
    then (c, none)
    else (record c { response_ready = false }, some c.response_frame)

unfoldable pub set_motor : McuClient → ℕ → ℕ → ℕ → McuClient × Status
set_motor c now rpm ramp_profile =
    submit c now motor_set_target (some (put_u16 rpm ++ ramp_profile ∷ [])) 3

unfoldable pub motor_stop : McuClient → ℕ → McuClient × Status
motor_stop c now = submit c now Wire.motor_stop none 0

unfoldable pub set_heater : McuClient → ℕ → ℤ → McuClient × Status
set_heater c now target = submit c now heater_set_target (some (put_i16 target)) 2

unfoldable pub heater_off : McuClient → ℕ → McuClient × Status
heater_off c now = submit c now Wire.heater_off none 0

unfoldable pub tare : McuClient → ℕ → McuClient × Status
tare c now = submit c now scale_tare none 0

unfoldable pub lock_lid : McuClient → ℕ → Bool → McuClient × Status
lock_lid c now locked = submit c now (if locked then lid_lock else lid_unlock) none 0
