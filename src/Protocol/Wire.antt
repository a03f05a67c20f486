-- ===== src/Protocol/Wire.antt =====
-- protocol/c1link.h: constants, frames, and little-endian fields. What the source writes through
-- a pointer is the list of bytes written; `p + k` is `drop k p`. `x & 0xFF` is `x % 256`, and
-- `x >> k` is `x / 2 ^ k`. An enumerator cast from a byte (`MsgId`) is that byte.
pub mod Fields
use agentic_engineering_trai.Base.{
  ℕ, ◌*◌, ◌/◌, ◌%◌, ◌^◌, List, [], ◌∷◌, ◌++◌, ℤ, Bool, true, false, bit_or, u8, u16, of_int16,
  to_int16, of_int32, to_int32, get_or, replicate, ◌==◌, if◌then◌else◌,
}

abbrev pub sync_0 : ℕ
sync_0 = 0xA5

abbrev pub sync_1 : ℕ
sync_1 = 0x5A

abbrev pub protocol_version : ℕ
protocol_version = 0x10

abbrev pub max_payload : ℕ
max_payload = 250

abbrev pub header_size : ℕ
header_size = 8

abbrev pub crc_size : ℕ
crc_size = 2

abbrev pub max_frame_size : ℕ
max_frame_size = 260

pub data FrameType : Type 0 where
  request response telemetry nack : FrameType

-- `static_cast<std::uint8_t>(type)`
abbrev pub type_code : FrameType → ℕ
type_code request = 0x01
type_code response = 0x02
type_code telemetry = 0x03
type_code nack = 0x04

-- `static_cast<FrameType>(byte)`, which the parser calls on 1 to 4 only.
abbrev pub type_of_code : ℕ → FrameType
type_of_code b =
    if b == 0x01
    then request
    else if b == 0x02
    then response
    else if b == 0x03
    then telemetry
    else nack

abbrev pub is_request : FrameType → Bool
is_request request = true
is_request _ = false

abbrev pub MsgId : Type 0
MsgId = ℕ

abbrev pub ping : MsgId
ping = 0x01

abbrev pub get_version : MsgId
get_version = 0x02

abbrev pub motor_set_target : MsgId
motor_set_target = 0x10

abbrev pub motor_stop : MsgId
motor_stop = 0x11

abbrev pub heater_set_target : MsgId
heater_set_target = 0x20

abbrev pub heater_off : MsgId
heater_off = 0x21

abbrev pub scale_tare : MsgId
scale_tare = 0x30

abbrev pub scale_read : MsgId
scale_read = 0x31

abbrev pub lid_lock : MsgId
lid_lock = 0x40

abbrev pub lid_unlock : MsgId
lid_unlock = 0x41

abbrev pub telemetry_msg : MsgId
telemetry_msg = 0x80

abbrev pub fault_msg : MsgId
fault_msg = 0x81

abbrev pub ramp_gentle : ℕ
ramp_gentle = 0

abbrev pub ramp_normal : ℕ
ramp_normal = 1

abbrev pub ramp_fast : ℕ
ramp_fast = 2

abbrev pub ramp_burst : ℕ
ramp_burst = 3

abbrev pub flag_lid_closed : ℕ
flag_lid_closed = 0x01

abbrev pub flag_lid_locked : ℕ
flag_lid_locked = 0x02

abbrev pub flag_heater_on : ℕ
flag_heater_on = 0x04

abbrev pub flag_motor_stalled : ℕ
flag_motor_stalled = 0x08

pub data FaultCode : Type 0 where
  no_fault overtemp motor_stall sensor_failure link_lost : FaultCode

abbrev pub fault_code : FaultCode → ℕ
fault_code no_fault = 0
fault_code overtemp = 1
fault_code motor_stall = 2
fault_code sensor_failure = 3
fault_code link_lost = 4

-- `code == FaultCode::None`
abbrev pub is_no_fault : FaultCode → Bool
is_no_fault no_fault = true
is_no_fault _ = false

-- `payload` is the whole array of 250 bytes, of which `payload_len` are meant.
pub record Frame : Type 0 where
  pub type : FrameType
  pub seq : ℕ
  pub msg_id : MsgId
  pub payload_len : ℕ
  pub payload : List ℕ

abbrev pub empty_frame : Frame
empty_frame = record {
  type = request;
  seq = 0;
  msg_id = ping;
  payload_len = 0;
  payload = replicate max_payload 0;
}

abbrev pub telemetry_payload_size : ℕ
telemetry_payload_size = 13

pub record TelemetryData : Type 0 where
  pub tick : ℕ
  pub deci_celsius : ℤ
  pub rpm : ℕ
  pub grams : ℤ
  pub flags : ℕ

unfoldable pub put_u16 : ℕ → List ℕ
put_u16 v = v % 256 ∷ u8 (v / 256) ∷ []

unfoldable pub get_u16 : List ℕ → ℕ
get_u16 p = u16 (bit_or (get_or p 0 0) (u16 (get_or p 1 0 * 2 ^ 8)))

unfoldable pub put_i16 : ℤ → List ℕ
unfolding put_u16
put_i16 v = put_u16 (of_int16 v)

unfoldable pub get_i16 : List ℕ → ℤ
unfolding get_u16
get_i16 p = to_int16 (get_u16 p)

unfoldable pub put_u32 : ℕ → List ℕ
put_u32 v = v % 256 ∷ v / 2 ^ 8 % 256 ∷ v / 2 ^ 16 % 256 ∷ u8 (v / 2 ^ 24) ∷ []

unfoldable pub get_u32 : List ℕ → ℕ
get_u32 p =
    bit_or (bit_or (bit_or (get_or p 0 0) (get_or p 1 0 * 2 ^ 8)) (get_or p 2 0 * 2 ^ 16))
      (get_or p 3 0 * 2 ^ 24)

unfoldable pub put_i32 : ℤ → List ℕ
unfolding put_u32
put_i32 v = put_u32 (of_int32 v)

unfoldable pub get_i32 : List ℕ → ℤ
unfolding get_u32
get_i32 p = to_int32 (get_u32 p)

unfoldable pub encode_telemetry : TelemetryData → List ℕ
unfolding put_u32 put_i16 put_u16 put_i32
encode_telemetry t =
    put_u32 t.tick ++ put_i16 t.deci_celsius ++ put_u16 t.rpm ++ put_i32 t.grams ++ t.flags ∷ []
