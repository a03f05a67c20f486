-- ===== src/App/OtaUpdater.antt =====
-- app/ota/ota_updater.cpp: the checksum of a staged image, a piece at a time. A `size_t` has 64 bits.
pub mod Verify
use agentic_engineering_trai.Base.{
  ℕ, zero, suc, ◌+◌, ◌-◌, ◌*◌, ◌/◌, ◌%◌, ◌^◌, List, [], Bool, true, false, not, Option, none, some,
  ltb, leb, ◌==◌, if◌then◌else◌, u32, take, drop,
}
use agentic_engineering_trai.Common.Status.{Status, ok, invalid_argument, not_ready}
use agentic_engineering_trai.Common.Crc16.{crc16_ccitt, crc_seed}

pub data OtaState : Type 0 where
  idle verifying ready failed : OtaState

abbrev pub is_verifying : OtaState → Bool
is_verifying verifying = true
is_verifying _ = false

abbrev pub chunk_bytes : ℕ
chunk_bytes = 4096

-- `image` holds the bytes at the pointer, of which `image_len` are the image.
pub record OtaUpdater : Type 0 where
  pub state : OtaState
  pub image : List ℕ
  pub image_len : ℕ
  pub verified : ℕ
  pub expected_crc : ℕ
  pub running_crc : ℕ

abbrev pub new_updater : OtaUpdater
new_updater = record {
  state = idle;
  image = [];
  image_len = 0;
  verified = 0;
  expected_crc = 0;
  running_crc = crc_seed;
}

-- `image` is none for a null pointer.
unfoldable pub begin : OtaUpdater → Option (List ℕ) → ℕ → ℕ → OtaUpdater × Status
begin u none len expected = (u, invalid_argument)
begin u (some image) len expected =
    if len == 0 then (u, invalid_argument) else if is_verifying u.state then (u, not_ready) else (
      record {
        state = verifying;
        image = image;
        image_len = len;
        verified = 0;
        expected_crc = expected;
        running_crc = crc_seed;
      },
      ok,
    )

-- The size of the next piece.
abbrev pub chunk_of : OtaUpdater → ℕ
chunk_of u =
    if ltb chunk_bytes (u.image_len - u.verified) then chunk_bytes else u.image_len - u.verified

unfoldable pub step : OtaUpdater → OtaUpdater
step u =
    let chunk = chunk_of u in
    let crc = crc16_ccitt (take chunk (drop u.verified u.image)) u.running_crc in
    let verified = u.verified + chunk in
    if not (is_verifying u.state) then u else record u {
      running_crc = crc;
      verified = verified;
      state =
          if leb u.image_len verified
          then (if crc == u.expected_crc then ready else failed)
          else u.state;
    }

unfoldable pub progress_percent : OtaUpdater → ℕ
progress_percent u = if u.image_len == 0 then 0 else u32 (u.verified * 100 % 2 ^ 64 / u.image_len)

-- A number of ticks.
unfoldable pub steps : ℕ → OtaUpdater → OtaUpdater
steps zero u = u
steps (suc n) u = steps n (step u)
