-- ===== src/Common/RingBuffer.antt =====
-- common/ring_buffer.h, at any capacity: a byte queue over a fixed array.
pub mod Refine
use agentic_engineering_trai.Base.{
  ℕ, ◌+◌, ◌-◌, ◌%◌, List, Bool, true, false, Option, none, some, ◌==◌, if◌then◌else◌, set, get_or,
  replicate,
}

pub record RingBuffer : Type 0 where
  pub buf : List ℕ
  pub head : ℕ
  pub tail : ℕ
  pub count : ℕ

module _ (capacity : ℕ) where
  unfoldable pub fresh : RingBuffer
  fresh = record { buf = replicate capacity 0; head = 0; tail = 0; count = 0 }

  unfoldable pub push : RingBuffer → ℕ → RingBuffer × Bool
  push r byte = if r.count == capacity then (r, false) else (
    record r { buf = set r.buf r.head byte; head = (r.head + 1) % capacity; count = r.count + 1 },
    true,
  )

  -- The option is the byte that goes through `out`, if any.
  unfoldable pub pop : RingBuffer → RingBuffer × Option ℕ
  pop r = if r.count == 0 then (r, none) else (
    record r { tail = (r.tail + 1) % capacity; count = r.count - 1 },
    some (get_or r.buf r.tail 0),
  )

unfoldable pub empty : RingBuffer → Bool
empty r = r.count == 0

unfoldable pub size : RingBuffer → ℕ
size r = r.count
