-- ===== src/Common/RingBuffer/Refine.antt =====
-- A ring buffer behaves as the bounded queue of the bytes that it holds.
use native.Mathlib.Nat.{mod-add-mod, mod-eq_of_lt, mod-eq-sub-mod, add-zero}
use native.Mathlib.Decide.{dec_lt}
use agentic_engineering_trai.Base.{
  ℕ, zero, suc, ◌+◌, ◌-◌, ◌%◌, ◌≤◌, ◌<◌, ◌≡◌, ◌≢◌, refl, sym, ap, ap₂, ◌∙◌, List, [], ◌∷◌, ◌++◌,
  Bool, true, false, Option, none, some, arith, ltb, if◌then◌else◌, length, get_or, set, length-set,
  length-replicate, get_or-set_self, get_or-set_ne,
}
use agentic_engineering_trai.Common.RingBuffer.{RingBuffer, fresh, push, pop}

-- The specification: a queue of at most `capacity` bytes, oldest first.
unfoldable pub enqueue : ℕ → List ℕ → ℕ → List ℕ × Bool
enqueue capacity q byte = if ltb (length q) capacity then (q ++ byte ∷ [], true) else (q, false)

unfoldable pub dequeue : List ℕ → List ℕ × Option ℕ
dequeue [] = ([], none)
dequeue (x ∷ q) = (q, some x)

-- The `n` bytes from index `i` on, going round at the capacity.
abbrev pub ahead : List ℕ → ℕ → ℕ → ℕ → List ℕ
ahead buf capacity i zero = []
ahead buf capacity i (suc n) = get_or buf i 0 ∷ ahead buf capacity ((i + 1) % capacity) n

module _ (capacity : ℕ) where
  abbrev pub contents : RingBuffer → List ℕ
  contents r = ahead r.buf capacity r.tail r.count

  pub record IsValid (r : RingBuffer) : Type 0 where
    pub storage : length r.buf ≡ capacity
    pub tail_in : r.tail < capacity
    pub count_in : r.count ≤ capacity
    pub head_at : r.head ≡ (r.tail + r.count) % capacity

  pub length-ahead : (buf : List ℕ) (i n : ℕ) → length (ahead buf capacity i n) ≡ n
  length-ahead buf i zero = refl
  length-ahead buf i (suc n) = ap suc (length-ahead buf ((i + 1) % capacity) n)

  ahead_of_pos :
      (buf : List ℕ) (i n : ℕ)
      → n ≢ 0
      → ahead buf capacity i n ≡ get_or buf i 0 ∷ ahead buf capacity ((i + 1) % capacity) (n - 1)
  ahead_of_pos buf i zero h = absurd (h refl)
  ahead_of_pos buf i (suc n) h = ap (λ k. ahead buf capacity i (suc k)) (omega arith)

  -- Fewer steps than the capacity do not lead back.
  round-ne : (i k : ℕ) → i < capacity → suc k < capacity → (i + suc k) % capacity ≢ i
  round-ne i k hi hk = elim (dec_lt (i + suc k) capacity) [
    | yes p ↦ omega (arith, mod-eq_of_lt p)
    | no p ↦ omega (
      arith,
      mod-eq-sub-mod {n = i + suc k} {m = capacity} (omega arith),
      mod-eq_of_lt {n = i + suc k - capacity} {m = capacity} (omega arith),
    )
  ]

  ahead-set :
      (buf : List ℕ) (byte n i at : ℕ)
      → length buf ≡ capacity
      → i < capacity
      → n < capacity
      → at ≡ (i + n) % capacity
      → ahead (set buf at byte) capacity i (suc n) ≡ ahead buf capacity i n ++ byte ∷ []
  ahead-set buf byte zero i at hb hi hn e =
      rw (e, add-zero, mod-eq_of_lt hi, get_or-set_self buf i byte 0 (omega arith))
  ahead-set buf byte (suc n) i at hb hi hn e =
      ap₂ ◌∷◌ (get_or-set_ne buf byte 0 (rw e (round-ne i n hi hn)))
        (ahead-set buf byte n ((i + 1) % capacity) at hb (omega arith) (omega arith) (e ∙ onward))
    where
      onward : (i + suc n) % capacity ≡ ((i + 1) % capacity + n) % capacity
      onward = rw mod-add-mod (ap (λ k. k % capacity) (omega arith))

  pub fresh-IsValid : 0 < capacity → IsValid (fresh capacity)
  unfolding fresh
  fresh-IsValid h = ground (arith, length-replicate {A = ℕ} capacity 0)

  advance_end : (t n : ℕ) → ((t + n) % capacity + 1) % capacity ≡ (t + (n + 1)) % capacity
  advance_end t n = mod-add-mod (t + n) capacity 1 ∙ ap (λ k. k % capacity) (omega arith)

  advance_start : (t n : ℕ) → n ≢ 0 → (t + n) % capacity ≡ ((t + 1) % capacity + (n - 1)) % capacity
  advance_start t n h =
      ap (λ k. k % capacity) (omega arith) ∙ sym (mod-add-mod (t + 1) capacity (n - 1))

  pub push-IsValid : {r : RingBuffer} (byte : ℕ) → IsValid r → IsValid (push capacity r byte).0
  unfolding push
  push-IsValid {r} byte v = ground (arith, length-set r.buf r.head byte, advance_end r.tail r.count)

  pub pop-IsValid : {r : RingBuffer} → IsValid r → IsValid (pop capacity r).0
  unfolding pop
  pop-IsValid {r} v = ground (arith, advance_start r.tail r.count)

  -- `push` accepts a byte exactly when the queue is not full, and then puts it last.
  pub push_refines :
      {r : RingBuffer} (byte : ℕ)
      → IsValid r
      → let (r', done) = push capacity r byte in
        (contents r', done) ≡ enqueue capacity (contents r) byte
  unfolding push enqueue
  push_refines {r} byte v =
      ground (arith, length-ahead r.buf r.tail r.count, ahead-set r.buf byte r.count r.tail r.head)

  -- `pop` takes the oldest byte exactly when the queue is not empty.
  pub pop_refines :
      {r : RingBuffer}
      → IsValid r
      → let (r', out) = pop capacity r in (contents r', out) ≡ dequeue (contents r)
  unfolding pop dequeue
  pop_refines {r} v = ground (arith, ahead_of_pos r.buf r.tail r.count)
