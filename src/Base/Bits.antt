-- ===== src/Base/Bits.antt =====
-- `|` of fields that do not overlap is their sum, at every width.
use Prim.Native.Nat.{ℕ, zero, suc, ◌+◌, ◌*◌, ◌/◌, ◌%◌, ◌^◌, ◌≤◌, ◌<◌, max}
use Prim.Native.Nat.{bit_or, digits, bit_or-bitwise}
use mathlib.Core.Path.{◌≡◌, refl, ap, ◌∙◌}
use native.Mathlib.Nat.{le_refl, pow-suc}
use native.Mathlib.Omega.{arith}

-- The binary digits of `x | y`, read from the lowest one on with the fuel `i`.
abbrev merge : ℕ → ℕ → ℕ → ℕ
merge i x y = digits (λ rest. rest) max i x y

-- Any fuel that is at least `x` gives the same digits.
merge_enough : (x y i j : ℕ) → x ≤ j → x ≤ i → merge j x y ≡ merge i x y
merge_enough (suc x) y (suc i) (suc j) low high =
    ap (λ (t : ℕ). t * 2 + max (suc x % 2) (y % 2))
      (merge_enough (suc x / 2) (y / 2) i j (omega arith) (omega arith))
merge_enough (suc x) y i zero low high = absurd (omega arith)
merge_enough (suc x) y zero j low high = absurd (omega arith)
merge_enough zero y zero zero low high = refl
merge_enough zero y (suc i) zero low high = refl
merge_enough zero y zero (suc j) low high = refl
merge_enough zero y (suc i) (suc j) low high = refl

lowest_digit : (x y : ℕ) → bit_or x y ≡ max (x % 2) (y % 2) + bit_or (x / 2) (y / 2) * 2
lowest_digit zero y = simp bit_or-bitwise (omega arith)
lowest_digit (suc x) y =
    let half = merge_enough (suc x / 2) (y / 2) (suc x / 2) x (omega arith) (le_refl _) in
    simp bit_or-bitwise (omega (arith, half))

zero-bit_or : (b : ℕ) → bit_or 0 b ≡ b
zero-bit_or b = bit_or-bitwise 0 b

shift_suc : (q k : ℕ) → q * 2 ^ suc k ≡ 2 * (q * 2 ^ k)
shift_suc q k = omega (arith, ap (λ (t : ℕ). q * t) (pow-suc 2 k))

-- `r | (q << k)` is a sum where `r` fits `k` bits.
pub bit_or_fields : (k r q : ℕ) → r < 2 ^ k → bit_or r (q * 2 ^ k) ≡ r + q * 2 ^ k
bit_or_fields zero zero q h = zero-bit_or (q * 2 ^ 0) ∙ omega arith
bit_or_fields zero (suc r) q h = absurd (omega arith)
bit_or_fields (suc k) r q h = ground (
  arith,
  lowest_digit r (q * 2 ^ suc k),
  shift_suc q k,
  pow-suc 2 k,
  bit_or_fields k (r / 2) q (omega (arith, pow-suc 2 k)),
)
