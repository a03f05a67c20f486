-- ===== src/Cli/Numbers/Bounds.antt =====
-- What the parsed numbers are.
use native.Mathlib.Nat.{div-mul-le_self, mul-le-mul_right}
use agentic_engineering_trai.Base.{
  ℕ, ◌*◌, ◌/◌, ◌≤◌, ◌≡◌, refl, ap, List, not, ◌||◌, Option, none, some, arith, inl, inr, Bool-cases,
  ltb, ◌==◌, length, get_or,
}
use agentic_engineering_trai.Common.Text.{is_empty}
use agentic_engineering_trai.Cli.Numbers.{
  stoull, accept_ull, parse_unsigned, split_unit, unit_ms, scale_duration, duration_in,
  parse_duration_ms,
}

-- A number that was accepted is at most `max`.
abbrev pub IsAtMost : ℕ → Option ℕ → Type 0
IsAtMost max none = Unit
IsAtMost max (some n) = n ≤ max

accept_ull-IsAtMost : (o : Option (ℕ × ℕ)) (size max : ℕ) → IsAtMost max (accept_ull o size max)
accept_ull-IsAtMost none size max = _
accept_ull-IsAtMost (some (value, consumed)) size max =
    elim (Bool-cases (not (consumed == size) || ltb max value)) [
      | inl e ↦ rw e _
      | inr e ↦ rw e (ground arith)
    ]

pub parse_unsigned-IsAtMost : (text : List ℕ) (max : ℕ) → IsAtMost max (parse_unsigned text max)
unfolding parse_unsigned
parse_unsigned-IsAtMost text max = elim (Bool-cases (is_empty text || get_or text 0 0 == b'-')) [
  | inl e ↦ rw e _
  | inr e ↦ rw e (accept_ull-IsAtMost (stoull text) (length text) max)
]

-- The duration without any bound on the width of the numbers.
abbrev exact_in : Option ℕ → List ℕ → Option ℕ
exact_in none number = none
exact_in (some m) number = elim (parse_unsigned number (4294967295 / m)) [
  | none ↦ none
  | some v ↦ some (v * m)
]

abbrev pub exact_duration : List ℕ → Option ℕ
exact_duration text = let (number, unit) = split_unit text in exact_in (unit_ms unit) number

scale_duration_exact :
    (o : Option ℕ) (m : ℕ)
    → IsAtMost (4294967295 / m) o
    → scale_duration o m ≡ elim o [ none ↦ none | some v ↦ some (v * m) ]
scale_duration_exact none m h = refl
scale_duration_exact (some v) m h =
    let fits : v * m ≤ 4294967295 / m * m = mul-le-mul_right m h in
    let below = div-mul-le_self 4294967295 m in ap some (omega (arith, fits, below))

duration_in_exact : (o : Option ℕ) (number : List ℕ) → duration_in o number ≡ exact_in o number
duration_in_exact none number = refl
duration_in_exact (some m) number =
    scale_duration_exact (parse_unsigned number (4294967295 / m)) m
      (parse_unsigned-IsAtMost number (4294967295 / m))

-- A duration is accepted without wrapping: it is its number of the unit's milliseconds.
pub parse_duration_ms_exact : (text : List ℕ) → parse_duration_ms text ≡ exact_duration text
unfolding parse_duration_ms
parse_duration_ms_exact text =
    let (number, unit) = split_unit text in duration_in_exact (unit_ms unit) number
