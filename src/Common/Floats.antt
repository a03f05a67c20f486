-- ===== src/Common/Floats.antt =====
-- The single-precision arithmetic that the firmware computes with. antt has no floating-point
-- numbers, so the type and its operations are a parameter of the model, and what the theorems need
-- of IEEE 754 are named laws: comparison, conversion and correctly rounded operations. A comparison
-- with a NaN is false.
use native.Mathlib.Nat.{mul-le-mul_left}
use agentic_engineering_trai.Base.{
  ℕ, ◌+◌, ◌-◌, ◌*◌, ◌/◌, ◌≤◌, ◌<◌, ◌≡◌, refl, Bool, true, false, ℤ, pos, negsuc, pos_part, ◌≤ℤ◌,
  arith, ltb, leb,
}

pub record Floats : Type 1 where
  pub Float : Type 0
  pub lt : Float → Float → Bool
  pub le : Float → Float → Bool
  pub is_finite : Float → Bool
  pub add : Float → Float → Float
  pub sub : Float → Float → Float
  pub mul : Float → Float → Float
  pub div : Float → Float → Float
  pub abs : Float → Float
  -- The value nearest to a quotient of integers: a literal, or a converted integer.
  pub ratio : ℤ → ℕ → Float
  -- Conversion to an integer, toward zero.
  pub trunc : Float → ℤ

module _ (fl : Floats) where
  open fl use {Float, lt, le, is_finite, add, sub, mul, div, ratio, trunc}

  abbrev pub of_nat : ℕ → Float
  of_nat n = ratio (pos n) 1

  -- `from_celsius` of common/units.h
  abbrev pub from_celsius : Float → ℤ
  from_celsius celsius = trunc (mul celsius (of_nat 10))

  pub record FloatLaws : Type 0 where
    pub le_trans : (x y z : Float) → le x y ≡ true → le y z ≡ true → le x z ≡ true
    pub le_left : (x y : Float) → le x y ≡ true → le x x ≡ true
    pub le_right : (x y : Float) → le x y ≡ true → le y y ≡ true
    pub le_of_lt : (x y : Float) → lt x y ≡ true → le x y ≡ true
    -- For two values that are no NaN.
    pub le_of_not_lt :
        (x y : Float) → le x x ≡ true → le y y ≡ true → lt x y ≡ false → le y x ≡ true
    -- Integers up to 10700 and tenths up to 10700.0 keep their order.
    pub int-tenths : (a : ℕ) → a ≤ 10700 → of_nat a ≡ ratio (pos (a * 10)) 10
    pub lt-tenths :
        (a b : ℕ) → a ≤ 107000 → b ≤ 107000 → lt (ratio (pos a) 10) (ratio (pos b) 10) ≡ ltb a b
    pub le-tenths :
        (a b : ℕ) → a ≤ 107000 → b ≤ 107000 → le (ratio (pos a) 10) (ratio (pos b) 10) ≡ leb a b
    -- The quotient of an integer and 10 is rounded correctly.
    pub div_ten : (a : ℤ) → pos_part a ≤ 107000 → div (ratio a 1) (of_nat 10) ≡ ratio a 10
    pub unit_nonneg : (n : ℕ) → 0 < n → le (of_nat 0) (ratio (pos 1) n) ≡ true
    pub unit_le_one : (n : ℕ) → 0 < n → le (ratio (pos 1) n) (of_nat 1) ≡ true
    -- What lies between two integers is finite.
    pub finite_between :
        (a b : ℕ) (x : Float)
        → a ≤ 10700
        → b ≤ 10700
        → le (of_nat a) x ≡ true
        → le x (of_nat b) ≡ true
        → is_finite x ≡ true
    pub le_refl : (x : Float) → is_finite x ≡ true → le x x ≡ true
    -- Ten times a value between two integers.
    pub trunc_ten :
        (a b : ℕ) (x : Float)
        → a ≤ 1070
        → b ≤ 1070
        → le (of_nat a) x ≡ true
        → le x (of_nat b) ≡ true
        → (pos (a * 10) ≤ℤ from_celsius x) × (from_celsius x ≤ℤ pos (b * 10))
    pub mul_nonneg :
        (x y : Float)
        → is_finite x ≡ true
        → is_finite y ≡ true
        → le (of_nat 0) x ≡ true
        → le (of_nat 0) y ≡ true
        → le (of_nat 0) (mul x y) ≡ true
    pub mul-le :
        (x y : Float)
        → is_finite x ≡ true
        → le (of_nat 0) x ≡ true
        → le (of_nat 0) y ≡ true
        → le y (of_nat 1) ≡ true
        → le (mul x y) x ≡ true
    pub le-add : (x y : Float) → is_finite x ≡ true → le (of_nat 0) y ≡ true → le x (add x y) ≡ true
    pub sub-le : (x y : Float) → is_finite x ≡ true → le (of_nat 0) y ≡ true → le (sub x y) x ≡ true

  module _ (laws : FloatLaws) where
    pub of_nat-le : (a b : ℕ) → a ≤ b → b ≤ 10700 → le (of_nat a) (of_nat b) ≡ true
    of_nat-le a b h k = ground (
      arith,
      laws.int-tenths a (omega arith),
      laws.int-tenths b (omega arith),
      laws.le-tenths (a * 10) (b * 10) (omega arith) (omega arith),
    )

    -- What two failed tests against integers show of a finite value.
    pub between :
        (a b : ℕ) (x : Float)
        → a ≤ 10700
        → b ≤ 10700
        → is_finite x ≡ true
        → lt x (of_nat a) ≡ false
        → lt (of_nat b) x ≡ false
        → (le (of_nat a) x ≡ true) × (le x (of_nat b) ≡ true)
    between a b x h k real low high =
        let itself = laws.le_refl x real in
        (
          laws.le_of_not_lt x (of_nat a) itself (of_nat-le a a (omega arith) h) low,
          laws.le_of_not_lt (of_nat b) x (of_nat-le b b (omega arith) k) itself high,
        )

-- Tenths as natural numbers satisfy the laws, so these can be met.
abbrev tenths_ratio : ℤ → ℕ → ℕ
tenths_ratio (pos a) b = a * 10 / b
tenths_ratio (negsuc a) b = 0

abbrev pub tenths : Floats
tenths = record {
  Float = ℕ;
  lt = ltb;
  le = leb;
  is_finite = λ x. true;
  add = λ x y. x + y;
  sub = λ x y. x - y;
  mul = λ x y. x * y / 10;
  div = λ x y. x * 10 / y;
  abs = λ x. x;
  ratio = tenths_ratio;
  trunc = λ x. pos (x / 10);
}

tenths_mul-le : (x y : ℕ) → leb y 10 ≡ true → leb (x * y / 10) x ≡ true
tenths_mul-le x y h = let bound : x * y ≤ x * 10 = mul-le-mul_left x (ground arith) in ground arith

tenths_unit : (n : ℕ) → 0 < n → leb (10 / n) 10 ≡ true
tenths_unit n h = grind arith

tenths_div : (a : ℤ) → tenths_ratio a 1 * 10 / 100 ≡ tenths_ratio a 10
tenths_div (pos a) = omega arith
tenths_div (negsuc a) = refl

pub tenths-FloatLaws : FloatLaws tenths
tenths-FloatLaws = record {
  le_trans = λ x y z p q. ground arith;
  le_left = λ x y p. ground arith;
  le_right = λ x y p. ground arith;
  le_of_lt = λ x y p. ground arith;
  le_of_not_lt = λ x y p q r. ground arith;
  int-tenths = λ a h. omega arith;
  lt-tenths = λ a b p q. ground arith;
  le-tenths = λ a b p q. ground arith;
  div_ten = λ a h. tenths_div a;
  unit_nonneg = λ n h. ground arith;
  unit_le_one = λ n h. tenths_unit n h;
  finite_between = λ a b x p q r s. refl;
  le_refl = λ x p. ground arith;
  trunc_ten = λ a b x p q r s. (ground arith, ground arith);
  mul_nonneg = λ x y a b c d. ground arith;
  mul-le = λ x y a b c d. tenths_mul-le x y d;
  le-add = λ x y a b. ground arith;
  sub-le = λ x y a b. ground arith;
}
