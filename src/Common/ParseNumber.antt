-- ===== src/Common/ParseNumber.antt =====
-- common/parse_number.h: numbers of a command line. `strtof` is a parameter; `unsigned long` has 64 bits.
-- The result is what is written to `out`; a null pointer is never passed.
use agentic_engineering_trai.Base.{
  ℕ, ◌-◌, ◌%◌, ◌^◌, List, [], ◌∷◌, Bool, true, false, not, ◌||◌, Option, none, some, ltb, leb, ◌==◌,
  if◌then◌else◌, get_or,
}
use agentic_engineering_trai.Common.Floats.{Floats}
use agentic_engineering_trai.Common.Text.{
  Converted, is_empty, skip_white, read_digits, starts_digit,
}

-- The value saturates where `errno` is set; here it does not.
abbrev convert_unsigned : Bool → List ℕ → Converted ℕ
convert_unsigned negative s =
    let (n, behind) = read_digits 0 s in
    record {
      value = if negative then (2 ^ 64 - n) % 2 ^ 64 else n;
      behind = if starts_digit s then some behind else none;
      errno = leb (2 ^ 64) n;
    }

abbrev signed_number : List ℕ → Converted ℕ
signed_number [] = convert_unsigned false []
signed_number (c ∷ s) =
    if c == b'-'
    then convert_unsigned true s
    else if c == b'+'
    then convert_unsigned false s
    else convert_unsigned false (c ∷ s)

-- `strtoul(s, &end, 10)`
abbrev pub strtoul : List ℕ → Converted ℕ
strtoul s = signed_number (skip_white s)

-- `end == text || *end != '\0'`
abbrev pub is_partial : Option (List ℕ) → Bool
is_partial none = true
is_partial (some behind) = not (is_empty behind)

unfoldable pub parse_u32 : List ℕ → ℕ → Option ℕ
parse_u32 text max =
    let c = strtoul text in
    if is_empty text || get_or text 0 0 == b'-'
    then none
    else if (c.errno || is_partial c.behind) || (ltb max c.value || ltb 4294967295 c.value)
    then none
    else some c.value

module _ (fl : Floats) (strtof : List ℕ → Converted fl.Float) where
  open fl use {Float, lt, is_finite}

  unfoldable pub parse_real : List ℕ → Float → Float → Option Float
  parse_real text min max =
      let c = strtof text in
      if (c.errno || is_partial c.behind)
        || (not (is_finite c.value) || (lt c.value min || lt max c.value))
      then none
      else some c.value
