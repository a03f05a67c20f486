-- ===== src/Cli/Numbers.antt =====
-- cli/commands.cpp: words and numbers of a command line. `stof` is a parameter: the value and the number
-- of characters that it took, or none where it throws.
pub mod Bounds
use agentic_engineering_trai.Base.{
  ℕ, ◌+◌, ◌-◌, ◌*◌, ◌/◌, ◌%◌, ◌^◌, List, [], ◌∷◌, ◌++◌, Bool, true, false, not, ◌&&◌, ◌||◌, Option,
  none, some, ltb, leb, ◌==◌, if◌then◌else◌, u32, length, get_or,
}
use agentic_engineering_trai.Common.Floats.{Floats}
use agentic_engineering_trai.Common.Text.{
  codes, equal, is_empty, is_white, is_digit, skip_white, read_digits, starts_digit,
}

abbrev end_word : List ℕ → List (List ℕ) → List (List ℕ)
end_word [] words = words
end_word (c ∷ s) words = (c ∷ s) ∷ words

-- The words of a stream; `word` holds what was read of the current one.
abbrev pub words_from : List ℕ → List ℕ → List (List ℕ)
words_from word [] = end_word word []
words_from word (c ∷ s) =
    let rest = words_from (if is_white c then [] else word ++ c ∷ []) s in
    if is_white c then end_word word rest else rest

unfoldable pub tokenize : List ℕ → List (List ℕ)
tokenize line = words_from [] line

-- The digits of `stoull` behind the sign, with the number of characters in front of them.
abbrev convert_ull : Bool → List ℕ → ℕ → Option (ℕ × ℕ)
convert_ull negative s skipped =
    let (n, behind) = read_digits 0 s in
    if not (starts_digit s) || leb (2 ^ 64) n
    then none
    else some (if negative then (2 ^ 64 - n) % 2 ^ 64 else n, skipped + (length s - length behind))

abbrev signed_ull : List ℕ → ℕ → Option (ℕ × ℕ)
signed_ull [] skipped = none
signed_ull (c ∷ s) skipped =
    if c == b'-'
    then convert_ull true s (skipped + 1)
    else if c == b'+'
    then convert_ull false s (skipped + 1)
    else convert_ull false (c ∷ s) skipped

-- `std::stoull(text, &consumed)`: the value and the number of characters, none where it throws.
abbrev pub stoull : List ℕ → Option (ℕ × ℕ)
stoull text = let s = skip_white text in signed_ull s (length text - length s)

abbrev pub accept_ull : Option (ℕ × ℕ) → ℕ → ℕ → Option ℕ
accept_ull none size max = none
accept_ull (some (value, consumed)) size max =
    if not (consumed == size) || ltb max value then none else some value

unfoldable pub parse_unsigned : List ℕ → ℕ → Option ℕ
parse_unsigned text max =
    if is_empty text || get_or text 0 0 == b'-'
    then none
    else accept_ull (stoull text) (length text) max

-- The digits that start the text, and the rest.
abbrev pub split_unit : List ℕ → List ℕ × List ℕ
split_unit [] = ([], [])
split_unit (c ∷ s) =
    let (number, unit) = split_unit s in if is_digit c then (c ∷ number, unit) else ([], c ∷ s)

abbrev pub unit_ms : List ℕ → Option ℕ
unit_ms unit =
    if equal unit (codes "s")
    then some 1000
    else if equal unit (codes "m")
    then some 60000
    else if not (is_empty unit) && not (equal unit (codes "ms"))
    then none
    else some 1

abbrev pub scale_duration : Option ℕ → ℕ → Option ℕ
scale_duration none multiplier = none
scale_duration (some value) multiplier = some (u32 (value * multiplier % 2 ^ 64))

abbrev pub duration_in : Option ℕ → List ℕ → Option ℕ
duration_in none number = none
duration_in (some multiplier) number =
    scale_duration (parse_unsigned number (4294967295 / multiplier)) multiplier

unfoldable pub parse_duration_ms : List ℕ → Option ℕ
parse_duration_ms text = let (number, unit) = split_unit text in duration_in (unit_ms unit) number

module _ (fl : Floats) (stof : List ℕ → Option (fl.Float × ℕ)) where
  open fl use {Float, lt, is_finite}

  abbrev pub accept_float : Option (Float × ℕ) → ℕ → Float → Float → Option Float
  accept_float none size min max = none
  accept_float (some (value, consumed)) size min max =
      if (not (consumed == size) || not (is_finite value)) || (lt value min || lt max value)
      then none
      else some value

  unfoldable pub parse_float : List ℕ → Float → Float → Option Float
  parse_float text min max = accept_float (stof text) (length text) min max
