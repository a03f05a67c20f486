-- ===== src/Common/Text.antt =====
-- What the firmware uses of the C library's strings, and recipe_parser.cpp's helpers on them. A string
-- is the list of its characters, without the zero that ends it.
use Prim.Native.String.{String}
use Prim.Native.Char.{code}
use agentic_engineering_trai.Base.{
  ℕ, zero, suc, ◌+◌, ◌-◌, ◌*◌, List, [], ◌∷◌, Bool, true, false, ◌&&◌, ◌||◌, Option, none, some, ℤ,
  pos, negsuc, ltb, leb, ◌==◌, if◌then◌else◌,
}

abbrev pub codes : String → List ℕ
codes String.[] = []
codes (String.◌∷◌ c s) = code c ∷ codes s

-- The string that starts a buffer.
abbrev pub c_string : List ℕ → List ℕ
c_string [] = []
c_string (c ∷ s) = if c == 0 then [] else c ∷ c_string s

-- `strchr(s, c) != nullptr`
abbrev pub has_char : List ℕ → ℕ → Bool
has_char [] c = false
has_char (d ∷ s) c = d == c || has_char s c

-- `strcmp(s, t) == 0`
abbrev pub equal : List ℕ → List ℕ → Bool
equal [] [] = true
equal [] (d ∷ t) = false
equal (c ∷ s) [] = false
equal (c ∷ s) (d ∷ t) = c == d && equal s t

-- `strncmp(s, prefix, strlen(prefix)) == 0`
abbrev pub starts_with : List ℕ → List ℕ → Bool
starts_with s [] = true
starts_with [] (d ∷ t) = false
starts_with (c ∷ s) (d ∷ t) = c == d && starts_with s t

abbrev pub is_empty : List ℕ → Bool
is_empty [] = true
is_empty (c ∷ s) = false

abbrev pub skip_spaces : List ℕ → List ℕ
skip_spaces [] = []
skip_spaces (c ∷ s) = if c == b' ' || c == 9 then skip_spaces s else c ∷ s

-- Blank, tab, newline and return.
abbrev pub trim_end : List ℕ → List ℕ
trim_end [] = []
trim_end (c ∷ s) =
    let rest = trim_end s in
    if ((c == b' ' || c == 9) || (c == 10 || c == 13)) && is_empty rest then [] else c ∷ rest

abbrev pub put_front : ℕ → List ℕ × Option (List ℕ) → List ℕ × Option (List ℕ)
put_front c (before, behind) = (c ∷ before, behind)

-- `strchr(s, c)` and the zero that is written there: what stands before and what behind.
abbrev pub cut_at : ℕ → List ℕ → List ℕ × Option (List ℕ)
cut_at c [] = ([], none)
cut_at c (d ∷ s) = let rest = cut_at c s in if d == c then ([], some s) else put_front d rest

-- The parts between the separators: the first one, and those behind it.
abbrev pub split_at : ℕ → List ℕ → List ℕ × List (List ℕ)
split_at c [] = ([], [])
split_at c (d ∷ s) = let (p, ps) = split_at c s in if d == c then ([], p ∷ ps) else (d ∷ p, ps)

-- The result of a conversion: `behind` is none when there was nothing to convert, and `errno` tells
-- that the value is out of the range of its type.
pub record Converted {ℓ} (A : Type ℓ) : Type ℓ where
  pub value : A
  pub behind : Option (List ℕ)
  pub errno : Bool

abbrev pub is_white : ℕ → Bool
is_white c = c == 32 || (leb 9 c && leb c 13)

abbrev pub is_digit : ℕ → Bool
is_digit c = leb 48 c && leb c 57

abbrev pub skip_white : List ℕ → List ℕ
skip_white [] = []
skip_white (c ∷ s) = if is_white c then skip_white s else c ∷ s

abbrev pub read_digits : ℕ → List ℕ → ℕ × List ℕ
read_digits n [] = (n, [])
read_digits n (c ∷ s) =
    let rest = read_digits (n * 10 + (c - 48)) s in if is_digit c then rest else (n, c ∷ s)

abbrev pub starts_digit : List ℕ → Bool
starts_digit [] = false
starts_digit (c ∷ s) = is_digit c

abbrev negated : ℕ → ℤ
negated zero = pos 0
negated (suc n) = negsuc n

-- The value of `long` saturates where `errno` is set; here it does not.
abbrev convert_digits : Bool → List ℕ → Converted ℤ
convert_digits negative s =
    let (n, behind) = read_digits 0 s in
    record {
      value = if negative then negated n else pos n;
      behind = if starts_digit s then some behind else none;
      errno = ltb (if negative then 9223372036854775808 else 9223372036854775807) n;
    }

abbrev convert_signed : List ℕ → Converted ℤ
convert_signed [] = convert_digits false []
convert_signed (c ∷ s) =
    if c == b'-'
    then convert_digits true s
    else if c == b'+'
    then convert_digits false s
    else convert_digits false (c ∷ s)

-- `strtol(s, &end, 10)`
abbrev pub strtol : List ℕ → Converted ℤ
strtol s = convert_signed (skip_white s)
