-- ===== src/App/Recipe/Parser/Steps.antt =====
-- What the parser lets through of a step: its values lie in the limits, and those that its kind needs
-- are there.
use agentic_engineering_trai.Base.{
  ℕ, ◌≤◌, ◌≡◌, List, [], ◌∷◌, Bool, true, false, not, ◌||◌, Option, none, some, ℤ, pos, negsuc,
  ◌≤ℤ◌, ltb_ℤ, if◌then◌else◌, inl, inr, Bool-cases, arith, take,
}
use agentic_engineering_trai.Common.Status.{is_ok}
use agentic_engineering_trai.Common.Floats.{Floats, FloatLaws, of_nat, between}
use agentic_engineering_trai.Common.Text.{
  Converted, codes, equal, split_at, strtol, cut_at, trim_end, skip_spaces,
}
use agentic_engineering_trai.App.Recipe.{StepKind, note, mix, heat, weigh, RecipeStep}
use agentic_engineering_trai.App.Recipe.Parser.{
  Fields, no_fields, ends_blank, parse_long, store_temp, store_speed, store_time, store_weight,
  is_complete, parse_kind, parse_temperature, apply_field, apply_token, apply_tokens, parse_fields,
  parse_step,
}

-- What a step of a kind must hold.
abbrev pub IsLegal : StepKind → RecipeStep → Type 0
IsLegal note s = Unit
IsLegal mix s = (1 ≤ s.dial_speed) × (1 ≤ s.duration_s) × (s.duration_s ≤ 86400)
IsLegal heat s =
    (pos 370 ≤ℤ s.target_temp)
    × (s.target_temp ≤ℤ pos 1600)
    × (1 ≤ s.duration_s)
    × (s.duration_s ≤ 86400)
IsLegal weigh s = (pos 1 ≤ℤ s.target_weight) × (s.target_weight ≤ℤ pos 2200)

abbrev pub IsStep : RecipeStep → Type 0
IsStep s = (s.dial_speed ≤ 10) × IsLegal s.kind s

-- The values that a parsed step can have, by the fields that were seen.
record IsSeen (s : RecipeStep) (f : Fields) : Type 0 where
  dial : s.dial_speed ≤ 10
  temp_seen : f.temp ≡ true → (pos 370 ≤ℤ s.target_temp) × (s.target_temp ≤ℤ pos 1600)
  time_seen : f.time ≡ true → (1 ≤ s.duration_s) × (s.duration_s ≤ 86400)
  weight_seen : f.weight ≡ true → (pos 1 ≤ℤ s.target_weight) × (s.target_weight ≤ℤ pos 2200)

abbrev Seen : RecipeStep × Fields × Bool → Type 0
Seen r = IsSeen r.0 r.1

either :
    (b : Bool) (P : RecipeStep × Fields × Bool → Type 0) {x y : RecipeStep × Fields × Bool}
    → P x
    → P y
    → P (if b then x else y)
either true P p q = p
either false P p q = q

-- A number that is accepted lies in the bounds.
abbrev InBounds : ℤ → ℤ → Option ℤ → Type 0
InBounds min max none = Unit
InBounds min max (some v) = (min ≤ℤ v) × (v ≤ℤ max)

parse_long-InBounds : (text : List ℕ) (min max : ℤ) → InBounds min max (parse_long text min max)
unfolding parse_long
parse_long-InBounds text min max =
    let read = strtol text in
    elim (Bool-cases (
      (read.errno || not (ends_blank read.behind))
      || (ltb_ℤ read.value min || ltb_ℤ max read.value))) [
        | inl e ↦ rw e _
        | inr e ↦ rw e ((ground arith, ground arith))
      ]

store_speed-IsSeen :
    {s : RecipeStep} {f : Fields} (o : Option ℤ)
    → IsSeen s f
    → InBounds (pos 0) (pos 10) o
    → (let (s', f', good) = store_speed o s f in IsSeen s' f')
store_speed-IsSeen none h b = record {
  dial = omega arith;
  temp_seen = h.temp_seen;
  time_seen = h.time_seen;
  weight_seen = h.weight_seen;
}
store_speed-IsSeen (some (pos v)) h b = record {
  dial = ground arith;
  temp_seen = h.temp_seen;
  time_seen = h.time_seen;
  weight_seen = h.weight_seen;
}
store_speed-IsSeen (some (negsuc v)) h b = absurd (ground arith)

store_time-IsSeen :
    {s : RecipeStep} {f : Fields} (o : Option ℤ)
    → IsSeen s f
    → InBounds (pos 1) (pos 86400) o
    → (let (s', f', good) = store_time o s f in IsSeen s' f')
store_time-IsSeen none h b = record {
  dial = h.dial;
  temp_seen = h.temp_seen;
  time_seen = λ e. cc;
  weight_seen = h.weight_seen;
}
store_time-IsSeen (some (pos v)) h b = record {
  dial = h.dial;
  temp_seen = h.temp_seen;
  time_seen = λ e. (ground arith, ground arith);
  weight_seen = h.weight_seen;
}
store_time-IsSeen (some (negsuc v)) h b = absurd (ground arith)

store_weight-IsSeen :
    {s : RecipeStep} {f : Fields} (o : Option ℤ)
    → IsSeen s f
    → InBounds (pos 1) (pos 2200) o
    → (let (s', f', good) = store_weight o s f in IsSeen s' f')
store_weight-IsSeen none h b = record {
  dial = h.dial;
  temp_seen = h.temp_seen;
  time_seen = h.time_seen;
  weight_seen = λ e. cc;
}
store_weight-IsSeen (some (pos v)) h b = record {
  dial = h.dial;
  temp_seen = h.temp_seen;
  time_seen = h.time_seen;
  weight_seen = λ e. (ground arith, ground arith);
}
store_weight-IsSeen (some (negsuc v)) h b = absurd (ground arith)

store_temp-IsSeen :
    {s : RecipeStep} {f : Fields} (o : Option ℤ)
    → IsSeen s f
    → InBounds (pos 370) (pos 1600) o
    → (let (s', f', good) = store_temp o s f in IsSeen s' f')
store_temp-IsSeen none h b = record {
  dial = h.dial;
  temp_seen = λ e. cc;
  time_seen = h.time_seen;
  weight_seen = h.weight_seen;
}
store_temp-IsSeen (some v) h b = record {
  dial = h.dial;
  temp_seen = λ e. b;
  time_seen = h.time_seen;
  weight_seen = h.weight_seen;
}

module _ (fl : Floats) (laws : FloatLaws fl) (strtof : List ℕ → Converted fl.Float) where
  open fl use {lt, le, is_finite}

  parse_temperature-InBounds :
      (text : List ℕ) → InBounds (pos 370) (pos 1600) (parse_temperature fl strtof text)
  unfolding parse_temperature
  parse_temperature-InBounds text =
      let read = strtof text in
      let x = read.value in
      elim (Bool-cases (
        ((read.errno || not (ends_blank read.behind)) || not (is_finite x))
        || (lt x (of_nat fl 37) || lt (of_nat fl 160) x))) [
          | inl e ↦ rw e _
          | inr e ↦
              let (above, below) =
                between fl laws 37 160 x (omega arith) (omega arith) (ground arith) (ground arith)
                  (ground arith) in
              rw e (laws.trunc_ten 37 160 x (omega arith) (omega arith) above below)
        ]

  apply_field-IsSeen :
      (s : RecipeStep) (f : Fields) (key value : List ℕ)
      → IsSeen s f
      → (let (s', f', good) = apply_field fl strtof s f key value in IsSeen s' f')
  unfolding apply_field
  apply_field-IsSeen s f key value h =
      let temp =
        store_temp-IsSeen (parse_temperature fl strtof value) h
          (parse_temperature-InBounds value) in
      let speed =
        store_speed-IsSeen (parse_long value (pos 0) (pos 10)) h
          (parse_long-InBounds value (pos 0) (pos 10)) in
      let time =
        store_time-IsSeen (parse_long value (pos 1) (pos 86400)) h
          (parse_long-InBounds value (pos 1) (pos 86400)) in
      let weight =
        store_weight-IsSeen (parse_long value (pos 1) (pos 2200)) h
          (parse_long-InBounds value (pos 1) (pos 2200)) in
      let text : Seen (record s { text = take 95 value }, f, true) = record {
        dial = h.dial;
        temp_seen = h.temp_seen;
        time_seen = h.time_seen;
        weight_seen = h.weight_seen;
      } in
      either (equal key (codes "text")) Seen text (
        either (equal key (codes "temp")) Seen temp (
          either (equal key (codes "speed")) Seen speed (
            either (equal key (codes "time")) Seen time
              (either (equal key (codes "weight")) Seen weight h))))

  apply_token-IsSeen :
      (s : RecipeStep) (f : Fields) (t : List ℕ × Option (List ℕ))
      → IsSeen s f
      → (let (s', f', good) = apply_token fl strtof t s f in IsSeen s' f')
  apply_token-IsSeen s f (key, none) h = h
  apply_token-IsSeen s f (key, some value) h =
      apply_field-IsSeen s f (trim_end key) (skip_spaces value) h

  apply_tokens-IsSeen :
      (ts : List (List ℕ)) (s : RecipeStep) (f : Fields)
      → IsSeen s f
      → (let (s', f', good) = apply_tokens fl strtof ts s f in IsSeen s' f')
  unfolding apply_tokens
  apply_tokens-IsSeen [] s f h = h
  apply_tokens-IsSeen (t ∷ ts) s f h =
      let cut = cut_at b'=' (trim_end (skip_spaces t)) in
      let first = apply_token-IsSeen s f cut h in
      let (s', f', good) = apply_token fl strtof cut s f in
      elim (Bool-cases good) [
        | inl e ↦ rw e (apply_tokens-IsSeen ts s' f' first)
        | inr e ↦ rw e first
      ]

  is_complete-IsLegal :
      (k : StepKind) (s : RecipeStep) (f : Fields)
      → IsSeen s f
      → is_complete k s f ≡ true
      → IsLegal k s
  is_complete-IsLegal note s f h e = _
  is_complete-IsLegal mix s f h e = let (a, b) = h.time_seen (ground arith) in (ground arith, a, b)
  is_complete-IsLegal heat s f h e =
      let (a, b) = h.time_seen (ground arith) in
      let (c, d) = h.temp_seen (ground arith) in (c, d, a, b)
  is_complete-IsLegal weigh s f h e = h.weight_seen e

  parse_fields-IsLegal :
      (k : Option StepKind) (ts : List (List ℕ)) (s : RecipeStep)
      → s.dial_speed ≤ 10
      → (let (s', status) = parse_fields fl strtof k ts s in is_ok status ≡ true → IsStep s')
  unfolding parse_fields
  parse_fields-IsLegal none ts s d = λ e. cc
  parse_fields-IsLegal (some k) ts s d = λ e.
      (let start : IsSeen (record s { kind = k }) no_fields = record {
        dial = d;
        temp_seen = λ q. cc;
        time_seen = λ q. cc;
        weight_seen = λ q. cc;
      } in
        let (s', f', good) = apply_tokens fl strtof ts (record s { kind = k }) no_fields in
        let seen = apply_tokens-IsSeen ts (record s { kind = k }) no_fields start in
        (seen.dial, is_complete-IsLegal s'.kind s' f' seen (ground arith)))

  pub parse_step-IsLegal :
      (body : List ℕ) (s : RecipeStep)
      → s.dial_speed ≤ 10
      → (let (s', status) = parse_step fl strtof body s in is_ok status ≡ true → IsStep s')
  unfolding parse_step
  parse_step-IsLegal body s d =
      let (first, ts) = split_at b'|' body in
      parse_fields-IsLegal (parse_kind (trim_end (skip_spaces first))) ts s d
