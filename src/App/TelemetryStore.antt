-- ===== src/App/TelemetryStore.antt =====
-- app/telemetry_store.cpp: the history of telemetry, oldest sample first. The lock that each
-- operation holds makes it one step.
use agentic_engineering_trai.Base.{
  ℕ, ◌+◌, ◌≤◌, ◌≡◌, refl, List, [], ◌∷◌, ◌++◌, Bool, true, false, not, inl, inr, ℤ, pos, negsuc,
  arith, ltb, ◌==◌, if◌then◌else◌, Bool-cases, length, length-append, drop, sub_u32,
}
use agentic_engineering_trai.Common.Floats.{Floats, of_nat}
use agentic_engineering_trai.Mcu.HeaterPid.{to_celsius}
use mathlib.Core.List.{reverse}

abbrev pub max_samples : ℕ
max_samples = 360000

pub record Sample : Type 0 where
  pub t_ms : ℕ
  pub deci_celsius : ℤ
  pub rpm : ℕ
  pub grams : ℤ
  pub flags : ℕ

abbrev pub empty_sample : Sample
empty_sample = record { t_ms = 0; deci_celsius = pos 0; rpm = 0; grams = pos 0; flags = 0 }

abbrev pub TelemetryStore : Type 0
TelemetryStore = List Sample

unfoldable pub append : TelemetryStore → Sample → TelemetryStore
append samples sample =
    let longer = samples ++ sample ∷ [] in
    if ltb max_samples (length longer) then drop 1 longer else longer

-- `samples_.back()`, or the default sample.
unfoldable pub latest : TelemetryStore → Sample
latest [] = empty_sample
latest (sample ∷ []) = sample
latest (sample ∷ (next ∷ samples)) = latest (next ∷ samples)

unfoldable pub has_data : TelemetryStore → Bool
has_data samples = not (length samples == 0)

module _ (fl : Floats) where
  open fl use {Float, lt, add, div, ratio}

  -- The loop of `average_temp_c`, newest sample first: the sum and the number of the readings.
  unfoldable pub sum_window : ℕ → ℕ → List Sample → Float → ℕ → Float × ℕ
  sum_window newest window_ms [] sum count = (sum, count)
  sum_window newest window_ms (s ∷ samples) sum count =
      let rest =
        sum_window newest window_ms samples (add sum (to_celsius fl s.deci_celsius)) (count + 1) in
      if ltb window_ms (sub_u32 newest s.t_ms) then (sum, count) else rest

  unfoldable pub average_temp_c : TelemetryStore → ℕ → Float
  average_temp_c samples window_ms =
      if length samples == 0
      then of_nat fl 0
      else (let (sum, count) =
            sum_window (latest samples).t_ms window_ms (reverse samples) (of_nat fl 0) 0 in
          if ltb 0 count then div sum (of_nat fl count) else of_nat fl 0)

  -- The loop of `max_temp_c`.
  unfoldable pub max_window : ℕ → ℕ → List Sample → Float → Float
  max_window newest window_ms [] max_c = max_c
  max_window newest window_ms (s ∷ samples) max_c =
      let c = to_celsius fl s.deci_celsius in
      let rest = max_window newest window_ms samples (if lt max_c c then c else max_c) in
      if ltb window_ms (sub_u32 newest s.t_ms) then max_c else rest

  unfoldable pub max_temp_c : TelemetryStore → ℕ → Float
  max_temp_c samples window_ms =
      if length samples == 0
      then of_nat fl 0
      else max_window (latest samples).t_ms window_ms (reverse samples) (ratio (negsuc 999) 1)

latest-snoc : (samples : List Sample) (x : Sample) → latest (samples ++ x ∷ []) ≡ x
unfolding latest
latest-snoc [] x = refl
latest-snoc (s ∷ []) x = refl
latest-snoc (s ∷ (t ∷ samples)) x = latest-snoc (t ∷ samples) x

latest-tail :
    (samples : List Sample) → 1 ≤ length (drop 1 samples) → latest (drop 1 samples) ≡ latest samples
unfolding latest
latest-tail [] h = refl
latest-tail (s ∷ []) h = absurd (omega arith)
latest-tail (s ∷ (t ∷ samples)) h = refl

length-tail :
    (samples : List Sample) → 1 ≤ length samples → length (drop 1 samples) + 1 ≡ length samples
length-tail [] h = absurd (omega arith)
length-tail (s ∷ samples) h = omega arith

-- A store within its bound stays so when a sample is added, has that sample as its latest, and
-- forgets the oldest one only when it is full.
pub append_lem :
    (samples : TelemetryStore) (x : Sample)
    → length samples ≤ max_samples
    → (length (append samples x) ≤ max_samples)
      × (latest (append samples x) ≡ x)
      × (append samples x ≡ (
          if ltb (length samples) max_samples
          then samples ++ x ∷ []
          else drop 1 (samples ++ x ∷ [])))
unfolding append
append_lem samples x h =
    let n = length-append samples (x ∷ []) in
    let t = length-tail (samples ++ x ∷ []) (omega (arith, n)) in
    elim (Bool-cases (ltb max_samples (length (samples ++ x ∷ [])))) [
      | inl e ↦
          let full : ltb (length samples) max_samples ≡ false = ground (arith, n) in
          let tail = latest-tail (samples ++ x ∷ []) (ground (arith, n, t)) in
          rw (e, full) (ground (arith, n, t), rw tail (latest-snoc samples x), refl)
      | inr e ↦
          let room : ltb (length samples) max_samples ≡ true = ground (arith, n) in
          rw (e, room) (ground (arith, n), latest-snoc samples x, refl)
    ]
