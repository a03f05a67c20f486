-- ===== src/App/Recipe/Parser/Legal.antt =====
-- What the parser lets through: a recipe that it accepts is one that the kitchen machine can run.
use agentic_engineering_trai.Base.{
  ℕ, zero, suc, ◌+◌, ◌≤◌, ◌<◌, ◌≡◌, ◌≢◌, refl, sym, ◌∙◌, subst, List, [], ◌∷◌, Bool, true, false,
  not, ◌&&◌, ◌||◌, Option, none, some, leb, ◌==◌, inl, inr, Bool-cases, arith, get_or, set,
  replicate, take, drop, length, ==→eq, ==→ne, length-set, get_or-set_self, get_or-set_ne,
}
use agentic_engineering_trai.Common.Status.{Status, ok, is_ok}
use agentic_engineering_trai.Common.Floats.{Floats, FloatLaws}
use agentic_engineering_trai.Common.Text.{
  Converted, codes, starts_with, trim_end, skip_spaces, is_empty, c_string, has_char,
}
use agentic_engineering_trai.App.Recipe.{RecipeStep, empty_step, Recipe, empty_recipe, max_steps}
use agentic_engineering_trai.App.Recipe.Parser.{
  Line, File, parse_step, parse_entry, parse_line, parse_lines, read_lines, final_status,
  parse_opened, parse_recipe_file,
}
use agentic_engineering_trai.App.Recipe.Parser.Steps.{IsStep, parse_step-IsLegal}

-- A recipe as it is being read: every step that counts is legal.
pub record IsRunnable (r : Recipe) : Type 0 where
  pub room : length r.recipe_steps ≡ 16
  pub count : r.step_count ≤ 16
  pub dials : (i : ℕ) → (get_or r.recipe_steps i empty_step).dial_speed ≤ 10
  pub legal : (i : ℕ) → i < r.step_count → IsStep (get_or r.recipe_steps i empty_step)

renamed : (r : Recipe) → IsRunnable r → (text : List ℕ) → IsRunnable (record r { name = text })
renamed r h text = record { room = h.room; count = h.count; dials = h.dials; legal = h.legal }

abbrev with_step : Recipe → RecipeStep → Recipe
with_step r step = record r {
  recipe_steps = set r.recipe_steps r.step_count step;
  step_count = r.step_count + 1;
}

-- What holds of the old entries and of the new one holds of all.
each :
    (P : RecipeStep → Type 0) (r : Recipe) (step : RecipeStep) (i : ℕ)
    → r.step_count < length r.recipe_steps
    → P step
    → (i ≢ r.step_count → P (get_or r.recipe_steps i empty_step))
    → P (get_or (with_step r step).recipe_steps i empty_step)
each P r step i h p q = elim (Bool-cases (i == r.step_count)) [
  | inl e ↦
      let here = ==→eq i r.step_count e in
      subst (λ k. P (get_or (with_step r step).recipe_steps k empty_step)) (sym here)
        (subst P (sym (get_or-set_self r.recipe_steps r.step_count step empty_step h)) p)
  | inr e ↦
      let other = ==→ne i r.step_count e in
      subst P (sym (get_or-set_ne r.recipe_steps step empty_step (λ s. other (sym s)))) (q other)
]

added :
    (r : Recipe)
    → IsRunnable r
    → (step : RecipeStep) → r.step_count < 16
    → IsStep step
    → IsRunnable (with_step r step)
added r h step less fine =
    let inside : r.step_count < length r.recipe_steps =
      subst (λ k. r.step_count < k) (sym h.room) less in
    record {
      room = length-set r.recipe_steps r.step_count step ∙ h.room;
      count = omega arith;
      dials = λ i. each (λ s. s.dial_speed ≤ 10) r step i inside fine.0 (λ n. h.dials i);
      legal = λ i below. each IsStep r step i inside fine (λ n. h.legal i (omega arith));
    }

empty_step_dial : (n i : ℕ) → (get_or (replicate n empty_step) i empty_step).dial_speed ≤ 10
empty_step_dial zero i = omega arith
empty_step_dial (suc n) zero = omega arith
empty_step_dial (suc n) (suc i) = empty_step_dial n i

empty-IsRunnable : IsRunnable empty_recipe
empty-IsRunnable = record {
  room = refl;
  count = omega arith;
  dials = empty_step_dial 16;
  legal = λ i h. absurd (omega arith);
}

module _ (fl : Floats) (laws : FloatLaws fl) (strtof : List ℕ → Converted fl.Float) where
  parse_entry-IsRunnable :
      (out : Recipe) (p : List ℕ)
      → IsRunnable out
      → is_ok (parse_entry fl strtof out p).1 ≡ true
      → IsRunnable (parse_entry fl strtof out p).0
  unfolding parse_entry
  parse_entry-IsRunnable out p h =
      let at = get_or out.recipe_steps out.step_count empty_step in
      let (step, status) = parse_step fl strtof (take 255 (skip_spaces (drop 5 p))) at in
      let legal =
        parse_step-IsLegal fl laws strtof (take 255 (skip_spaces (drop 5 p))) at
          (h.dials out.step_count) in
      elim (Bool-cases (is_empty p || starts_with p (codes "#"))) [
        | inl e ↦ rw e (λ q. h)
        | inr e₁ ↦ elim (Bool-cases (starts_with p (codes "name:"))) [
          | inl e ↦ rw (e₁, e) (λ q. renamed out h (take 31 (skip_spaces (drop 5 p))))
          | inr e₂ ↦ elim (Bool-cases (not (starts_with p (codes "step:")))) [
            | inl e ↦ rw (e₁, e₂, e) (λ q. h)
            | inr e₃ ↦ elim (Bool-cases (leb max_steps out.step_count)) [
              | inl e ↦ rw (e₁, e₂, e₃, e) (λ q. absurd (ground arith))
              | inr e₄ ↦ rw (e₁, e₂, e₃, e₄) (λ q. rw q (added out h step (ground arith) (legal q)))
            ]
          ]
        ]
      ]

  parse_line-IsRunnable :
      (out : Recipe) (l : Line)
      → IsRunnable out
      → is_ok (parse_line fl strtof out l).1 ≡ true
      → IsRunnable (parse_line fl strtof out l).0
  unfolding parse_line
  parse_line-IsRunnable out l h =
      let s = c_string l.content in
      elim (Bool-cases (not (has_char s 10) && not l.at_end)) [
        | inl e ↦ rw e (λ q. absurd (ground arith))
        | inr e ↦ rw e (parse_entry-IsRunnable out (skip_spaces (trim_end s)) h)
      ]

  parse_lines-IsRunnable :
      (ls : List Line) (out : Recipe)
      → IsRunnable out
      → is_ok (parse_lines fl strtof out ls).1 ≡ true
      → IsRunnable (parse_lines fl strtof out ls).0
  unfolding parse_lines
  parse_lines-IsRunnable [] out h = λ q. h
  parse_lines-IsRunnable (l ∷ ls) out h =
      let (out', status) = parse_line fl strtof out l in
      elim (Bool-cases (is_ok status)) [
        | inl e ↦ rw e (parse_lines-IsRunnable ls out' (parse_line-IsRunnable out l h e))
        | inr e ↦ rw e (λ q. cc)
      ]

  final_status-ok :
      (r : Recipe) (fails : Bool) (status : Status)
      → final_status r fails status ≡ ok
      → (is_ok status ≡ true) × (0 < r.step_count) × (is_empty r.name ≡ false)
  final_status-ok r fails status h = (ground arith, ground arith, ground arith)

  parse_opened-IsRunnable :
      (o : Option File) (out : Recipe)
      → (parse_opened fl strtof o out).1 ≡ ok
      → (let r = (parse_opened fl strtof o out).0 in
          IsRunnable r × (0 < r.step_count) × (is_empty r.name ≡ false))
  parse_opened-IsRunnable none out h = cc
  parse_opened-IsRunnable (some file) out h =
      let ls = read_lines [] 255 file.contents file.read_fails in
      let (r, status) = parse_lines fl strtof empty_recipe ls in
      let (good, steps, named) = final_status-ok r file.read_fails status h in
      (parse_lines-IsRunnable ls empty_recipe empty-IsRunnable good, steps, named)

  -- A file that is read with the status Ok gives a recipe with a name and 1 to 16 steps, of which each
  -- one is legal: the dial is at most 10, a mixing step has a speed and a time of 1 s to a day, a
  -- heating step a temperature of 37.0 to 160.0 degrees and such a time, a weighing step a weight of 1
  -- to 2200 grams. `strtof` and the files are arbitrary; the floating-point laws are assumed.
  pub parse_recipe_file-IsRunnable :
      (open_file : List ℕ → Option File) (path : List ℕ) (out : Recipe)
      → (parse_recipe_file fl strtof open_file path out).1 ≡ ok
      → (let r = (parse_recipe_file fl strtof open_file path out).0 in
          IsRunnable r × (0 < r.step_count) × (is_empty r.name ≡ false))
  unfolding parse_recipe_file
  parse_recipe_file-IsRunnable open_file path out h = parse_opened-IsRunnable (open_file path) out h
