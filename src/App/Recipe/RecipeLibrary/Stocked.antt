-- ===== src/App/Recipe/RecipeLibrary/Stocked.antt =====
-- What the library of recipes holds after loading a directory.
use mathlib.Core.Option.{some-injective}
use agentic_engineering_trai.Base.{
  ℕ, zero, suc, ◌+◌, ◌≤◌, ◌<◌, ◌≡◌, refl, sym, ◌∙◌, subst, List, [], ◌∷◌, true, false, not, Option,
  none, some, inl, inr, Bool-cases, arith, leb, ◌==◌, if◌then◌else◌, get_or, set, length,
  length-set, ==→eq, ==→ne, get_or-set_self, get_or-set_ne,
}
use agentic_engineering_trai.Common.Status.{Status, ok, is_ok}
use agentic_engineering_trai.Common.Floats.{Floats, FloatLaws}
use agentic_engineering_trai.Common.Text.{equal, is_empty, Converted}
use agentic_engineering_trai.App.Recipe.{Recipe, empty_recipe}
use agentic_engineering_trai.App.Recipe.Parser.{File, parse_recipe_file}
use agentic_engineering_trai.App.Recipe.Parser.Legal.{IsRunnable, parse_recipe_file-IsRunnable}
use agentic_engineering_trai.App.Recipe.RecipeLibrary.{
  RecipeLibrary, new_library, max_recipes, path_of, has_rcp_extension, find_in, find, load_entry,
  load_entries, load_directory,
}

-- A recipe that the kitchen machine can run.
abbrev pub IsReady : Recipe → Type 0
IsReady r = IsRunnable r × (0 < r.step_count) × (is_empty r.name ≡ false)

-- Every recipe that counts is ready.
pub record IsStocked (l : RecipeLibrary) : Type 0 where
  pub room : length l.recipes ≡ 64
  pub bounded : l.count ≤ 64
  pub ready : (i : ℕ) → i < l.count → IsReady (get_or l.recipes i empty_recipe)

pub new_library-IsStocked : IsStocked new_library
new_library-IsStocked = record {
  room = refl;
  bounded = omega arith;
  ready = λ i h. absurd (omega arith);
}

-- What stands below the changed place is kept.
kept :
    (rs : List Recipe) (n i : ℕ) (r : Recipe)
    → i < n
    → IsReady (get_or rs i empty_recipe)
    → IsReady (get_or (set rs n r) i empty_recipe)
kept rs n i r below h =
    subst IsReady (sym (get_or-set_ne rs r empty_recipe (λ e. absurd (omega (arith, e))))) h

refused :
    (l : RecipeLibrary) (r : Recipe)
    → IsStocked l
    → IsStocked (record { recipes = set l.recipes l.count r; count = l.count })
refused l r h = record {
  room = length-set l.recipes l.count r ∙ h.room;
  bounded = h.bounded;
  ready = λ i below. kept l.recipes l.count i r below (h.ready i below);
}

set-IsReady :
    (l : RecipeLibrary) (r : Recipe) (i : ℕ)
    → IsStocked l
    → l.count < 64
    → IsReady r
    → i < l.count + 1
    → IsReady (get_or (set l.recipes l.count r) i empty_recipe)
set-IsReady l r i h less fine below = elim (Bool-cases (i == l.count)) [
  | inl e ↦
      subst (λ k. IsReady (get_or (set l.recipes l.count r) k empty_recipe))
        (sym (==→eq i l.count e))
        (subst IsReady
          (sym (
            get_or-set_self l.recipes l.count r empty_recipe
              (subst (λ k. l.count < k) (sym h.room) less)))
          fine)
  | inr e ↦
      let other = ==→ne i l.count e in
      let under : i < l.count = omega (arith, other) in
      kept l.recipes l.count i r under (h.ready i under)
]

accepted :
    (l : RecipeLibrary) (r : Recipe)
    → IsStocked l
    → l.count < 64
    → IsReady r
    → IsStocked (record { recipes = set l.recipes l.count r; count = l.count + 1 })
accepted l r h less fine = record {
  room = length-set l.recipes l.count r ∙ h.room;
  bounded = omega arith;
  ready = λ i below. set-IsReady l r i h less fine below;
}

is_ok-ok : (s : Status) → is_ok s ≡ true → s ≡ ok
is_ok-ok s h = ground arith

find_in-IsReady :
    (n : ℕ) (rs : List Recipe) (name : List ℕ) (r : Recipe)
    → ((i : ℕ) → i < n → IsReady (get_or rs i empty_recipe))
    → find_in n rs name ≡ some r
    → IsReady r × (equal r.name name ≡ true)
unfolding find_in
find_in-IsReady zero rs name r h e = cc
find_in-IsReady (suc n) [] name r h e = cc
find_in-IsReady (suc n) (x ∷ rs) name r h found = elim (Bool-cases (equal x.name name)) [
  | inl e ↦
      let same : x ≡ r =
        some-injective x r
          (subst (λ b. (if b then some x else find_in n rs name) ≡ some r) e found) in
      (subst IsReady same (h 0 (omega arith)), subst (λ k. equal k.name name ≡ true) same e)
  | inr e ↦
      find_in-IsReady n rs name r (λ i below. h (suc i) (omega arith))
        (subst (λ b. (if b then some x else find_in n rs name) ≡ some r) e found)
]

pub find-IsReady :
    (l : RecipeLibrary) (name : List ℕ) (r : Recipe)
    → IsStocked l
    → find l name ≡ some r
    → IsReady r × (equal r.name name ≡ true)
unfolding find
find-IsReady l name r h found = find_in-IsReady l.count l.recipes name r h.ready found

module _ (fl : Floats) (laws : FloatLaws fl) (strtof : List ℕ → Converted fl.Float)
    (open_file : List ℕ → Option File) where
  load_entry-IsStocked :
      (l : RecipeLibrary) (dir_path name : List ℕ)
      → IsStocked l
      → IsStocked (load_entry fl strtof open_file l dir_path name)
  unfolding load_entry
  load_entry-IsStocked l dir_path name h =
      let path = path_of dir_path name in
      let free = get_or l.recipes l.count empty_recipe in
      let (r, status) = parse_recipe_file fl strtof open_file path free in
      elim (Bool-cases (not (has_rcp_extension name))) [
        | inl e ↦ rw e h
        | inr e₁ ↦ elim (Bool-cases (leb max_recipes l.count)) [
          | inl e ↦ rw (e₁, e) h
          | inr e₂ ↦ elim (Bool-cases (is_ok status)) [
            | inl e ↦
                rw (e₁, e₂, e)
                  (accepted l r h (ground arith) (
                    parse_recipe_file-IsRunnable fl laws strtof open_file path free
                      (is_ok-ok status e)))
            | inr e ↦ rw (e₁, e₂, e) (refused l r h)
          ]
        ]
      ]

  load_entries-IsStocked :
      (names : List (List ℕ)) (l : RecipeLibrary) (dir_path : List ℕ)
      → IsStocked l
      → IsStocked (load_entries fl strtof open_file l dir_path names)
  unfolding load_entries
  load_entries-IsStocked [] l dir_path h = h
  load_entries-IsStocked (name ∷ names) l dir_path h =
      load_entries-IsStocked names (load_entry fl strtof open_file l dir_path name) dir_path
        (load_entry-IsStocked l dir_path name h)

  load_directory-IsStocked :
      (l : RecipeLibrary) (dir_path : List ℕ) (names : Option (List (List ℕ)))
      → IsStocked l
      → IsStocked (load_directory fl strtof open_file l dir_path names).0
  unfolding load_directory
  load_directory-IsStocked l dir_path none h = h
  load_directory-IsStocked l dir_path (some names) h =
      load_entries-IsStocked names (record l { count = 0 }) dir_path
        record { room = h.room; bounded = omega arith; ready = λ i below. absurd (omega arith) }

  -- A recipe that is found under a name in a library, behind loading any directory, has that name, and
  -- is ready: it has between 1 and 16 steps, every one legal. The library held only ready recipes
  -- before; the floating-point laws are assumed.
  pub find-load_directory :
      (l : RecipeLibrary) (dir_path : List ℕ) (names : Option (List (List ℕ))) (name : List ℕ)
      (r : Recipe)
      → IsStocked l
      → find (load_directory fl strtof open_file l dir_path names).0 name ≡ some r
      → IsReady r × (equal r.name name ≡ true)
  find-load_directory l dir_path names name r h found =
      find-IsReady (load_directory fl strtof open_file l dir_path names).0 name r
        (load_directory-IsStocked l dir_path names h) found
