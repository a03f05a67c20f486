-- ===== src/App/Recipe/RecipeLibrary.antt =====
-- app/recipe/recipe_library.cpp: the recipes of a directory. The names that reading the directory gives
-- are a parameter, and so are the files behind them.
pub mod Stocked
use agentic_engineering_trai.Base.{
  ℕ, zero, suc, ◌+◌, ◌-◌, List, [], ◌∷◌, ◌++◌, Bool, not, ◌&&◌, Option, none, some, ltb, leb,
  if◌then◌else◌, take, drop, get_or, set, replicate, length,
}
use agentic_engineering_trai.Common.Status.{Status, ok, invalid_argument, is_ok}
use agentic_engineering_trai.Common.Floats.{Floats}
use agentic_engineering_trai.Common.Text.{codes, equal, Converted}
use agentic_engineering_trai.App.Recipe.{Recipe, empty_recipe}
use agentic_engineering_trai.App.Recipe.Parser.{File, parse_recipe_file}

abbrev pub max_recipes : ℕ
max_recipes = 64

unfoldable pub has_rcp_extension : List ℕ → Bool
has_rcp_extension name = ltb 4 (length name) && equal (drop (length name - 4) name) (codes ".rcp")

pub record RecipeLibrary : Type 0 where
  pub recipes : List Recipe
  pub count : ℕ

abbrev pub new_library : RecipeLibrary
new_library = record { recipes = replicate max_recipes empty_recipe; count = 0 }

-- `snprintf(path, 512, "%s/%s", dir_path, name)`
abbrev pub path_of : List ℕ → List ℕ → List ℕ
path_of dir_path name = take 511 (dir_path ++ b'/' ∷ name)

-- The first entry of that name among the first `count`.
unfoldable pub find_in : ℕ → List Recipe → List ℕ → Option Recipe
find_in zero rs name = none
find_in (suc count) [] name = none
find_in (suc count) (r ∷ rs) name =
    let rest = find_in count rs name in if equal r.name name then some r else rest

unfoldable pub find : RecipeLibrary → List ℕ → Option Recipe
find l name = find_in l.count l.recipes name

unfoldable pub recipe_at : RecipeLibrary → ℕ → Option Recipe
recipe_at l index = if ltb index l.count then some (get_or l.recipes index empty_recipe) else none

module _ (fl : Floats) (strtof : List ℕ → Converted fl.Float)
    (open_file : List ℕ → Option File) where
  -- One entry of the directory. A file that is refused still overwrites the free place.
  unfoldable pub load_entry : RecipeLibrary → List ℕ → List ℕ → RecipeLibrary
  load_entry l dir_path name =
      let (recipe, status) =
        parse_recipe_file fl strtof open_file (path_of dir_path name)
          (get_or l.recipes l.count empty_recipe) in
      if not (has_rcp_extension name) then l else if leb max_recipes l.count then l else record {
        recipes = set l.recipes l.count recipe;
        count = if is_ok status then l.count + 1 else l.count;
      }

  unfoldable pub load_entries : RecipeLibrary → List ℕ → List (List ℕ) → RecipeLibrary
  load_entries l dir_path [] = l
  load_entries l dir_path (name ∷ names) = load_entries (load_entry l dir_path name) dir_path names

  -- None for a directory that cannot be opened.
  unfoldable pub load_directory :
      RecipeLibrary → List ℕ → Option (List (List ℕ)) → RecipeLibrary × Status
  load_directory l dir_path none = (l, invalid_argument)
  load_directory l dir_path (some names) =
      (load_entries (record l { count = 0 }) dir_path names, ok)
