-- ===== src/Sim/ControlServer/Obeyed.antt =====
-- What a line of the test socket's client does, and how it is answered.
use agentic_engineering_trai.Base.{
  false, ℕ, ◌≡◌, refl, List, true, not, ◌||◌, Option, none, some, arith, branch, pos,
}
use agentic_engineering_trai.Common.Floats.{Floats, of_nat}
use agentic_engineering_trai.Common.Text.{codes, equal, starts_with}
use agentic_engineering_trai.Sim.Board.{SimBoard, add_mass, set_viscosity, open_lid, close_lid}
use agentic_engineering_trai.Sim.ControlServer.{
  viscosity_for, add_error, lid_error, unknown_error, read_word, has_word, is_ingredient, add_word,
  add_grams, move_lid, execute_word, execute,
}

module _ (fl : Floats) (read_float : List ℕ → Option (fl.Float × List ℕ)) where
  open fl use {Float, lt, sub, is_finite, ratio}

  -- How the ingredients thicken what is in the bowl.
  pub data IsOffered (word : List ℕ) : Float → Type 0 where
    water : equal word (codes "water") ≡ true → IsOffered word (of_nat fl 1)
    oil : equal word (codes "oil") ≡ true → IsOffered word (ratio (pos 18) 10)
    flour : equal word (codes "flour") ≡ true → IsOffered word (ratio (pos 65) 10)
    other : equal word (codes "other") ≡ true → IsOffered word (of_nat fl 2)

  -- The line says `add`, a number of grams that is finite, at least 0.1 and at most what is left of 2200 in
  -- the bowl, an ingredient that is offered, and nothing else.
  pub record Adds (board : SimBoard Float) (line : List ℕ) (grams factor : Float) : Type 0 where
    pub command : List ℕ × List ℕ
    pub ingredient : List ℕ × List ℕ
    pub behind : List ℕ
    pub first : read_word line ≡ some command
    pub adds : equal command.0 (codes "add") ≡ true
    pub number : read_float command.1 ≡ some (grams, behind)
    pub last : read_word behind ≡ some ingredient
    pub no_more : has_word ingredient.1 ≡ false
    pub finite : is_finite grams ≡ true
    pub enough : lt grams (ratio (pos 1) 10) ≡ false
    pub fits : lt (sub (of_nat fl 2200) board.scale.true_mass_g) grams ≡ false
    pub offered : IsOffered ingredient.0 factor

  -- The line says `lid`, the word, and nothing else.
  pub record Moves (line word : List ℕ) : Type 0 where
    pub command : List ℕ × List ℕ
    pub action : List ℕ × List ℕ
    pub first : read_word line ≡ some command
    pub moves : equal command.0 (codes "lid") ≡ true
    pub last : read_word command.1 ≡ some action
    pub says : equal action.0 word ≡ true
    pub no_more : has_word action.1 ≡ false

  -- The machine behind a line, and the response: a refusal leaves the machine as it is, and `ok` stands behind
  -- an addition or a use of the lid that the line asks for.
  pub data Obeys (board : SimBoard Float) (line : List ℕ) : SimBoard Float × List ℕ → Type 0 where
    refuses :
        (response : List ℕ)
        → starts_with response (codes "error ") ≡ true
        → Obeys board line (board, response)
    fills :
        (grams factor : Float)
        → Adds board line grams factor
        → Obeys board line (set_viscosity fl (add_mass fl board grams) factor, codes "ok\n")
    opens : Moves line (codes "open") → Obeys board line (open_lid fl board, codes "ok\n")
    closes : Moves line (codes "close") → Obeys board line (close_lid fl board, codes "ok\n")

  viscosity_for-IsOffered :
      (word : List ℕ) → is_ingredient fl word ≡ true → IsOffered word (viscosity_for fl word)
  unfolding viscosity_for
  viscosity_for-IsOffered word h =
      branch (IsOffered word) (equal word (codes "water")) (λ e. water e)
        (λ e.
          branch (IsOffered word) (equal word (codes "oil")) (λ f. oil f)
            (λ f.
              branch (IsOffered word) (equal word (codes "flour")) (λ g. flour g)
                (λ g. other (ground (arith, h, e, f, g)))))

  add_word-Obeys :
      (board : SimBoard Float) (line : List ℕ) (command : List ℕ × List ℕ) (grams : Float)
      (behind : List ℕ) (o : Option (List ℕ × List ℕ))
      → read_word line ≡ some command
      → equal command.0 (codes "add") ≡ true
      → read_float command.1 ≡ some (grams, behind)
      → read_word behind ≡ o
      → Obeys board line (add_word fl board grams o)
  add_word-Obeys board line command grams behind none first adds number last =
      refuses add_error refl
  add_word-Obeys board line command grams behind (some (ingredient, rest)) first adds number last =
      branch (Obeys board line)
        ((has_word rest || not (is_finite grams))
          || ((lt grams (ratio (pos 1) 10)
                || lt (sub (of_nat fl 2200) board.scale.true_mass_g) grams)
              || not (is_ingredient fl ingredient)))
        (λ e. refuses add_error refl)
        (λ e. fills grams (viscosity_for fl ingredient) (record {
          command = command;
          ingredient = (ingredient, rest);
          behind = behind;
          first = first;
          adds = adds;
          number = number;
          last = last;
          no_more = ground (arith, e);
          finite = ground (arith, e);
          enough = ground (arith, e);
          fits = ground (arith, e);
          offered = viscosity_for-IsOffered ingredient (ground (arith, e));
        }))

  add_grams-Obeys :
      (board : SimBoard Float) (line : List ℕ) (command : List ℕ × List ℕ)
      (o : Option (Float × List ℕ))
      → read_word line ≡ some command
      → equal command.0 (codes "add") ≡ true
      → read_float command.1 ≡ o
      → Obeys board line (add_grams fl board o)
  add_grams-Obeys board line command none first adds number = refuses add_error refl
  add_grams-Obeys board line command (some (grams, behind)) first adds number =
      add_word-Obeys board line command grams behind (read_word behind) first adds number refl

  move_lid-Obeys :
      (board : SimBoard Float) (line : List ℕ) (command : List ℕ × List ℕ)
      (o : Option (List ℕ × List ℕ))
      → read_word line ≡ some command
      → equal command.0 (codes "lid") ≡ true
      → read_word command.1 ≡ o
      → Obeys board line (move_lid fl board o)
  move_lid-Obeys board line command none first moves last = refuses lid_error refl
  move_lid-Obeys board line command (some (action, rest)) first moves last =
      let said : (word : List ℕ)
          → has_word rest ≡ false
          → equal action word ≡ true
          → Moves line word =
        λ word alone says. record {
          command = command;
          action = (action, rest);
          first = first;
          moves = moves;
          last = last;
          says = says;
          no_more = alone;
        } in
      branch (Obeys board line)
        (has_word rest || not (equal action (codes "open") || equal action (codes "close")))
        (λ e. refuses lid_error refl)
        (λ e.
          branch (Obeys board line) (equal action (codes "open"))
            (λ o. opens (said (codes "open") (ground (arith, e)) o))
            (λ o. closes (said (codes "close") (ground (arith, e)) (ground (arith, e, o)))))

  execute_word-Obeys :
      (board : SimBoard Float) (line : List ℕ) (o : Option (List ℕ × List ℕ))
      → read_word line ≡ o
      → Obeys board line (execute_word fl read_float board o)
  execute_word-Obeys board line none first = refuses unknown_error refl
  execute_word-Obeys board line (some (command, rest)) first =
      branch (Obeys board line) (equal command (codes "add"))
        (λ e. add_grams-Obeys board line (command, rest) (read_float rest) first e refl)
        (λ e.
          branch (Obeys board line) (equal command (codes "lid"))
            (λ f. move_lid-Obeys board line (command, rest) (read_word rest) first f refl)
            (λ f. refuses unknown_error refl))

  -- A line is refused with an error and leaves the machine as it is, or is answered with `ok` and has
  -- put in the ingredient that it names, opened the lid or closed it.
  pub execute-Obeys :
      (board : SimBoard Float) (line : List ℕ) → Obeys board line (execute fl read_float board line)
  unfolding execute
  execute-Obeys board line = execute_word-Obeys board line (read_word line) refl
