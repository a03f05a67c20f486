-- ===== src/Sim/ControlServer.antt =====
-- sim/sim_control_server.cpp: the test socket of the simulated machine. `read_float` is the stream's
-- `>>` into a float: the value and the rest, none where it fails. A descriptor is whether it is open,
-- and what `accept` and `recv` give is an argument.
pub mod Lines
pub mod Obeyed
pub mod Answered
pub mod Tracked
pub mod Harmless
use agentic_engineering_trai.Base.{
  ℕ, zero, suc, List, [], ◌∷◌, ◌++◌, Bool, true, false, not, ◌||◌, Option, none, some, pos, ltb,
  if◌then◌else◌, length,
}
use agentic_engineering_trai.Common.Floats.{Floats, of_nat}
use agentic_engineering_trai.Common.Text.{codes, equal, is_white, skip_white, cut_at}
use agentic_engineering_trai.Sim.Board.{SimBoard, add_mass, set_viscosity, open_lid, close_lid}

-- The characters in front of a blank, and the rest.
abbrev split_word : List ℕ → List ℕ × List ℕ
split_word [] = ([], [])
split_word (c ∷ s) =
    let (word, rest) = split_word s in if is_white c then ([], c ∷ s) else (c ∷ word, rest)

abbrev first_word : List ℕ → Option (List ℕ × List ℕ)
first_word [] = none
first_word (c ∷ s) = some (split_word (c ∷ s))

-- `stream >> word`: the word and the rest of the stream, none at its end.
abbrev pub read_word : List ℕ → Option (List ℕ × List ℕ)
read_word s = first_word (skip_white s)

-- `stream >> extra`
abbrev pub has_word : List ℕ → Bool
has_word s = elim (read_word s) [ none ↦ false | some word ↦ true ]

abbrev pub ok_line : List ℕ
ok_line = codes "ok\n"

abbrev pub add_error : List ℕ
add_error = codes "error invalid add command\n"

abbrev pub lid_error : List ℕ
lid_error = codes "error invalid lid command\n"

abbrev pub unknown_error : List ℕ
unknown_error = codes "error unknown command\n"

abbrev pub length_error : List ℕ
length_error = codes "error command too long\n"

abbrev pub max_input : ℕ
max_input = 512

-- What `accept` gives: nothing, or a connection that can be made non-blocking or not.
pub data Accepted : Type 0 where
  no_client : Accepted
  client : Bool → Accepted

-- What `recv` gives: some bytes, the end of the connection, or an error.
pub data Received : Type 0 where
  chunk : List ℕ → Received
  hang_up would_block : Received

-- `sent` are the responses so far.
pub record ControlServer (Float : Type 0) : Type 0 where
  pub listening : Bool
  pub connected : Bool
  pub board : SimBoard Float
  pub input : List ℕ
  pub sent : List (List ℕ)

module _ (fl : Floats) where
  open fl use {Float, lt, sub, is_finite, ratio}

  unfoldable pub viscosity_for : List ℕ → Float
  viscosity_for ingredient =
      if equal ingredient (codes "water")
      then of_nat fl 1
      else if equal ingredient (codes "oil")
      then ratio (pos 18) 10
      else if equal ingredient (codes "flour")
      then ratio (pos 65) 10
      else of_nat fl 2

  abbrev pub is_ingredient : List ℕ → Bool
  is_ingredient word =
      (equal word (codes "water") || equal word (codes "oil"))
      || (equal word (codes "flour") || equal word (codes "other"))

  abbrev pub add_word : SimBoard Float → Float → Option (List ℕ × List ℕ) → SimBoard Float × List ℕ
  add_word board grams none = (board, add_error)
  add_word board grams (some (ingredient, rest)) =
      if (has_word rest || not (is_finite grams))
        || ((lt grams (ratio (pos 1) 10) || lt (sub (of_nat fl 2200) board.scale.true_mass_g) grams)
            || not (is_ingredient ingredient))
      then (board, add_error)
      else (set_viscosity fl (add_mass fl board grams) (viscosity_for ingredient), ok_line)

  abbrev pub add_grams : SimBoard Float → Option (Float × List ℕ) → SimBoard Float × List ℕ
  add_grams board none = (board, add_error)
  add_grams board (some (grams, rest)) = add_word board grams (read_word rest)

  abbrev pub move_lid : SimBoard Float → Option (List ℕ × List ℕ) → SimBoard Float × List ℕ
  move_lid board none = (board, lid_error)
  move_lid board (some (action, rest)) =
      if has_word rest || not (equal action (codes "open") || equal action (codes "close"))
      then (board, lid_error)
      else if equal action (codes "open")
      then (open_lid fl board, ok_line)
      else (close_lid fl board, ok_line)

  module _ (read_float : List ℕ → Option (Float × List ℕ)) where
    abbrev pub execute_word : SimBoard Float → Option (List ℕ × List ℕ) → SimBoard Float × List ℕ
    execute_word board none = (board, unknown_error)
    execute_word board (some (command, rest)) =
        if equal command (codes "add")
        then add_grams board (read_float rest)
        else if equal command (codes "lid")
        then move_lid board (read_word rest)
        else (board, unknown_error)

    -- The machine behind the command, and the response.
    unfoldable pub execute : SimBoard Float → List ℕ → SimBoard Float × List ℕ
    execute board line = execute_word board (read_word line)

    abbrev pub respond_line : ControlServer Float → List ℕ → List ℕ → ControlServer Float
    respond_line s line behind =
        let (board, response) = execute s.board line in
        record s { board = board; input = behind; sent = s.sent ++ response ∷ [] }

    abbrev pub next_line :
        List ℕ × Option (List ℕ)
        → ControlServer Float
        → (ControlServer Float → ControlServer Float)
        → ControlServer Float
    next_line (line, none) s loop = s
    next_line (line, some behind) s loop = loop (respond_line s line behind)

    -- The loop over the lines, with fuel for them.
    unfoldable pub line_loop : ℕ → ControlServer Float → ControlServer Float
    line_loop zero s = s
    line_loop (suc fuel) s = next_line (cut_at b'\n' s.input) s (line_loop fuel)

    unfoldable pub drop_overlong : ControlServer Float → ControlServer Float
    drop_overlong s =
        if ltb max_input (length s.input)
        then record s { input = []; sent = s.sent ++ length_error ∷ [] }
        else s

    abbrev pub process_lines : ControlServer Float → ControlServer Float
    process_lines s = drop_overlong (line_loop (length s.input) s)

    unfoldable pub receive_chunk : ControlServer Float → List ℕ → ControlServer Float
    receive_chunk s bytes = process_lines (record s { input = s.input ++ bytes })

    unfoldable pub accept_client : ControlServer Float → Accepted → ControlServer Float
    accept_client s no_client = s
    accept_client s (client configured) =
        if (not s.listening || s.connected) || not configured
        then s
        else record s { connected = true; input = [] }

    -- The loop of `poll`, over what `recv` gives.
    unfoldable pub receive_loop : ControlServer Float → List Received → ControlServer Float
    receive_loop s [] = s
    receive_loop s (chunk bytes ∷ more) = receive_loop (receive_chunk s bytes) more
    receive_loop s (hang_up ∷ more) = record s { connected = false; input = [] }
    receive_loop s (would_block ∷ more) = s

    unfoldable pub poll_control :
        ControlServer Float → Accepted → List Received → ControlServer Float
    poll_control s accepted received =
        let s' = accept_client s accepted in
        if not s'.connected then s' else receive_loop s' received
