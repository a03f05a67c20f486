-- ===== src/Examples/Simulator.antt =====
-- The line, the simulated machine and the commands on concrete data.
use agentic_engineering_trai.Base.{
  ℕ, ◌*◌, ◌≡◌, refl, arith, List, [], ◌∷◌, ◌++◌, length, false, true, some, Option, pos_part,
}
use agentic_engineering_trai.Common.Floats.{tenths, tenths-FloatLaws}
use agentic_engineering_trai.Common.Text.{codes, strtol}
use agentic_engineering_trai.Common.RingBuffer.{fresh}
use agentic_engineering_trai.Common.RingBuffer.Refine.{fresh-IsValid}
use agentic_engineering_trai.Sim.Transport.{
  line_capacity, LineEvent, writes, reads, held, run_line, run_line_fifo,
}
use agentic_engineering_trai.Sim.Watchdog.{new_watchdog}
use agentic_engineering_trai.Sim.Board.{SimBoard, new_board}
use agentic_engineering_trai.Sim.Board.Bounds.{heats, IsSafe, board_step, board_step-IsSafe}
use agentic_engineering_trai.App.McuClient.{new_client}
use agentic_engineering_trai.App.Recipe.RecipeLibrary.{new_library}
use agentic_engineering_trai.App.Cooking.Controller.{new_controller}
use agentic_engineering_trai.Cli.Numbers.{tokenize, parse_unsigned, parse_duration_ms}
use agentic_engineering_trai.Cli.Commands.{CommandEnv}
use agentic_engineering_trai.Cli.Execute.{execute_command, first_of, timed_parsed, wait_parsed}
use agentic_engineering_trai.Cli.Execute.Legal.{IsPrepared}
use agentic_engineering_trai.Cli.Execute.Refused.{execute_command-Keeps}
use agentic_engineering_trai.Cli.Execute.Planned.{execute_command-IsPrepared}

-- Two bytes are written and one is read.
abbrev traffic : List LineEvent
traffic = writes (7 ∷ 8 ∷ []) ∷ reads ∷ []

run_line_fifo_example :
    let (q', sent, got) = run_line (fresh line_capacity) traffic in
    held (fresh line_capacity) ++ sent ≡ got ++ held q'
run_line_fifo_example =
    run_line_fifo traffic (fresh line_capacity) (fresh-IsValid line_capacity (omega arith))

abbrev board : SimBoard ℕ
board = new_board tenths (record { closed = true; locked = true })

board-IsSafe : IsSafe tenths board
board-IsSafe = record {
  power = (refl, refl);
  duty = (refl, refl);
  still = λ h. cc;
  latched = λ h. refl;
}

-- More than the heater can give.
board_step-IsSafe_example : IsSafe tenths (board_step tenths board (heats 50000))
board_step-IsSafe_example =
    board_step-IsSafe tenths tenths-FloatLaws board (heats 50000) refl board-IsSafe

-- Whole numbers as tenths, of a text of digits.
abbrev digits : List ℕ → Option (ℕ × ℕ)
digits s = some (pos_part (strtol s).value * 10, length s)

abbrev desk : CommandEnv ℕ
desk = record {
  board = board;
  controller =
      new_controller tenths (new_client (record { rx = []; accepts = []; wire = [] })) new_watchdog;
  recipes = new_library;
  expect_failures = 0;
  quit_requested = false;
}

-- A day and a minute is too long.
refused : (execute_command tenths digits desk (codes "dough 1441")).accepted ≡ false
unfolding execute_command tokenize first_of timed_parsed parse_unsigned
refused = refl

execute_command-Keeps_example :
    ((execute_command tenths digits desk (codes "dough 1441")).env ≡ desk)
    × ((execute_command tenths digits desk (codes "dough 1441")).wait_ms ≡ 0)
execute_command-Keeps_example =
    execute_command-Keeps tenths digits desk (codes "dough 1441") refused

-- Half a minute in the unit of seconds.
waits : (execute_command tenths digits desk (codes "wait 30s")).wait_ms ≡ 30000
unfolding execute_command tokenize first_of wait_parsed parse_duration_ms parse_unsigned
waits = refl

desk-IsPrepared : IsPrepared desk
desk-IsPrepared = record {
  stocked = record { room = refl; bounded = omega arith; ready = λ i h. absurd (omega arith) };
  legal = _;
}

execute_command-IsPrepared_example :
    IsPrepared (execute_command tenths digits desk (codes "manual 60 3 5")).env
execute_command-IsPrepared_example =
    execute_command-IsPrepared tenths digits tenths-FloatLaws desk (codes "manual 60 3 5")
      desk-IsPrepared
