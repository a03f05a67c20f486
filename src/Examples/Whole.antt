-- ===== src/Examples/Whole.antt =====
-- The whole device, and its sockets, on concrete data.
use agentic_engineering_trai.Base.{
  ℕ, ◌*◌, ◌≡◌, ◌++◌, refl, arith, List, [], ◌∷◌, true, false, Option, none, some,
}
use agentic_engineering_trai.Common.Floats.{tenths, tenths-FloatLaws}
use agentic_engineering_trai.Common.Text.{codes, skip_white, read_digits}
use agentic_engineering_trai.Hal.Uart.{Uart}
use agentic_engineering_trai.Sim.Lid.{LidModel}
use agentic_engineering_trai.Sim.Board.{SimBoard, new_board}
use agentic_engineering_trai.Sim.ControlServer.{
  ControlServer, client, chunk, would_block, poll_control,
}
use agentic_engineering_trai.Sim.ControlServer.Lines.{
  joined, take_chars, receive_chunks, receive_chunks-take_chars,
}
use agentic_engineering_trai.Sim.Sockets.{Calls, entry, IsTidy, listen_on, listen_on-IsTidy}
use agentic_engineering_trai.Sim.SocketTransport.{
  SocketTransport, caller, nobody, byte, end_of_line, held_fd, destroy,
}
use agentic_engineering_trai.Sim.SocketTransport.Descriptors.{
  SocketEvent, asks, reads_in, run_socket, destroy-run_socket,
}
use agentic_engineering_trai.System.SystemSim.{SystemSim, Millisecond, new_system}
use agentic_engineering_trai.System.SystemSim.Guarded.{
  SystemEvent, passes_one, opens_it, Runs, new_system-IsGuarded, guarded-Runs,
}

abbrev lid : LidModel
lid = record { closed = true; locked = false }

abbrev silent : Uart
silent = record { rx = []; accepts = []; wire = [] }

abbrev calm : Millisecond ℕ
calm = record {
  noise = 0;
  shakes = (0, 0) ∷ [];
  halted = false;
  mcu_line = λ u. u;
  app_line = λ u. u;
}

abbrev device : SystemSim ℕ
device = new_system tenths lid silent silent calm

-- The lid is opened between two milliseconds.
abbrev afternoon : List (SystemEvent tenths)
afternoon = passes_one calm ∷ opens_it ∷ passes_one calm ∷ []

guarded-Runs_example : Runs tenths tenths-FloatLaws device afternoon
guarded-Runs_example =
    guarded-Runs tenths tenths-FloatLaws afternoon device (omega arith)
      (new_system-IsGuarded tenths tenths-FloatLaws lid silent silent calm)

abbrev board : SimBoard ℕ
board = new_board tenths lid

abbrev server : ControlServer ℕ
server = record { listening = true; connected = true; board = board; input = []; sent = [] }

-- Digits as tenths, and what stands behind them.
abbrev read_float : List ℕ → Option (ℕ × List ℕ)
read_float s = let (n, rest) = read_digits 0 (skip_white s) in some (n * 10, rest)

-- A line in two pieces.
abbrev pieces : List (List ℕ)
pieces = codes "lid o" ∷ codes "pen\n" ∷ []

receive_chunks-take_chars_example :
    receive_chunks tenths read_float server pieces
    ≡ take_chars tenths read_float server (joined pieces)
receive_chunks-take_chars_example =
    receive_chunks-take_chars tenths read_float pieces server tt (omega arith) (omega arith)

abbrev polled : ControlServer ℕ
polled =
    poll_control tenths read_float server (client true)
      (chunk (codes "add 5 oil\n") ∷ would_block ∷ [])

-- A file that is no socket is in the way.
abbrev calls : Calls
calls = record {
  socket = some 3;
  found = entry false true;
  unlinks = true;
  binds = true;
  listens = true;
  connects = true;
  configures = true;
}

listen_on-IsTidy_example : IsTidy (entry false true) (listen_on (some (codes "/tmp/a")) calls)
listen_on-IsTidy_example = listen_on-IsTidy (some (codes "/tmp/a")) calls

abbrev listening : SocketTransport
listening = record { listen_fd = some 3; conn_fd = none; accepted = []; closed = [] }

-- One caller hangs up, and the next one is refused by the system.
abbrev visits : List SocketEvent
visits =
    asks (caller 4 true)
    ∷ reads_in nobody (byte 7)
    ∷ reads_in nobody end_of_line
    ∷ asks (caller 5 false)
    ∷ []

destroy-run_socket_example :
    (destroy (run_socket listening visits)).closed
    ≡ (run_socket listening visits).accepted ++ held_fd (run_socket listening visits).listen_fd
destroy-run_socket_example = destroy-run_socket visits listening refl
