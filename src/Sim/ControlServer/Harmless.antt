-- ===== src/Sim/ControlServer/Harmless.antt =====
-- What a client of the test socket can do to the machine and to the server.
use agentic_engineering_trai.Base.{ℕ, ◌≤◌, List, Option, length}
use agentic_engineering_trai.Common.Floats.{Floats, FloatLaws}
use agentic_engineering_trai.Sim.Board.Bounds.{IsSafe}
use agentic_engineering_trai.Sim.ControlServer.{ControlServer, max_input}

module _ (fl : Floats) (read_float : List ℕ → Option (fl.Float × List ℕ)) where
  open fl use {Float}

  -- The input is bounded.
  abbrev Short : ControlServer Float → Type 0
  Short s = length s.input ≤ max_input

  module _ (laws : FloatLaws fl) where
    -- The machine is safe, and the input is bounded.
    pub record IsContained (s : ControlServer Float) : Type 0 where
      pub safe : IsSafe fl s.board
      pub bounded : length s.input ≤ max_input
