-- ===== src/Sim/ControlServer/Answered.antt =====
-- The lines of a text one after the other: what they do to the machine, and their responses.
use agentic_engineering_trai.Base.{
  sym, ap, ◌∙◌, append-nil, append_assoc, Bool, ℕ, ◌≡◌, refl, List, [], ◌∷◌, ◌++◌, Option,
}
use agentic_engineering_trai.Common.Floats.{Floats}
use agentic_engineering_trai.Sim.Board.{SimBoard}
use agentic_engineering_trai.Sim.ControlServer.{length_error, ControlServer, execute, respond_line}
use agentic_engineering_trai.Base.{subst}
use agentic_engineering_trai.Sim.ControlServer.Obeyed.{Obeys, execute-Obeys}

-- A line of a text, with the newline behind it.
pub record IsLine (line text : List ℕ) : Type 0 where
  pub before : List ℕ
  pub behind : List ℕ
  pub same : text ≡ before ++ (line ++ b'\n' ∷ behind)

widen_eq : (a x m b : List ℕ) → a ++ ((x ++ m) ++ b) ≡ (a ++ x) ++ (m ++ b)
widen_eq a x m b = ap (λ k. a ++ k) (append_assoc x m b) ∙ sym (append_assoc a x (m ++ b))

widen-IsLine : {line t : List ℕ} (a b : List ℕ) → IsLine line t → IsLine line (a ++ (t ++ b))
widen-IsLine {line} a b h = record {
  before = a ++ h.before;
  behind = h.behind ++ b;
  same =
      ap (λ k. a ++ (k ++ b)) h.same
      ∙ widen_eq a h.before (line ++ b'\n' ∷ h.behind) b
      ∙ ap (λ k. (a ++ h.before) ++ k) (append_assoc line (b'\n' ∷ h.behind) b);
}

module _ (fl : Floats) (read_float : List ℕ → Option (fl.Float × List ℕ)) where
  open fl use {Float, lt, sub, is_finite, ratio}

  -- The machine behind some lines of a text, and their responses in order. Between
  -- them, too many characters without a newline may be refused.
  pub data Serves (text : List ℕ) : SimBoard Float → List (List ℕ) → SimBoard Float → Type 0 where
    rests : {board : SimBoard Float} → Serves text board [] board
    serves :
        {board : SimBoard Float} {r : SimBoard Float × List ℕ} {rs : List (List ℕ)}
        {b : SimBoard Float} (line : List ℕ)
        → IsLine line text
        → Obeys fl read_float board line r
        → Serves text r.0 rs b
        → Serves text board (r.1 ∷ rs) b
    overflows :
        {board : SimBoard Float} {rs : List (List ℕ)} {b : SimBoard Float}
        → Serves text board rs b
        → Serves text board (length_error ∷ rs) b

  -- What was sent between two states, and what it did.
  pub record Answers (text : List ℕ) (s t : ControlServer Float) : Type 0 where
    pub responses : List (List ℕ)
    pub sent : t.sent ≡ s.sent ++ responses
    pub obeyed : Serves text s.board responses t.board

  Serves-trans :
      {text : List ℕ} {b b' b'' : SimBoard Float} {rs rs' : List (List ℕ)}
      → Serves text b rs b'
      → Serves text b' rs' b''
      → Serves text b (rs ++ rs') b''
  Serves-trans rests k = k
  Serves-trans (serves line p o h) k = serves line p o (Serves-trans h k)
  Serves-trans (overflows h) k = overflows (Serves-trans h k)

  widen-Serves :
      {text : List ℕ} {b b' : SimBoard Float} {rs : List (List ℕ)} (a z : List ℕ)
      → Serves text b rs b'
      → Serves (a ++ (text ++ z)) b rs b'
  widen-Serves a z rests = rests
  widen-Serves a z (serves line p o h) = serves line (widen-IsLine a z p) o (widen-Serves a z h)
  widen-Serves a z (overflows h) = overflows (widen-Serves a z h)

  pub Answers-trans :
      {text : List ℕ} {s t u : ControlServer Float}
      → Answers text s t
      → Answers text t u
      → Answers text s u
  Answers-trans {text} {s} a b = record {
    responses = a.responses ++ b.responses;
    sent = b.sent ∙ ap (λ k. k ++ b.responses) a.sent ∙ append_assoc s.sent a.responses b.responses;
    obeyed = Serves-trans a.obeyed b.obeyed;
  }

  -- What the lines of a part of a text do, they do as lines of the text.
  pub widen-Answers :
      {part text : List ℕ} {s t : ControlServer Float} (a z : List ℕ)
      → a ++ (part ++ z) ≡ text
      → Answers part s t
      → Answers text s t
  widen-Answers {part} {text} {s} {t} a z e h = record {
    responses = h.responses;
    sent = h.sent;
    obeyed = subst (λ k. Serves k s.board h.responses t.board) e (widen-Serves a z h.obeyed);
  }

  -- Nothing is sent, whatever becomes of the connection and the input.
  pub Answers-quiet :
      (text : List ℕ) (s : ControlServer Float) (connected : Bool) (input : List ℕ)
      → Answers text s (record s { connected = connected; input = input })
  Answers-quiet text s connected input = record {
    responses = [];
    sent = sym (append-nil s.sent);
    obeyed = rests;
  }

  pub Answers-line :
      (text : List ℕ) (s : ControlServer Float) (line input : List ℕ)
      → IsLine line text
      → Answers text s (respond_line fl read_float s line input)
  Answers-line text s line input p = record {
    responses = (execute fl read_float s.board line).1 ∷ [];
    sent = refl;
    obeyed = serves line p (execute-Obeys fl read_float s.board line) rests;
  }

  pub Answers-overflow :
      (text : List ℕ) (s : ControlServer Float)
      → Answers text s (record s { input = []; sent = s.sent ++ length_error ∷ [] })
  Answers-overflow text s = record {
    responses = length_error ∷ [];
    sent = refl;
    obeyed = overflows rests;
  }
