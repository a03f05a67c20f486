-- ===== src/Sim/ControlServer/Lines.antt =====
-- Commands are lines, however their bytes arrive: the loops against a machine that reads characters.
use agentic_engineering_trai.Base.{
  ℕ, zero, suc, ◌+◌, ◌≤◌, ◌≡◌, ◌≢◌, refl, sym, ap, subst, ◌∙◌, inl, inr, List, [], ◌∷◌, ◌++◌,
  append-nil, append_assoc, true, false, Option, none, some, arith, All, length, length-append,
  Bool-cases, ◌==◌, ==→eq, ==→ne, ne→==, ge→ltb, if◌then◌else◌,
}
use agentic_engineering_trai.Common.Floats.{Floats}
use agentic_engineering_trai.Common.Text.{cut_at}
use agentic_engineering_trai.Sim.ControlServer.{
  ControlServer, max_input, respond_line, line_loop, drop_overlong, receive_chunk,
}

abbrev pub HasNoNewline : List ℕ → Type 0
HasNoNewline = All (λ c. c ≢ b'\n')

-- No line of the characters has more than 512 of them, `n` of which stand before the first.
abbrev pub IsShort : ℕ → List ℕ → Type 0
IsShort n [] = Unit
IsShort n (c ∷ s) = if c == b'\n' then IsShort 0 s else (n + 1 ≤ max_input) × IsShort (n + 1) s

-- The pieces one after the other.
abbrev pub joined : List (List ℕ) → List ℕ
joined [] = []
joined (s ∷ more) = s ++ joined more

cut_at-HasNoNewline : (line : List ℕ) → HasNoNewline line → cut_at b'\n' line ≡ (line, none)
cut_at-HasNoNewline [] h = refl
cut_at-HasNoNewline (c ∷ s) h = rw (ne→== c b'\n' h.0, cut_at-HasNoNewline s h.1) refl

cut_at_newline :
    (line behind : List ℕ)
    → HasNoNewline line
    → cut_at b'\n' (line ++ (b'\n' ∷ behind)) ≡ (line, some behind)
cut_at_newline [] behind h = refl
cut_at_newline (c ∷ s) behind h = rw (ne→== c b'\n' h.0, cut_at_newline s behind h.1) refl

snoc-HasNoNewline :
    (line : List ℕ) (c : ℕ) → HasNoNewline line → c ≢ b'\n' → HasNoNewline (line ++ c ∷ [])
snoc-HasNoNewline [] c h n = (n, tt)
snoc-HasNoNewline (d ∷ s) c h n = (h.0, snoc-HasNoNewline s c h.1 n)

module _ (fl : Floats) (read_float : List ℕ → Option (fl.Float × List ℕ)) where
  open fl use {Float}

  -- The reference: each character is put behind the line, or runs it.
  abbrev pub take_char : ControlServer Float → ℕ → ControlServer Float
  take_char s c =
      if c == b'\n'
      then respond_line fl read_float s s.input []
      else record s { input = s.input ++ c ∷ [] }

  take_newline :
      (s : ControlServer Float) (c : ℕ)
      → (c == b'\n') ≡ true
      → respond_line fl read_float s s.input [] ≡ take_char s c
  take_newline s c e = rw e refl

  take_other :
      (s : ControlServer Float) (c : ℕ)
      → (c == b'\n') ≡ false
      → record s { input = s.input ++ c ∷ [] } ≡ take_char s c
  take_other s c e = rw e refl

  unfoldable pub take_chars : ControlServer Float → List ℕ → ControlServer Float
  take_chars s [] = s
  take_chars s (c ∷ cs) = take_chars (take_char s c) cs

  loop_end :
      (fuel : ℕ) (s : ControlServer Float)
      → HasNoNewline s.input
      → line_loop fl read_float fuel s ≡ s
  unfolding line_loop
  loop_end zero s h = refl
  loop_end (suc fuel) s h = simp (cut_at-HasNoNewline s.input h) refl

  loop_line :
      (fuel : ℕ) (s : ControlServer Float) (line behind : List ℕ)
      → HasNoNewline line
      → line_loop fl read_float (suc fuel) (record s { input = line ++ (b'\n' ∷ behind) })
        ≡ line_loop fl read_float fuel (respond_line fl read_float s line behind)
  unfolding line_loop
  loop_line fuel s line behind h = rw (cut_at_newline line behind h) refl

  line_loop_chars :
      (cs : List ℕ) (fuel : ℕ) (s : ControlServer Float)
      → HasNoNewline s.input
      → length s.input + length cs ≤ fuel
      → line_loop fl read_float fuel (record s { input = s.input ++ cs }) ≡ take_chars s cs
  unfolding take_chars
  line_loop_chars [] fuel s h enough =
      ap (λ k. line_loop fl read_float fuel (record s { input = k })) (append-nil s.input)
      ∙ loop_end fuel s h
  line_loop_chars (c ∷ cs) zero s h enough = absurd (omega arith)
  line_loop_chars (c ∷ cs) (suc fuel) s h enough = elim (Bool-cases (c == b'\n')) [
    | inl e ↦
        let next = respond_line fl read_float s s.input [] in
        rw e (
          ap (λ k. line_loop fl read_float (suc fuel) (record s { input = s.input ++ (k ∷ cs) }))
            (==→eq c b'\n' e)
          ∙ loop_line fuel s s.input cs h
          ∙ line_loop_chars cs fuel next tt (omega arith))
    | inr e ↦ rw e (
        ap (λ k. line_loop fl read_float (suc fuel) (record s { input = k }))
          (sym (append_assoc s.input (c ∷ []) cs))
        ∙ line_loop_chars cs (suc fuel) (record s { input = s.input ++ c ∷ [] })
            (snoc-HasNoNewline s.input c h (==→ne c b'\n' e))
            (omega (arith, length-append s.input (c ∷ []))))
  ]

  abbrev Left : ControlServer Float → Type 0
  Left t = HasNoNewline t.input × (length t.input ≤ max_input)

  -- What is left of a line has no newline, and fits.
  take_chars_onto :
      (cs : List ℕ) (s : ControlServer Float)
      → HasNoNewline s.input
      → length s.input ≤ max_input
      → IsShort (length s.input) cs
      → Left (take_chars s cs)
  unfolding take_chars
  take_chars_onto [] s h fits short = (h, fits)
  take_chars_onto (c ∷ cs) s h fits short = elim (Bool-cases (c == b'\n')) [
    | inl e ↦
        subst (λ k. Left (take_chars k cs)) (take_newline s c e)
          (take_chars_onto cs (respond_line fl read_float s s.input []) tt (omega arith)
            (rw e at short))
    | inr e ↦
        let (room, rest) : (length s.input + 1 ≤ max_input) × IsShort (length s.input + 1) cs =
          rw e at short in
        let longer : length (s.input ++ c ∷ []) ≡ length s.input + 1 =
          omega (arith, length-append s.input (c ∷ [])) in
        subst (λ k. Left (take_chars k cs)) (take_other s c e)
          (take_chars_onto cs (record s { input = s.input ++ c ∷ [] })
            (snoc-HasNoNewline s.input c h (==→ne c b'\n' e)) (omega arith)
            (subst (λ k. IsShort k cs) (sym longer) rest))
  ]

  receive_chunk_chars :
      (cs : List ℕ) (s : ControlServer Float)
      → HasNoNewline s.input
      → length s.input ≤ max_input
      → IsShort (length s.input) cs
      → receive_chunk fl read_float s cs ≡ take_chars s cs
  unfolding receive_chunk drop_overlong
  receive_chunk_chars cs s h fits short =
      let same =
        line_loop_chars cs (length (s.input ++ cs)) s h (omega (arith, length-append s.input cs)) in
      let (plain, left) = take_chars_onto cs s h fits short in
      rw same (rw (ge→ltb max_input (length (take_chars s cs).input) left) refl)

  abbrev pub receive_chunks : ControlServer Float → List (List ℕ) → ControlServer Float
  receive_chunks s [] = s
  receive_chunks s (bytes ∷ more) = receive_chunks (receive_chunk fl read_float s bytes) more

  take_chars-append :
      (cs ds : List ℕ) (s : ControlServer Float)
      → take_chars s (cs ++ ds) ≡ take_chars (take_chars s cs) ds
  unfolding take_chars
  take_chars-append [] ds s = refl
  take_chars-append (c ∷ cs) ds s = take_chars-append cs ds (take_char s c)

  IsShort-parts :
      (cs ds : List ℕ) (s : ControlServer Float)
      → IsShort (length s.input) (cs ++ ds)
      → IsShort (length s.input) cs × IsShort (length (take_chars s cs).input) ds
  unfolding take_chars
  IsShort-parts [] ds s h = (tt, h)
  IsShort-parts (c ∷ cs) ds s h = elim (Bool-cases (c == b'\n')) [
    | inl e ↦
        let (first, others) =
          IsShort-parts cs ds (respond_line fl read_float s s.input []) (rw e at h) in
        (
          rw e first,
          subst (λ k. IsShort (length (take_chars k cs).input) ds) (take_newline s c e) others,
        )
    | inr e ↦
        let (room, rest) : (length s.input + 1 ≤ max_input)
            × IsShort (length s.input + 1) (cs ++ ds) =
          rw e at h in
        let longer : length (s.input ++ c ∷ []) ≡ length s.input + 1 =
          omega (arith, length-append s.input (c ∷ [])) in
        let (first, others) =
          IsShort-parts cs ds (record s { input = s.input ++ c ∷ [] })
            (subst (λ k. IsShort k (cs ++ ds)) (sym longer) rest) in
        (
          rw e (room, subst (λ k. IsShort k cs) longer first),
          subst (λ k. IsShort (length (take_chars k cs).input) ds) (take_other s c e) others,
        )
  ]

  -- Where no line has more than 512 characters, the responses and the machine are those of the
  -- characters taken one by one, each newline running the line in front of it, however the
  -- bytes were cut into pieces.
  pub receive_chunks-take_chars :
      (pieces : List (List ℕ)) (s : ControlServer Float)
      → HasNoNewline s.input
      → length s.input ≤ max_input
      → IsShort (length s.input) (joined pieces)
      → receive_chunks s pieces ≡ take_chars s (joined pieces)
  receive_chunks-take_chars [] s h fits short = unfold take_chars in refl
  receive_chunks-take_chars (cs ∷ pieces) s h fits short =
      let (first, others) = IsShort-parts cs (joined pieces) s short in
      let (plain, left) = take_chars_onto cs s h fits first in
      ap (λ k. receive_chunks k pieces) (receive_chunk_chars cs s h fits first)
      ∙ receive_chunks-take_chars pieces (take_chars s cs) plain left others
      ∙ sym (take_chars-append cs (joined pieces) s)
