-- ===== src/Sim/ControlServer/Tracked.antt =====
-- The loops of the test socket serve the lines of what was kept and what came, and keep its end.
use agentic_engineering_trai.Base.{
  sym, ap, ◌∙◌, append-nil, append_assoc, false, ℕ, zero, suc, ◌≡◌, refl, List, [], ◌∷◌, ◌++◌, true,
  not, ◌||◌, Option, none, some, length, branch, ltb,
}
use agentic_engineering_trai.Common.Floats.{Floats}
use agentic_engineering_trai.Common.Text.{cut_at}
use agentic_engineering_trai.Sim.ControlServer.{
  ControlServer, Accepted, no_client, client, Received, chunk, hang_up, would_block, max_input,
  respond_line, respond_line, next_line, line_loop, drop_overlong, receive_chunk, accept_client,
  receive_loop, poll_control,
}
use agentic_engineering_trai.Common.Text.{put_front}
use agentic_engineering_trai.Sim.ControlServer.Answered.{
  Answers, Answers-trans, widen-Answers, Answers-quiet, Answers-line, Answers-overflow,
}
use agentic_engineering_trai.Base.{subst, Bool-cases, inl, inr, ==→eq, ◌==◌}

abbrev rejoin : ℕ → List ℕ × Option (List ℕ) → List ℕ
rejoin c (line, none) = line
rejoin c (line, some behind) = line ++ c ∷ behind

rejoin-put_front :
    (c d : ℕ) (r : List ℕ × Option (List ℕ)) → rejoin c (put_front d r) ≡ d ∷ rejoin c r
rejoin-put_front c d (line, none) = refl
rejoin-put_front c d (line, some behind) = refl

rejoin-cut_at : (c : ℕ) (s : List ℕ) → rejoin c (cut_at c s) ≡ s
rejoin-cut_at c [] = refl
rejoin-cut_at c (d ∷ s) = elim (Bool-cases (d == c)) [
  | inl e ↦ rw e (ap (λ k. k ∷ s) (sym (==→eq d c e)))
  | inr e ↦ rw e (rejoin-put_front c d (cut_at c s) ∙ ap (λ k. d ∷ k) (rejoin-cut_at c s))
]

cut_at-append :
    (c : ℕ) (s line behind : List ℕ) → cut_at c s ≡ (line, some behind) → s ≡ line ++ c ∷ behind
cut_at-append c s line behind h = sym (rejoin-cut_at c s) ∙ ap (rejoin c) h

-- What `recv` gives of a text.
abbrev pub sent_text : List Received → List ℕ
sent_text (chunk bytes ∷ more) = bytes ++ sent_text more
sent_text _ = []

module _ (fl : Floats) (read_float : List ℕ → Option (fl.Float × List ℕ)) where
  open fl use {Float}

  -- The lines of a text were served, and what is kept of it is its end.
  record Tracked (text : List ℕ) (s t : ControlServer Float) : Type 0 where
    answers : Answers fl read_float text s t
    before : List ℕ
    rest : text ≡ before ++ t.input

  Tracked-trans :
      {text whole : List ℕ} {s t u : ControlServer Float} (more : List ℕ)
      → text ++ more ≡ whole
      → Tracked text s t
      → Tracked (t.input ++ more) t u
      → Tracked whole s u
  Tracked-trans {text} {whole} {s} {t} {u} more e a b =
      let behind : a.before ++ (t.input ++ more) ≡ whole =
        sym (append_assoc a.before t.input more) ∙ ap (λ k. k ++ more) (sym a.rest) ∙ e in
      record {
        answers = Answers-trans fl read_float (widen-Answers fl read_float [] more e a.answers) (
            widen-Answers fl read_float a.before []
              (ap (λ k. a.before ++ k) (append-nil (t.input ++ more)) ∙ behind) b.answers);
        before = a.before ++ b.before;
        rest =
            sym behind
            ∙ ap (λ k. a.before ++ k) b.rest
            ∙ sym (append_assoc a.before b.before u.input);
      }

  Tracked-next :
      {text : List ℕ} {s t u : ControlServer Float}
      → Tracked text s t
      → Tracked t.input t u
      → Tracked text s u
  Tracked-next {text} {s} {t} {u} a b =
      Tracked-trans [] (append-nil text) a (subst (λ k. Tracked k t u) (sym (append-nil t.input)) b)

  Tracked-quiet : (s : ControlServer Float) → Tracked s.input s s
  Tracked-quiet s = record {
    answers = Answers-quiet fl read_float s.input s s.connected s.input;
    before = [];
    rest = refl;
  }

  next_line-Tracked :
      (cut : List ℕ × Option (List ℕ)) (s : ControlServer Float)
      (loop : ControlServer Float → ControlServer Float)
      → cut_at b'\n' s.input ≡ cut
      → ((t : ControlServer Float) → Tracked t.input t (loop t))
      → Tracked s.input s (next_line fl read_float cut s loop)
  next_line-Tracked (line, none) s loop e h = Tracked-quiet s
  next_line-Tracked (line, some behind) s loop e h =
      let split = cut_at-append b'\n' s.input line behind e in
      Tracked-next
        (record {
          answers =
              Answers-line fl read_float s.input s line behind
                (record { before = []; behind = behind; same = split });
          before = line ++ b'\n' ∷ [];
          rest = split ∙ sym (append_assoc line (b'\n' ∷ []) behind);
        })
        (h (respond_line fl read_float s line behind))

  line_loop-Tracked :
      (fuel : ℕ) (s : ControlServer Float) → Tracked s.input s (line_loop fl read_float fuel s)
  unfolding line_loop
  line_loop-Tracked zero s = Tracked-quiet s
  line_loop-Tracked (suc fuel) s =
      next_line-Tracked (cut_at b'\n' s.input) s (line_loop fl read_float fuel) refl
        (line_loop-Tracked fuel)

  drop_overlong-Tracked :
      (s : ControlServer Float) → Tracked s.input s (drop_overlong fl read_float s)
  unfolding drop_overlong
  drop_overlong-Tracked s =
      branch (Tracked s.input s) (ltb max_input (length s.input))
        (λ e. record {
          answers = Answers-overflow fl read_float s.input s;
          before = s.input;
          rest = sym (append-nil s.input);
        })
        (λ e. Tracked-quiet s)

  receive_chunk-Tracked :
      (s : ControlServer Float) (bytes : List ℕ)
      → Tracked (s.input ++ bytes) s (receive_chunk fl read_float s bytes)
  unfolding receive_chunk
  receive_chunk-Tracked s bytes =
      let text = s.input ++ bytes in
      let t : ControlServer Float = record s { input = text } in
      let u = line_loop fl read_float (length text) t in
      Tracked-next
        (record {
          answers = Answers-quiet fl read_float text s s.connected text;
          before = [];
          rest = refl;
        })
        (Tracked-next (line_loop-Tracked (length text) t) (drop_overlong-Tracked u))

  receive_loop-Tracked :
      (received : List Received) (s : ControlServer Float)
      → Tracked (s.input ++ sent_text received) s (receive_loop fl read_float s received)
  unfolding receive_loop
  receive_loop-Tracked [] s =
      Tracked-trans [] refl (Tracked-quiet s)
        (subst (λ k. Tracked k s s) (sym (append-nil s.input)) (Tracked-quiet s))
  receive_loop-Tracked (chunk bytes ∷ more) s =
      Tracked-trans (sent_text more) (append_assoc s.input bytes (sent_text more))
        (receive_chunk-Tracked s bytes)
        (receive_loop-Tracked more (receive_chunk fl read_float s bytes))
  receive_loop-Tracked (hang_up ∷ more) s = record {
    answers = Answers-quiet fl read_float (s.input ++ []) s false [];
    before = s.input;
    rest = refl;
  }
  receive_loop-Tracked (would_block ∷ more) s =
      Tracked-trans [] refl (Tracked-quiet s)
        (subst (λ k. Tracked k s s) (sym (append-nil s.input)) (Tracked-quiet s))

  accept_client-Tracked :
      (s : ControlServer Float) (accepted : Accepted)
      → Tracked s.input s (accept_client fl read_float s accepted)
  unfolding accept_client
  accept_client-Tracked s no_client = Tracked-quiet s
  accept_client-Tracked s (client configured) =
      branch (Tracked s.input s) ((not s.listening || s.connected) || not configured)
        (λ e. Tracked-quiet s)
        (λ e. record {
          answers = Answers-quiet fl read_float s.input s true [];
          before = s.input;
          rest = sym (append-nil s.input);
        })

  pub poll_control-Answers :
      (s : ControlServer Float) (accepted : Accepted) (received : List Received)
      → Answers fl read_float
          (s.input ++ sent_text received)
          s
          (poll_control fl read_float s accepted received)
  unfolding poll_control
  poll_control-Answers s accepted received =
      let text = s.input ++ sent_text received in
      let t = accept_client fl read_float s accepted in
      let next = accept_client-Tracked s accepted in
      branch (Answers fl read_float text s) (not t.connected)
        (λ e. widen-Answers fl read_float [] (sent_text received) refl next.answers)
        (λ e.
          (Tracked-trans (sent_text received) refl next (receive_loop-Tracked received t)).answers)
