-- ===== src/Protocol/Link/Receive.antt =====
-- The receive side of a link: `poll` takes the first frame of the bytes that have come, leaves the
-- bytes behind it for the next call, and gives up a frame that stays incomplete too long.
use agentic_engineering_trai.Base.{
  sym, ap, length, ℕ, ◌+◌, ◌<◌, ◌≡◌, refl, ◌∙◌, inl, inr, List, [], ◌∷◌, true, ◌&&◌, Option, none,
  some, arith, if◌then◌else◌, Option-cases, u32, ltb,
}
use agentic_engineering_trai.Hal.Uart.{Uart}
use agentic_engineering_trai.Protocol.Wire.{Frame}
use agentic_engineering_trai.Protocol.FrameParser.{FrameParser, feed, receive, in_progress, reset}
use agentic_engineering_trai.Protocol.Link.{
  Link, frame_timeout_ms, read_loop, has_passed, after_loop, poll, flush_tx,
}
use agentic_engineering_trai.Protocol.Link.Transmit.{rx-flush_tx}

-- What the loop does, told by the parser alone.
abbrev Reads : FrameParser → List ℕ → FrameParser → List ℕ → Option Frame → Type 0
Reads p bytes q rest none = (rest ≡ []) × (receive p bytes ≡ (q, []))
Reads p bytes q rest (some f) = receive p bytes ≡ ((receive q rest).0, f ∷ (receive q rest).1)

-- What a poll at time `now` may give: the first frame of the bytes that had come, the bytes behind
-- it kept for the next call; or no frame, all bytes read, and the parser reset if the frame in
-- progress has been so for longer than the timeout.
abbrev pub Polled : Link → Uart → ℕ → Link → Uart → Option Frame → Type 0
Polled l u now l' u' none =
    (u'.rx ≡ [])
    × (q : FrameParser) × (receive l.parser u.rx ≡ (q, []))
    × (l'.parser ≡ (if in_progress q && has_passed now l'.frame_deadline_ms then reset q else q))
Polled l u now l' u' (some f) =
    receive l.parser u.rx ≡ ((receive l'.parser u'.rx).0, f ∷ (receive l'.parser u'.rx).1)

-- The deadline set when a frame starts at `start` has passed exactly when more than the timeout has
-- gone by, also when the millisecond counter wraps in between.
pub has_passed_deadline :
    (start elapsed : ℕ)
    → start < 4294967296
    → elapsed < 2147483648
    → has_passed (u32 (start + elapsed)) (u32 (start + frame_timeout_ms))
      ≡ ltb frame_timeout_ms elapsed
has_passed_deadline start elapsed h k = ground arith

read_loop-shorter :
    (now : ℕ) (bytes : List ℕ) (p : FrameParser) (deadline : ℕ) (f : Frame)
    → (read_loop now p deadline bytes).3 ≡ some f
    → length (read_loop now p deadline bytes).2 < length bytes
unfolding read_loop
read_loop-shorter now [] p deadline f e = cc
read_loop-shorter now (b ∷ bytes) p deadline f e = elim (Option-cases (feed true p b).1) [
  | inl h ↦
      rw (h, read_loop)
        (omega (arith, read_loop-shorter now bytes (feed true p b).0 _ f (rw (h, read_loop) at e)))
  | inr (g, h) ↦ rw (h, read_loop) (omega arith)
]

after_loop-rx :
    (l : Link) (u : Uart) (now : ℕ) (p : FrameParser) (d : ℕ) (rest : List ℕ) (out : Option Frame)
    → ((after_loop l u now p d rest out).1.rx ≡ rest) × ((after_loop l u now p d rest out).2 ≡ out)
unfolding after_loop
after_loop-rx l u now p d rest none = (refl, refl)
after_loop-rx l u now p d rest (some f) = (refl, refl)

-- A poll that gives a frame has read at least one byte.
pub poll-shorter :
    (l : Link) (u : Uart) (now : ℕ) (f : Frame)
    → (poll l u now).2 ≡ some f
    → length (poll l u now).1.rx < length u.rx
unfolding poll
poll-shorter l u now f e =
    let (l₁, u₁) = flush_tx l u in
    let (p, d, rest, out) = read_loop now l₁.parser l₁.frame_deadline_ms u₁.rx in
    let (read, same) = after_loop-rx l₁ u₁ now p d rest out in
    omega (
      arith,
      ap (λ k. length k) read,
      ap (λ k. length k) (rx-flush_tx l u),
      read_loop-shorter now u₁.rx l₁.parser l₁.frame_deadline_ms f (sym same ∙ e),
    )
