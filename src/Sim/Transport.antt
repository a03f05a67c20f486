-- ===== src/Sim/Transport.antt =====
-- sim/in_memory_transport.h: one direction of the line, a ring buffer that one end writes and the other
-- end reads.
use agentic_engineering_trai.Base.{
  ℕ, suc, ◌+◌, ◌-◌, ◌≤◌, ◌<◌, ◌≡◌, refl, sym, ap, ◌∙◌, List, [], ◌∷◌, ◌++◌, append-nil,
  append_assoc, true, false, Option, none, some, arith, ◌⊎◌, inl, inr, ltb, ltb→lt, ltb→ge,
  if◌then◌else◌, Bool-cases, length, take, length-append, min,
}
use agentic_engineering_trai.Common.RingBuffer.{RingBuffer, push, pop}
use agentic_engineering_trai.Common.RingBuffer.Refine.{
  IsValid, contents, enqueue, dequeue, push-IsValid, pop-IsValid, push_refines, pop_refines,
}

abbrev pub line_capacity : ℕ
line_capacity = 4096

-- `Endpoint::write`: the number of bytes that were taken, up to the first one that found no room.
unfoldable pub write_line : RingBuffer → List ℕ → RingBuffer × ℕ
write_line q [] = (q, 0)
write_line q (b ∷ bs) =
    let (q', done) = push line_capacity q b in
    let (q'', n) = write_line q' bs in if done then (q'', suc n) else (q', 0)

-- `Endpoint::read`
unfoldable pub read_line : RingBuffer → RingBuffer × Option ℕ
read_line q = pop line_capacity q

-- What happens on the line: one end writes, or the other end reads.
pub data LineEvent : Type 0 where
  writes : List ℕ → LineEvent
  reads : LineEvent

abbrev byte_of : Option ℕ → List ℕ
byte_of none = []
byte_of (some b) = b ∷ []

-- The line, the bytes that it took, and the bytes that it gave.
unfoldable pub line_step : RingBuffer → LineEvent → RingBuffer × List ℕ × List ℕ
line_step q (writes bs) = let (q', n) = write_line q bs in (q', take n bs, [])
line_step q reads = let (q', out) = read_line q in (q', [], byte_of out)

unfoldable pub run_line : RingBuffer → List LineEvent → RingBuffer × List ℕ × List ℕ
run_line q [] = (q, [], [])
run_line q (e ∷ es) =
    let (q', sent, got) = line_step q e in
    let (q'', sents, gots) = run_line q' es in (q'', sent ++ sents, got ++ gots)

unfoldable pub held : RingBuffer → List ℕ
held q = contents line_capacity q

-- A byte is put last, or there is no room.
push_cases :
    (q : RingBuffer) (b : ℕ)
    → IsValid line_capacity q
    → (let (q', done) = push line_capacity q b in
        (done ≡ true) × (held q' ≡ held q ++ b ∷ []) × (length (held q) < line_capacity)
        ⊎ (done ≡ false) × (held q' ≡ held q) × (line_capacity ≤ length (held q)))
unfolding held enqueue
push_cases q b v = elim (Bool-cases (ltb (length (held q)) line_capacity)) [
  | inl e ↦
      let same = push_refines line_capacity b v ∙ rw e refl in
      inl (ap (λ r. r.1) same, ap (λ r. r.0) same, ltb→lt (length (held q)) line_capacity e)
  | inr e ↦
      let same = push_refines line_capacity b v ∙ rw e refl in
      inr (ap (λ r. r.1) same, ap (λ r. r.0) same, ltb→ge (length (held q)) line_capacity e)
]

write_line-IsValid :
    (q : RingBuffer) (bs : List ℕ)
    → IsValid line_capacity q
    → IsValid line_capacity (write_line q bs).0
unfolding write_line
write_line-IsValid q [] v = v
write_line-IsValid q (b ∷ bs) v =
    let pushed = push-IsValid line_capacity b v in
    elim (Bool-cases (push line_capacity q b).1) [
      | inl e ↦ rw e (write_line-IsValid (push line_capacity q b).0 bs pushed)
      | inr e ↦ rw e pushed
    ]

-- A write takes as many bytes as there is room for, in order.
pub write_line_refines :
    (q : RingBuffer) (bs : List ℕ)
    → IsValid line_capacity q
    → (let (q', n) = write_line q bs in
        (held q' ≡ held q ++ take n bs) × (n ≡ min (length bs) (line_capacity - length (held q))))
unfolding write_line
write_line_refines q [] v = (sym (append-nil (held q)), omega arith)
write_line_refines q (b ∷ bs) v =
    let q' = (push line_capacity q b).0 in
    elim (push_cases q b v) [
      | inl (e, same, room) ↦
          let (more, count) = write_line_refines q' bs (push-IsValid line_capacity b v) in
          let longer : length (held q') ≡ length (held q) + 1 =
            ap length same ∙ length-append (held q) (b ∷ []) in
          rw e (
            more
                ∙ ap (λ h. h ++ take (write_line q' bs).1 bs) same
                ∙ append_assoc (held q) (b ∷ []) (take (write_line q' bs).1 bs),
            omega (arith, count, longer, room),
          )
      | inr (e, same, full) ↦ rw e (same ∙ sym (append-nil (held q)), omega (arith, full))
    ]

line_step-IsValid :
    (q : RingBuffer) (e : LineEvent)
    → IsValid line_capacity q
    → IsValid line_capacity (line_step q e).0
unfolding line_step read_line
line_step-IsValid q (writes bs) v = write_line-IsValid q bs v
line_step-IsValid q reads v = pop-IsValid line_capacity v

dequeue_bytes : (h : List ℕ) → h ≡ byte_of (dequeue h).1 ++ (dequeue h).0
unfolding dequeue
dequeue_bytes [] = refl
dequeue_bytes (b ∷ h) = refl

line_step_fifo :
    (q : RingBuffer) (e : LineEvent)
    → IsValid line_capacity q
    → (let (q', sent, got) = line_step q e in held q ++ sent ≡ got ++ held q')
unfolding line_step read_line held
line_step_fifo q (writes bs) v = sym (write_line_refines q bs v).0
line_step_fifo q reads v =
    append-nil (held q)
    ∙ dequeue_bytes (held q)
    ∙ ap (λ r. byte_of r.1 ++ r.0) (sym (pop_refines line_capacity v))

-- However writes and reads are mixed on a valid line: what it held and what it took, one behind the
-- other, is what it gave and what it then holds. No byte is lost, invented, doubled or overtaken.
pub run_line_fifo :
    (es : List LineEvent) (q : RingBuffer)
    → IsValid line_capacity q
    → (let (q', sent, got) = run_line q es in held q ++ sent ≡ got ++ held q')
unfolding run_line
run_line_fifo [] q v = append-nil (held q)
run_line_fifo (e ∷ es) q v =
    let (q', sent, got) = line_step q e in
    let (q'', sents, gots) = run_line q' es in
    sym (append_assoc (held q) sent sents)
    ∙ ap (λ h. h ++ sents) (line_step_fifo q e v)
    ∙ append_assoc got (held q') sents
    ∙ ap (λ h. got ++ h) (run_line_fifo es q' (line_step-IsValid q e v))
    ∙ sym (append_assoc got gots (held q''))
