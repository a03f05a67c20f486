-- ===== src/Protocol/Link/Transmit.antt =====
-- The transmit side of a link: no byte of a queued frame is lost, repeated or reordered, however
-- little the UART accepts at a time.
use agentic_engineering_trai.Base.{
  ℕ, ◌+◌, ◌-◌, ◌≤◌, ◌≡◌, ◌≢◌, refl, sym, ap, ap₂, ◌∙◌, inl, inr, List, [], ◌++◌, append_assoc,
  append-nil, arith, ltb, leb, ◌==◌, if◌then◌else◌, length, take, drop, length-take, take_all,
  take_split, drop-drop, Bool-cases, ==→eq, ==→ne,
}
use agentic_engineering_trai.Hal.Uart.{Uart, next_or_zero, later}
use agentic_engineering_trai.Hal.Uart
use agentic_engineering_trai.Protocol.Link.{Link, new_link, tx_capacity, flush_tx}

pub record IsValid (l : Link) : Type 0 where
  pub array : length l.tx_buffer ≡ tx_capacity
  pub in_order : l.tx_offset ≤ l.tx_size
  pub in_array : l.tx_size ≤ tx_capacity

pub new_link-IsValid : IsValid new_link
new_link-IsValid = ground arith

-- The bytes queued and not yet accepted by the UART.
abbrev pub pending : Link → List ℕ
pending l = take (l.tx_size - l.tx_offset) (drop l.tx_offset l.tx_buffer)

-- All bytes handed to the link so far: on the wire, or queued.
abbrev pub handed : Link → Uart → List ℕ
handed l u = u.wire ++ pending l

-- What the UART accepts of the queue.
split_pending :
    (n : ℕ) (l : Link)
    → n ≤ l.tx_size - l.tx_offset
    → l.tx_offset ≤ l.tx_size
    → take n (pending l) ++ pending (record l { tx_offset = l.tx_offset + n }) ≡ pending l
split_pending n l h o =
    ap (λ k. take n (pending l) ++ k)
      (ap₂ take {y = l.tx_size - l.tx_offset - n} (omega arith)
        (sym (drop-drop n l.tx_offset l.tx_buffer)))
    ∙ take_split n (l.tx_size - l.tx_offset) (drop l.tx_offset l.tx_buffer) h

-- The number of bytes that leave the queue.
abbrev taken : Link → Uart → ℕ
taken l u =
    let n = next_or_zero u.accepts in
    if ltb (l.tx_size - l.tx_offset) n then l.tx_size - l.tx_offset else n

length-pending-le : (l : Link) → length (pending l) ≤ l.tx_size - l.tx_offset
length-pending-le l =
    omega (arith, length-take (l.tx_size - l.tx_offset) (drop l.tx_offset l.tx_buffer))

on_wire :
    (l : Link) (u : Uart) → take (next_or_zero u.accepts) (pending l) ≡ take (taken l u) (pending l)
on_wire l u = ground (
  arith,
  take_all (next_or_zero u.accepts) (pending l),
  take_all (l.tx_size - l.tx_offset) (pending l),
  length-pending-le l,
)

module _ {l : Link} (u : Uart) (v : IsValid l) where
  written : Uart
  written = record u {
    accepts = later u.accepts;
    wire = u.wire ++ take (next_or_zero u.accepts) (pending l);
  }

  handed_all :
      l.tx_offset + taken l u ≡ l.tx_size
      → handed (record l { tx_offset = 0; tx_size = 0 }) written ≡ handed l u
  unfolding written
  handed_all e =
      append-nil _
      ∙ ap (λ k. u.wire ++ k)
          (on_wire l u ∙ take_all (taken l u) (pending l) (omega (arith, length-pending-le l)))

  handed_part :
      l.tx_offset + taken l u ≢ l.tx_size
      → handed (record l { tx_offset = l.tx_offset + taken l u }) written ≡ handed l u
  unfolding written
  handed_part e =
      append_assoc u.wire _ _
      ∙ ap (λ k. u.wire ++ k)
          (ap (λ k. k ++ pending (record l { tx_offset = l.tx_offset + taken l u })) (on_wire l u)
            ∙ split_pending (taken l u) l (ground arith) v.in_order)

  -- What a flush leaves: the same bytes in the same order, in a well-formed link.
  pub record Flushed (r : Link × Uart) : Type 0 where
    pub same_bytes : handed r.0 r.1 ≡ handed l u
    pub still_valid : IsValid r.0
    pub emptied : l.tx_size - l.tx_offset ≤ next_or_zero u.accepts → pending r.0 ≡ []
    pub same_rx : r.1.rx ≡ u.rx
    pub same_parser : r.0.parser ≡ l.parser
    pub same_deadline : r.0.frame_deadline_ms ≡ l.frame_deadline_ms

  -- A flush moves bytes from the queue to the wire in order, keeps the link well-formed, and empties
  -- the queue if the UART accepts all of it; the receive side is left alone.
  pub flush_tx-Flushed : Flushed (flush_tx l u)
  unfolding flush_tx Uart.write written
  flush_tx-Flushed = elim (Bool-cases (leb l.tx_size l.tx_offset)) [
    | inl e ↦ rw e (record {
      same_bytes = refl;
      still_valid = v;
      emptied = λ h. ap (λ k. take k (drop l.tx_offset l.tx_buffer)) {y = 0} (ground arith);
      same_rx = refl;
      same_parser = refl;
      same_deadline = refl;
    })
    | inr e ↦ rw e (elim (Bool-cases (l.tx_offset + taken l u == l.tx_size)) [
      | inl f ↦ rw f (record {
        same_bytes = handed_all (==→eq _ _ f);
        still_valid = ground arith;
        emptied = λ h. refl;
        same_rx = refl;
        same_parser = refl;
        same_deadline = refl;
      })
      | inr f ↦ rw f (record {
        same_bytes = handed_part (==→ne _ _ f);
        still_valid = ground arith;
        emptied = λ h. absurd (ground arith);
        same_rx = refl;
        same_parser = refl;
        same_deadline = refl;
      })
    ])
  ]

-- Sending never touches what is to be read.
pub rx-flush_tx : (l : Link) (u : Uart) → (flush_tx l u).1.rx ≡ u.rx
unfolding flush_tx Uart.write
rx-flush_tx l u = ground arith
