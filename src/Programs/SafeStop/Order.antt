-- ===== src/Programs/SafeStop/Order.antt =====
-- A stop is complete only behind both acknowledgements, in their order.
use agentic_engineering_trai.Base.{
  ℕ, ◌≡◌, ◌⊎◌, refl, ◌∙◌, List, [], ◌∷◌, true, false, Option, none, some, arith, inl, inr, ==→eq,
  Bool-cases, ◌==◌,
}
use agentic_engineering_trai.Protocol.Wire.{Frame}
use agentic_engineering_trai.Protocol.Wire
use agentic_engineering_trai.App.McuClient.{McuClient}
use agentic_engineering_trai.App.Cooking.Controller.{is_response}
use agentic_engineering_trai.Programs.SafeStop.{
  SafeStop, heater, motor, begin_stop, note_response, send_stop, forget_failure, service,
}

-- The safety MCU's response to a request.
pub record Acknowledges (id : ℕ) (r : Option Frame) : Type 0 where
  pub frame : Frame
  pub received : r ≡ some frame
  pub answers : is_response frame.type ≡ true
  pub same : frame.msg_id ≡ id

-- Calls of `service` up to the one that completes the stop, by the responses they were given.
pub data Completes : SafeStop → List (Option Frame) → Type 0 where
  finish :
      {s : SafeStop} (c : McuClient) (now : ℕ) {r : Option Frame}
      → (service s c now r).2 ≡ true
      → Completes s (r ∷ [])
  further :
      {s : SafeStop} (c : McuClient) (now : ℕ) {r : Option Frame} {rs : List (Option Frame)}
      → (service s c now r).2 ≡ false
      → Completes (service s c now r).0 rs
      → Completes s (r ∷ rs)

-- The last response acknowledges the request.
abbrev pub EndsWith : ℕ → List (Option Frame) → Type 0
EndsWith id [] = ⊥
EndsWith id (r ∷ []) = Acknowledges id r
EndsWith id (r ∷ (s ∷ rs)) = EndsWith id (s ∷ rs)

-- One response acknowledges the first request, and the last one behind it the second.
pub data InOrder (first second : ℕ) : List (Option Frame) → Type 0 where
  here :
      {r : Option Frame} {rs : List (Option Frame)}
      → Acknowledges first r
      → EndsWith second rs
      → InOrder first second (r ∷ rs)
  later :
      {r : Option Frame} {rs : List (Option Frame)}
      → InOrder first second rs
      → InOrder first second (r ∷ rs)

pub send_stop-phase :
    (s : SafeStop) (c : McuClient) (now : ℕ) → (send_stop s c now).0.phase ≡ s.phase
unfolding send_stop
send_stop-phase s c now = ground arith

pub forget_failure-phase : (s : SafeStop) (c : McuClient) → (forget_failure s c).0.phase ≡ s.phase
forget_failure-phase s c = ground arith

service-phase :
    (s : SafeStop) (c : McuClient) (now : ℕ) (r : Option Frame)
    → (service s c now r).0.phase ≡ (note_response s r).0.phase
unfolding service
service-phase s c now r =
    let (s', complete) = note_response s r in
    let (s'', c') = forget_failure s' c in
    let kept : (send_stop s'' c' now).0.phase ≡ s'.phase =
      send_stop-phase s'' c' now ∙ forget_failure-phase s' c in
    elim (Bool-cases complete) [ inl e ↦ rw e refl | inr e ↦ rw e kept ]

service_complete :
    (s : SafeStop) (c : McuClient) (now : ℕ) (r : Option Frame)
    → (service s c now r).2 ≡ (note_response s r).1
unfolding service
service_complete s c now r = ground arith

-- What one response does in a phase.
note_heater :
    (s : SafeStop) (r : Option Frame)
    → s.phase ≡ heater
    → ((note_response s r).1 ≡ false)
      × (((note_response s r).0.phase ≡ heater)
          ⊎ (((note_response s r).0.phase ≡ motor) × Acknowledges Wire.heater_off r))
unfolding note_response
note_heater s none h = (refl, inl h)
note_heater s (some r) h = elim (Bool-cases (is_response r.type)) [
  | inl t ↦ elim (Bool-cases (r.msg_id == Wire.heater_off)) [
    | inl e ↦
        rw (t, h, e)
          (
            refl,
            inr (
              refl,
              record {
                frame = r;
                received = refl;
                answers = t;
                same = ==→eq r.msg_id Wire.heater_off e;
              },
            ),
          )
    | inr e ↦ rw (t, h, e) (refl, inl refl)
  ]
  | inr t ↦ rw t (refl, inl h)
]

note_motor :
    (s : SafeStop) (r : Option Frame)
    → s.phase ≡ motor
    → (((note_response s r).1 ≡ false) × ((note_response s r).0.phase ≡ motor))
      ⊎ (((note_response s r).1 ≡ true) × Acknowledges Wire.motor_stop r)
unfolding note_response
note_motor s none h = inl (refl, h)
note_motor s (some r) h = elim (Bool-cases (is_response r.type)) [
  | inl t ↦ elim (Bool-cases (r.msg_id == Wire.motor_stop)) [
    | inl e ↦
        rw (t, h, e)
          (inr (
            refl,
            record {
              frame = r;
              received = refl;
              answers = t;
              same = ==→eq r.msg_id Wire.motor_stop e;
            },
          ))
    | inr e ↦ rw (t, h, e) (inl (refl, refl))
  ]
  | inr t ↦ rw t (inl (refl, h))
]

EndsWith-cons :
    (id : ℕ) (r : Option Frame) (rs : List (Option Frame)) → EndsWith id rs → EndsWith id (r ∷ rs)
EndsWith-cons id r [] h = absurd h
EndsWith-cons id r (t ∷ rs) h = h

Completes-EndsWith :
    {s : SafeStop} {rs : List (Option Frame)}
    → s.phase ≡ motor
    → Completes s rs
    → EndsWith Wire.motor_stop rs
Completes-EndsWith {s} h (finish c now {r} done) = elim (note_motor s r h) [
  | inl (not_yet, same) ↦ absurd (ground (arith, done, not_yet, service_complete s c now r))
  | inr (complete, ack) ↦ ack
]
Completes-EndsWith {s} h (further c now {r} {rs} not_done rest) = elim (note_motor s r h) [
  | inl (not_yet, same) ↦
      EndsWith-cons Wire.motor_stop r rs (Completes-EndsWith (service-phase s c now r ∙ same) rest)
  | inr (complete, ack) ↦ absurd (ground (arith, not_done, complete, service_complete s c now r))
]

Completes-InOrder :
    {s : SafeStop} {rs : List (Option Frame)}
    → s.phase ≡ heater
    → Completes s rs
    → InOrder Wire.heater_off Wire.motor_stop rs
Completes-InOrder {s} h (finish c now {r} done) =
    absurd (ground (arith, done, (note_heater s r h).0, service_complete s c now r))
Completes-InOrder {s} h (further c now {r} {rs} not_done rest) = elim (note_heater s r h).1 [
  | inl same ↦ later (Completes-InOrder (service-phase s c now r ∙ same) rest)
  | inr (next, ack) ↦ here ack (Completes-EndsWith (service-phase s c now r ∙ next) rest)
]

-- A stop that was begun is complete only if the safety MCU has responded to `heater_off` and, after
-- that, to `motor_stop`, the last response that `service` was given; whatever else was received,
-- and whenever.
pub begin_stop-InOrder :
    (started : ℕ) (rs : List (Option Frame))
    → Completes (begin_stop started) rs
    → InOrder Wire.heater_off Wire.motor_stop rs
unfolding begin_stop
begin_stop-InOrder started rs k = Completes-InOrder refl k
