-- ===== src/Programs/SafeStop/Pending.antt =====
-- A stop that is not complete is still active, with its start.
use agentic_engineering_trai.Base.{
  ℕ, ◌≡◌, refl, ◌∙◌, true, false, Option, none, some, arith, inl, inr, Bool-cases, ◌==◌,
}
use agentic_engineering_trai.Protocol.Wire.{Frame}
use agentic_engineering_trai.Protocol.Wire
use agentic_engineering_trai.App.McuClient.{McuClient}
use agentic_engineering_trai.App.Cooking.Controller.{is_response}
use agentic_engineering_trai.Programs.SafeStop.{
  SafeStop, StopPhase, idle, heater, motor, is_active, note_phase, note_response, send_stop,
  forget_failure, service,
}
use agentic_engineering_trai.Programs.SafeStop.Order.{send_stop-phase, forget_failure-phase}

-- Active, and begun at `started`.
pub record IsPending (started : ℕ) (s : SafeStop) : Type 0 where
  pub active : is_active s ≡ true
  pub begun : s.started_ms ≡ started

send_stop-started :
    (s : SafeStop) (c : McuClient) (now : ℕ) → (send_stop s c now).0.started_ms ≡ s.started_ms
unfolding send_stop
send_stop-started s c now = ground arith

forget_failure-started :
    (s : SafeStop) (c : McuClient) → (forget_failure s c).0.started_ms ≡ s.started_ms
forget_failure-started s c = ground arith

note_phase-IsPending :
    (p : StopPhase) (s : SafeStop) (id started : ℕ)
    → s.phase ≡ p
    → (note_phase p s id).1 ≡ false
    → IsPending started s
    → IsPending started (note_phase p s id).0
note_phase-IsPending idle s id started h e v = v
note_phase-IsPending heater s id started h e v = elim (Bool-cases (id == Wire.heater_off)) [
  | inl b ↦ rw b (record { active = refl; begun = v.begun })
  | inr b ↦ rw b v
]
note_phase-IsPending motor s id started h e v = elim (Bool-cases (id == Wire.motor_stop)) [
  | inl b ↦ absurd (ground (arith, b, e))
  | inr b ↦ rw b v
]

note_response-IsPending :
    (s : SafeStop) (r : Option Frame) (started : ℕ)
    → (note_response s r).1 ≡ false
    → IsPending started s
    → IsPending started (note_response s r).0
unfolding note_response
note_response-IsPending s none started e v = v
note_response-IsPending s (some r) started e v = elim (Bool-cases (is_response r.type)) [
  | inl b ↦ rw b (note_phase-IsPending s.phase s r.msg_id started refl (rw b at e) v)
  | inr b ↦ rw b v
]

-- A call that does not complete the stop leaves it pending, and `service` sends on.
pub service-IsPending :
    (s : SafeStop) (c : McuClient) (now : ℕ) (r : Option Frame) (started : ℕ)
    → (service s c now r).2 ≡ false
    → IsPending started s
    → IsPending started (service s c now r).0
unfolding service
service-IsPending s c now r started e v =
    let (s', complete) = note_response s r in
    let (s'', c') = forget_failure s' c in
    elim (Bool-cases complete) [
      | inl b ↦ absurd (ground (arith, b, e))
      | inr b ↦
          let w : IsPending started s' = note_response-IsPending s r started b v in
          let same : (send_stop s'' c' now).0.phase ≡ s'.phase =
            send_stop-phase s'' c' now ∙ forget_failure-phase s' c in
          rw b record {
            active = rw same w.active;
            begun = send_stop-started s'' c' now ∙ forget_failure-started s' c ∙ w.begun;
          }
    ]
