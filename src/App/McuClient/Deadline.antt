-- ===== src/App/McuClient/Deadline.antt =====
-- A request of the client ends: by its answer, or by the deadline.
use mathlib.Core.Option.{some-injective}
use agentic_engineering_trai.Base.{
  ℕ, zero, suc, ◌<◌, ◌≡◌, refl, ap, subst, true, false, inl, inr, some, arith, leb, Option-cases,
  length, sub_u32,
}
use agentic_engineering_trai.Common.Status.{Status, timeout}
use agentic_engineering_trai.Hal.Uart.{Uart}
use agentic_engineering_trai.Protocol.Wire.{Frame, FrameType, request, response, telemetry, nack}
use agentic_engineering_trai.Protocol.Link.{Link, poll}
use agentic_engineering_trai.Protocol.Link.Receive.{poll-shorter}
use agentic_engineering_trai.Protocol.Link.Send.{rx-send}
use agentic_engineering_trai.App.McuClient.{
  McuClient, request_deadline_ms, give_up, retry, check_pending, take_answer, route_type, route,
  route_loop, heartbeat, pump,
}

-- What no received frame changes.
route_type-rx :
    (t : FrameType) (c : McuClient) (f : Frame) (now : ℕ)
    → (route_type t c f now).uart.rx ≡ c.uart.rx
unfolding take_answer
route_type-rx telemetry c f now = ground arith
route_type-rx response c f now = ground arith
route_type-rx nack c f now = ground arith
route_type-rx request c f now = refl

route-rx : (c : McuClient) (f : Frame) (now : ℕ) → (route c f now).uart.rx ≡ c.uart.rx
unfolding route
route-rx c f now = route_type-rx f.type c f now

check_pending-rx : (c : McuClient) (now : ℕ) → (check_pending c now).uart.rx ≡ c.uart.rx
unfolding check_pending retry give_up
check_pending-rx c now = ground (
  arith,
  rx-send c.link c.uart request c.next_seq c.pending_msg_id (some c.pending_payload)
      c.pending_payload_len,
)

abbrev polled : McuClient → ℕ → McuClient
polled c now =
    let (link, uart, out) = poll c.link c.uart now in record c { link = link; uart = uart }

-- The receive loop ends when the received bytes are used up.
route_loop_total :
    (fuel : ℕ) (c : McuClient) (now : ℕ)
    → length c.uart.rx < fuel
    → (c' : McuClient) × (route_loop fuel c now ≡ some c')
unfolding route_loop
route_loop_total zero c now h = absurd (omega arith)
route_loop_total (suc fuel) c now h = elim (Option-cases (poll c.link c.uart now).2) [
  | inl e ↦ (polled c now, rw (e, route_loop))
  | inr (f, e) ↦
      let fewer = poll-shorter c.link c.uart now f e in
      rw (e, route_loop)
        (route_loop_total fuel (route (polled c now) f now) now
          (rw (route-rx (polled c now) f now) (omega (arith, fewer))))
]

-- What the loop keeps.
route_loop_inv :
    (P : McuClient → Type 0) (now : ℕ)
    → ((c : McuClient) (l : Link) (u : Uart) → P c → P (record c { link = l; uart = u }))
    → ((c : McuClient) (f : Frame) → P c → P (route c f now))
    → (fuel : ℕ) (c c' : McuClient) → P c
    → route_loop fuel c now ≡ some c'
    → P c'
unfolding route_loop
route_loop_inv P now polls routes zero c c' v e = cc
route_loop_inv P now polls routes (suc fuel) c c' v e =
    elim (Option-cases (poll c.link c.uart now).2) [
      | inl h ↦ subst P (some-injective _ _ (rw (h, route_loop) at e)) (polls c _ _ v)
      | inr (f, h) ↦
          route_loop_inv P now polls routes fuel (route (polled c now) f now) c'
            (routes (polled c now) f (polls c _ _ v)) (rw (h, route_loop) at e)
    ]

-- The request is over, and its status is `s`.
abbrev HasEnded : Status → McuClient → Type 0
HasEnded s c = (c.waiting ≡ false) × (c.last_command_status ≡ s)

route_type-HasEnded :
    (s : Status) (t : FrameType) (c : McuClient) (f : Frame) (now : ℕ)
    → HasEnded s c
    → HasEnded s (route_type t c f now)
unfolding take_answer
route_type-HasEnded s telemetry c f now v = ground arith
route_type-HasEnded s response c f now v = ground arith
route_type-HasEnded s nack c f now v = ground arith
route_type-HasEnded s request c f now v = v

route-HasEnded :
    (s : Status) (c : McuClient) (f : Frame) (now : ℕ) → HasEnded s c → HasEnded s (route c f now)
unfolding route
route-HasEnded s c f now v = route_type-HasEnded s f.type c f now v

heartbeat-HasEnded :
    (s : Status) (c : McuClient) (now : ℕ) → HasEnded s c → HasEnded s (heartbeat c now)
unfolding heartbeat
heartbeat-HasEnded s c now v = ground arith

-- `poll` of the client ends on every input.
pub pump_total : (c : McuClient) (now : ℕ) → (c' : McuClient) × (pump c now ≡ some c')
unfolding pump
pump_total c now =
    let (c', e) =
      route_loop_total (suc (length c.uart.rx)) (check_pending c now) now
        (omega (arith, ap (λ k. length k) (check_pending-rx c now))) in
    (heartbeat c' now, rw e refl)

check_pending_late :
    (c : McuClient) (now : ℕ)
    → c.waiting ≡ true
    → leb request_deadline_ms (sub_u32 now c.request_started_ms) ≡ true
    → HasEnded timeout (check_pending c now)
unfolding check_pending give_up
check_pending_late c now h k = rw (h, k) (refl, refl)

-- Every poll from 150 milliseconds after the start of a request on ends that request with a timeout,
-- whatever is received in it.
pub pump_deadline :
    (c : McuClient) (now : ℕ)
    → c.waiting ≡ true
    → leb request_deadline_ms (sub_u32 now c.request_started_ms) ≡ true
    → (c' : McuClient) × (pump c now ≡ some c')
      × (c'.waiting ≡ false)
      × (c'.last_command_status ≡ timeout)
unfolding pump
pump_deadline c now h k =
    let (c', e) =
      route_loop_total (suc (length c.uart.rx)) (check_pending c now) now
        (omega (arith, ap (λ k. length k) (check_pending-rx c now))) in
    let ended =
      route_loop_inv (HasEnded timeout) now (λ p l u v. v)
        (λ p f v. route-HasEnded timeout p f now v) _ (check_pending c now) c'
        (check_pending_late c now h k) e in
    let (idle, status) = heartbeat-HasEnded timeout c' now ended in
    (heartbeat c' now, rw e refl, idle, status)
