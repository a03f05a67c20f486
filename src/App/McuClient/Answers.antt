-- ===== src/App/McuClient/Answers.antt =====
-- Which frame answers a request.
use agentic_engineering_trai.Base.{ℕ, ◌≡◌, true, false, arith}
use agentic_engineering_trai.Protocol.Wire.{Frame, FrameType, request, response, telemetry, nack}
use agentic_engineering_trai.App.McuClient.{McuClient, take_answer, route_type, route}

-- The frame answers the request that is waited for.
pub record IsAnswer (c : McuClient) (f : Frame) : Type 0 where
  pub waited : c.waiting ≡ true
  pub same_id : f.msg_id ≡ c.pending_msg_id
  pub same_seq : f.seq ≡ c.pending_seq

route_type-IsAnswer :
    (t : FrameType) (c : McuClient) (f : Frame) (now : ℕ)
    → c.response_ready ≡ false
    → (route_type t c f now).response_ready ≡ true
    → IsAnswer c f
      × ((route_type t c f now).response_frame ≡ f)
      × ((route_type t c f now).waiting ≡ false)
unfolding take_answer
route_type-IsAnswer telemetry c f now h e = ground arith
route_type-IsAnswer response c f now h e = ground arith
route_type-IsAnswer nack c f now h e = ground arith
route_type-IsAnswer request c f now h e = ground arith

-- A frame becomes the response of the client only if a request is waited for and the frame has its
-- message id and sequence number; it ends the wait.
pub route-IsAnswer :
    (c : McuClient) (f : Frame) (now : ℕ)
    → c.response_ready ≡ false
    → (route c f now).response_ready ≡ true
    → IsAnswer c f × ((route c f now).response_frame ≡ f) × ((route c f now).waiting ≡ false)
unfolding route
route-IsAnswer c f now h e = route_type-IsAnswer f.type c f now h e
