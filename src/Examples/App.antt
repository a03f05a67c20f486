-- ===== src/Examples/App.antt =====
-- The application processor on concrete data.
use agentic_engineering_trai.Base.{◌≡◌, refl, [], ◌∷◌, true, false, some, arith}
use agentic_engineering_trai.Common.Status.{ok, timeout}
use agentic_engineering_trai.Protocol.Wire.{Frame, empty_frame, response, motor_stop}
use agentic_engineering_trai.App.OtaUpdater.{OtaUpdater, new_updater, verifying, begin, steps}
use agentic_engineering_trai.App.OtaUpdater.Verify.{verdict, begin-steps-verdict}
use agentic_engineering_trai.App.McuClient.{McuClient, new_client, pump, route, take_answer}
use agentic_engineering_trai.App.McuClient.Deadline.{pump_deadline}
use agentic_engineering_trai.App.McuClient.Answers.{IsAnswer, route-IsAnswer}

begin-steps-verdict_example :
    let (u', status) = begin new_updater (some (1 ∷ 2 ∷ 3 ∷ [])) 3 0xADAD in
    (status ≡ ok) × ((steps 1 u').state ≡ verdict (1 ∷ 2 ∷ 3 ∷ []) 3 0xADAD)
begin-steps-verdict_example =
    begin-steps-verdict new_updater (1 ∷ 2 ∷ 3 ∷ []) 3 0xADAD 1 refl (omega arith) (omega arith)

abbrev started : OtaUpdater
started = record new_updater { state = verifying; image = 1 ∷ 2 ∷ 3 ∷ []; image_len = 3 }

-- A client that has waited for the answer to a request since 100 ms.
abbrev waiting_client : McuClient
waiting_client = record (new_client (record { rx = 0xA5 ∷ []; accepts = []; wire = [] })) {
  waiting = true;
  request_started_ms = 100;
  sent_at_ms = 100;
  pending_msg_id = motor_stop;
  pending_seq = 7;
}

pump_deadline_example :
    (c' : McuClient) × (pump waiting_client 260 ≡ some c')
    × (c'.waiting ≡ false)
    × (c'.last_command_status ≡ timeout)
pump_deadline_example = pump_deadline waiting_client 260 refl refl

abbrev answer : Frame
answer = record empty_frame { type = response; msg_id = motor_stop; seq = 7 }

answered : (route waiting_client answer 130).response_ready ≡ true
unfolding route take_answer
answered = refl

route-IsAnswer_example :
    IsAnswer waiting_client answer
    × ((route waiting_client answer 130).response_frame ≡ answer)
    × ((route waiting_client answer 130).waiting ≡ false)
route-IsAnswer_example = route-IsAnswer waiting_client answer 130 refl answered
