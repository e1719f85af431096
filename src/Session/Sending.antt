-- ===== src/Session/Sending.antt =====
-- The sending of a request in session/mod.rs: `send_with_timeouts` and the operation that it runs.
pub mod Answers
pub mod Exchange
mod Tests
use openlv_rs.Prelude.{ℕ, Bool, true, false, not, List, [], ◌∷◌, Option, none, some, if◌then◌else◌}
use openlv_rs.Text.{Text, text}
use openlv_rs.Errors.{OpenLvError, session, Result, ok, err, panic}
use openlv_rs.Layer.State.{is_encrypted}
use openlv_rs.Control.{SessionControl, spawn}
use openlv_rs.Transport.Message.{request}
use openlv_rs.Transport.Webrtc.{Rtc}
use openlv_rs.Response.{Round, receive_response}
use openlv_rs.Session.{Session, SessionPlatform, send_session_message}

-- What is fixed for one request: its identifier, the two timeouts, the latest time that the clock
-- can hold, and the time after the request was sent.
pub record RequestTimes : Type 0 where
  pub message_id : Text
  pub ack_timeout_ms : ℕ
  pub response_timeout_ms : ℕ
  pub latest : ℕ
  pub started : ℕ

module _ {V P D S C : Type 0} (rtc : Rtc P D S C) (p : SessionPlatform V) (t : RequestTimes) where
  await_response :
      List (Round V)
      → Result OpenLvError (Unit {0}) × Session V P D C
      → Option (Result OpenLvError V) × Session V P D C
  await_response rounds (ok done, s) = (
    receive_response t.latest t.message_id t.response_timeout_ms t.ack_timeout_ms t.started rounds,
    s,
  )
  await_response rounds (err e, s) = (some (err e), s)
  await_response rounds (panic, s) = (some panic, s)

  -- The operation: `none` while it still waits for the answer.
  send_request :
      List (Round V) → V → Session V P D C → Option (Result OpenLvError V) × Session V P D C
  unfolding await_response
  send_request rounds message s =
      if not (is_encrypted s.signal_state)
      then (some (err (session (text "session not ready"))), s)
      else await_response rounds (send_session_message rtc p (request t.message_id message) s)

  -- `run_operation` around it: a closed session refuses.
  run_request :
      Result OpenLvError ℕ × SessionControl
      → List (Round V)
      → V
      → Session V P D C
      → Option (Result OpenLvError V) × Session V P D C
  run_request (ok id, control) rounds message s =
      send_request rounds message (record s { control = control })
  run_request (err e, control) rounds message s = (some (err e), record s { control = control })
  run_request (panic, control) rounds message s = (some panic, record s { control = control })

  unfoldable pub send_with_timeouts :
      List (Round V) → V → Session V P D C → Option (Result OpenLvError V) × Session V P D C
  unfolding run_request send_request await_response
  send_with_timeouts rounds message s = run_request (spawn s.control) rounds message s
