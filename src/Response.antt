-- ===== src/Response.antt =====
-- crates/openlv/src/session/response/mod.rs: waiting for the answer to a request. One round of the
-- loop reads the clock, awaits the channel until the deadline, and may read the clock once more:
-- the rounds are a list, given from outside.
pub mod Deadlines
pub mod Timely
mod Tests
use openlv_rs.Prelude.{
  ℕ, ◌+◌, Bool, true, false, not, ◌&&◌, List, [], ◌∷◌, Option, none, some, leb, if◌then◌else◌,
}
use openlv_rs.Text.{Text, text, bytes_eq}
use openlv_rs.Errors.{
  OpenLvError, request_timeout, request_failed, session_closed, response_channel_closed,
  invalid_request_timeout, Result, ok, err, panic,
}
use openlv_rs.Transport.Message.{SessionMessage, request, response, ack, failed, close, unknown}

-- What `timeout_at(deadline, receiver.recv())` gives.
pub data Received (V : Type 0) : Type 0 where
  message : SessionMessage V → Received V
  channel_error : Received V
  elapsed : Received V

-- Times are milliseconds since some start; `later` is the clock after the receipt.
pub record Round (V : Type 0) : Type 0 where
  pub now : ℕ
  pub received : Received V
  pub later : ℕ

-- The outcome of a round: the loop returns, or goes on with a deadline and whether the
-- acknowledgement came.
pub data Next (V : Type 0) : Type 0 where
  returned : Result OpenLvError V → Next V
  waiting : ℕ → Bool → Next V

abbrev pub timeout_reason : Bool → Text
timeout_reason ack_received =
    if ack_received
    then text "no response after acknowledgement"
    else text "remote peer did not acknowledge"

-- `Instant::now().checked_add(…)`, where the clock can hold times up to `latest`.
abbrev pub deadline_after : ℕ → ℕ → ℕ → Result OpenLvError ℕ
deadline_after latest now milliseconds =
    if leb (now + milliseconds) latest then ok (now + milliseconds) else err invalid_request_timeout

abbrev pub extended : {V : Type 0} → Result OpenLvError ℕ → Next V
extended (ok deadline) = waiting deadline true
extended (err e) = returned (err e)
extended panic = returned panic

module _ {V : Type 0} (latest : ℕ) (message_id : Text) (response_timeout_ms : ℕ) where
  -- The `match`, behind the check of the deadline.
  on_received : ℕ → Bool → ℕ → Received V → Next V
  on_received deadline acked later (message (ack id)) =
      if bytes_eq id message_id && not acked
      then extended (deadline_after latest later response_timeout_ms)
      else waiting deadline acked
  on_received deadline acked later (message (response id payload)) =
      if bytes_eq id message_id then returned (ok payload) else waiting deadline acked
  on_received deadline acked later (message (failed id)) =
      if bytes_eq id message_id then returned (err request_failed) else waiting deadline acked
  on_received deadline acked later (message close) = returned (err session_closed)
  on_received deadline acked later (message (request id payload)) = waiting deadline acked
  on_received deadline acked later (message unknown) = waiting deadline acked
  on_received deadline acked later channel_error = returned (err response_channel_closed)
  on_received deadline acked later elapsed = returned (err (request_timeout (timeout_reason acked)))

  round : ℕ → Bool → Round V → Next V
  round deadline acked r =
      if leb deadline r.now
      then returned (err (request_timeout (timeout_reason acked)))
      else on_received deadline acked r.later r.received

  -- `none`: the rounds are over and the loop still waits.
  pub wait_loop : ℕ → Bool → List (Round V) → Option (Result OpenLvError V)
  wait_loop deadline acked [] = none
  wait_loop deadline acked (r ∷ rounds) = elim (round deadline acked r) [
    | returned result ↦ some result
    | waiting deadline' acked' ↦ wait_loop deadline' acked' rounds
  ]

  start_loop : Result OpenLvError ℕ → List (Round V) → Option (Result OpenLvError V)
  start_loop (ok deadline) rounds = wait_loop deadline false rounds
  start_loop (err e) rounds = some (err e)
  start_loop panic rounds = some panic

  unfoldable pub receive_response : ℕ → ℕ → List (Round V) → Option (Result OpenLvError V)
  unfolding start_loop wait_loop round on_received
  receive_response ack_timeout_ms started rounds =
      start_loop (deadline_after latest started ack_timeout_ms) rounds
