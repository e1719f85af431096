-- ===== src/Response/Timely.antt =====
-- An answer in time, for response/mod.rs.
use openlv_rs.Prelude.{ℕ, ◌+◌, ◌≤◌, ◌<◌, ◌≡◌, Bool, true, false, [], ◌∷◌, some, arith, leb}
use openlv_rs.Text.{Text}
use openlv_rs.Text.Laws.{bytes_eq_refl}
use openlv_rs.Errors.{OpenLvError, request_failed, Result, ok, err, panic, ok-injective}
use openlv_rs.Transport.Message.{SessionMessage, ack, reply}
use openlv_rs.Response.{
  message, Round, returned, waiting, on_received, round, wait_loop, start_loop, receive_response,
}

-- What a handler's outcome is for the side that asked.
abbrev pub answered : {V : Type 0} → Result OpenLvError V → Result OpenLvError V
answered (ok v) = ok v
answered (err e) = err request_failed
answered panic = panic

-- The acknowledgement and the answer come before their deadlines, which the clock can hold.
pub record InTime {V : Type 0} (latest : ℕ) (message_id : Text) (ack_ms response_ms started : ℕ)
    (answer : SessionMessage V) (first second : Round V) : Type 0 where
  pub acked : first.received ≡ message (ack message_id)
  pub replied : second.received ≡ message answer
  pub ack_clock : started + ack_ms ≤ latest
  pub ack_before : first.now < started + ack_ms
  pub answer_clock : first.later + response_ms ≤ latest
  pub answer_before : second.now < first.later + response_ms

le→leb : (a b : ℕ) → a ≤ b → leb a b ≡ true
le→leb a b h = ground arith

lt→leb : (a b : ℕ) → b < a → leb a b ≡ false
lt→leb a b h = ground arith

module _ {V : Type 0} (latest : ℕ) (message_id : Text) (response_ms : ℕ) where
  acked_round :
      (deadline : ℕ) (r : Round V)
      → r.now < deadline
      → r.received ≡ message (ack message_id)
      → r.later + response_ms ≤ latest
      → round latest message_id response_ms deadline false r ≡ waiting (r.later + response_ms) true
  unfolding round on_received
  acked_round deadline r before acked clock = simp (
    lt→leb deadline r.now before,
    acked,
    on_received,
    bytes_eq_refl message_id,
    le→leb (r.later + response_ms) latest clock,
  )

  answered_round :
      (deadline : ℕ) (acked : Bool) (r : Round V) (outcome : Result OpenLvError V)
      (answer : SessionMessage V)
      → r.now < deadline
      → reply message_id outcome ≡ ok answer
      → r.received ≡ message answer
      → round latest message_id response_ms deadline acked r ≡ returned (answered outcome)
  unfolding round on_received reply
  answered_round deadline acked r (ok v) answer before e replied = simp (
    lt→leb deadline r.now before,
    replied,
    ← ok-injective e,
    on_received,
    bytes_eq_refl message_id,
  )
  answered_round deadline acked r (err x) answer before e replied = simp (
    lt→leb deadline r.now before,
    replied,
    ← ok-injective e,
    on_received,
    bytes_eq_refl message_id,
  )
  answered_round deadline acked r panic answer before e replied = cc

  -- The wait gives what the handler answered, where it was acknowledged and answered in time.
  pub receive_response-InTime :
      (ack_ms started : ℕ) (outcome : Result OpenLvError V) (answer : SessionMessage V)
      (first second : Round V)
      → reply message_id outcome ≡ ok answer
      → InTime latest message_id ack_ms response_ms started answer first second
      → receive_response latest message_id response_ms ack_ms started (first ∷ (second ∷ []))
        ≡ some (answered outcome)
  unfolding receive_response start_loop wait_loop
  receive_response-InTime ack_ms started outcome answer first second e i = simp (
    le→leb (started + ack_ms) latest i.ack_clock,
    start_loop,
    wait_loop,
    acked_round (started + ack_ms) first i.ack_before i.acked i.answer_clock,
    answered_round (first.later + response_ms) true second outcome answer i.answer_before e
        i.replied,
  )
