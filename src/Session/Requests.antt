-- ===== src/Session/Requests.antt =====
-- The requests of a peer in session/mod.rs: admission, the answer, and the close message.
use openlv_rs.Prelude.{
  ℕ, ◌+◌, ◌≡◌, refl, Bool, true, List, [], ◌∷◌, none, arith, inl, inr, Bool-cases, leb, ◌∙◌,
}
use openlv_rs.Text.{Text}
use openlv_rs.Errors.{OpenLvError, Result, ok, err, panic, Result-cases}
use openlv_rs.Control.{SessionControl, spawn, admit_handler, drop_permit, max_active_handlers}
use openlv_rs.Stateful.{continue_with-keeps}
use openlv_rs.Transport.Message.{SessionMessage, close, ack, reply}
use openlv_rs.Transport.Webrtc.{Rtc, TransportState}
use openlv_rs.Session.{
  Session, SessionState, SessionPlatform, clear_error, set_transport_error, set_status,
  send_response, with_control, admitted, dispatch_request, handle_message, on_transport_state,
  seal_session, on_transport, send_session_message, release, send_reply, handle_remote_request,
}

drop_permit-count :
    (c : SessionControl) (n : ℕ) → c.active_handlers ≡ n + 1 → (drop_permit c).1.active_handlers ≡ n
unfolding drop_permit
drop_permit-count c n h = ground arith

module _ {V P D C : Type 0} where
  dispatch_request-counts :
      (subscribed : Bool) (message_id : Text) (payload : V) (s : Session V P D C)
      → ((dispatch_request subscribed message_id payload s).0 ≡ ok tt
          → (dispatch_request subscribed message_id payload s).1.control.active_handlers
            ≡ s.control.active_handlers + 1)
        × ((e : OpenLvError)
            → (dispatch_request subscribed message_id payload s).0 ≡ err e
            → (dispatch_request subscribed message_id payload s).1.control ≡ s.control)
  unfolding dispatch_request admitted with_control admit_handler spawn
  dispatch_request-counts subscribed message_id payload s = elim (Bool-cases s.control.closed) [
    | inl c ↦ rw c (λ h. cc, λ e h. refl)
    | inr c ↦ elim (Bool-cases (leb max_active_handlers s.control.active_handlers)) [
      | inl f ↦ rw (c, f) (λ h. cc, λ e h. refl)
      | inr f ↦ rw (c, f) (λ h. refl, λ e h. cc)
    ]
  ]

  module _ {S : Type 0} (rtc : Rtc P D S C) (p : SessionPlatform V) where
    seal_session-control :
        (plaintext : Text) (s : Session V P D C)
        → (seal_session rtc p plaintext s).1.control ≡ s.control
    unfolding seal_session
    seal_session-control plaintext s = ground arith

    pub send_session_message-control :
        (m : SessionMessage V) (s : Session V P D C)
        → (send_session_message rtc p m s).1.control ≡ s.control
    unfolding send_session_message on_transport
    send_session_message-control m s = elim (Result-cases (p.to_json m)) [
      | inr (inl (x, e)) ↦ rw e refl
      | inr (inr e) ↦ rw e refl
      | inl (t, e) ↦ rw e (
          continue_with-keeps (λ s'. s'.control ≡ s.control) (seal_session rtc p t s) _
            (seal_session-control t s) λ sealed done. seal_session-control t s)
    ]

    send_reply-control :
        (r : Result OpenLvError (SessionMessage V)) (s : Session V P D C)
        → (send_reply rtc p r s).control ≡ s.control
    unfolding send_reply
    send_reply-control (ok m) s = send_session_message-control m s
    send_reply-control (err e) s = refl
    send_reply-control panic s = refl

    -- A request of the peer takes a permit: it is held when the handler is called and still when its
    -- answer was sent, whatever the handler answers and also where acknowledgement and answer cannot
    -- be sent, and at the end the number of active handlers is the one from before. A refused request
    -- leaves the control as it was.
    pub request_returns_permit :
        (subscribed : Bool) (message_id : Text) (payload : V)
        (on_message : V → Result OpenLvError V) (s : Session V P D C)
        → let handled =
            handle_remote_request rtc p on_message message_id payload
              (dispatch_request subscribed message_id payload s).1 in
          ((dispatch_request subscribed message_id payload s).0 ≡ ok tt
            → (handled.acknowledged.control.active_handlers ≡ s.control.active_handlers + 1)
              × (handled.answered.control.active_handlers ≡ s.control.active_handlers + 1)
              × (handled.finished.control.active_handlers ≡ s.control.active_handlers))
          × ((e : OpenLvError)
              → (dispatch_request subscribed message_id payload s).0 ≡ err e
              → (dispatch_request subscribed message_id payload s).1.control ≡ s.control)
    unfolding handle_remote_request release
    request_returns_permit subscribed message_id payload on_message s =
        let counted = dispatch_request-counts subscribed message_id payload s in
        let s' = (dispatch_request subscribed message_id payload s).1 in
        let acked = send_session_message-control (ack message_id) s' in
        let kept =
          send_reply-control (reply message_id (on_message payload))
            (send_session_message rtc p (ack message_id) s').1
          ∙ acked in
        (
          λ h. (
            rw acked (counted.0 h),
            rw kept (counted.0 h),
            rw kept (drop_permit-count s'.control s.control.active_handlers (counted.0 h)),
          ),
          counted.1,
        )

  pub later_states : List TransportState → Session V P D C → Session V P D C
  later_states [] s = s
  later_states (t ∷ ts) s = later_states ts (on_transport_state t s)

  on_transport_state-quiet :
      (t : TransportState) (s : Session V P D C)
      → s.error ≡ none
      → s.peer_closed ≡ true
      → ((on_transport_state t s).error ≡ none) × ((on_transport_state t s).peer_closed ≡ true)
  unfolding on_transport_state set_status set_transport_error
  on_transport_state-quiet TransportState.connected s e c = (e, c)
  on_transport_state-quiet TransportState.error s e c = ground arith
  on_transport_state-quiet t s e c = (e, c)

  later_states-quiet :
      (ts : List TransportState) (s : Session V P D C)
      → s.error ≡ none
      → s.peer_closed ≡ true
      → (later_states ts s).error ≡ none
  unfolding later_states
  later_states-quiet [] s e c = e
  later_states-quiet (t ∷ ts) s e c =
      let (e', c') = on_transport_state-quiet t s e c in
      later_states-quiet ts (on_transport_state t s) e' c'

  -- After the peer's close message the waiting requests are told, the session is disconnected, and
  -- no later state of the transport is reported as an error.
  pub close_is_graceful :
      (subscribed : Bool) (s : Session V P D C) (later : List TransportState)
      → ((handle_message subscribed close s).1.status ≡ SessionState.disconnected)
        × ((handle_message subscribed close s).1.responses ≡ close ∷ s.responses)
        × ((later_states later (handle_message subscribed close s).1).error ≡ none)
  unfolding handle_message set_status send_response clear_error
  close_is_graceful subscribed s later = (refl, refl, later_states-quiet later _ refl refl)
