-- ===== src/Session/Sending/Answers.antt =====
-- What an answered request shows of the session.
use openlv_rs.Prelude.{
  ℕ, ◌≡◌, refl, true, false, List, some, arith, inl, inr, Bool-cases, Option-cases,
}
use openlv_rs.Errors.{OpenLvError, Result, ok, err, panic, Result-cases}
use openlv_rs.Encryption.Asymmetric.{EncryptionKey}
use openlv_rs.Layer.State.{SignalState, is_encrypted}
use openlv_rs.Control.{SessionControl, spawn}
use openlv_rs.Transport.Message.{SessionMessage, request}
use openlv_rs.Transport.Webrtc.{Rtc, TransportState}
use openlv_rs.Transport.Webrtc.Channel.{send-ok}
use openlv_rs.Encryption.Asymmetric
use openlv_rs.Response.{Round}
use openlv_rs.Response.Deadlines.{Some, Answers, receive_response-answer}
use openlv_rs.Session.{Session, SessionPlatform, seal_session, on_transport, send_session_message}
use openlv_rs.Session.Sending.{
  RequestTimes, await_response, send_request, run_request, send_with_timeouts,
}

module _ {V P D S C : Type 0} (rtc : Rtc P D S C) (p : SessionPlatform V) (t : RequestTimes) where
  is_encrypted-true : (s : SignalState) → is_encrypted s ≡ true → s ≡ SignalState.encrypted
  is_encrypted-true SignalState.encrypted h = refl
  is_encrypted-true s h = absurd (ground arith)

  -- What is sent to the peer is sealed under its key, and the transport is connected.
  send_session_message-ok :
      (m : SessionMessage V) (s : Session V P D C)
      → (send_session_message rtc p m s).0 ≡ ok tt
      → ((key : EncryptionKey) × (s.relying_key ≡ some key))
        × (s.transport.state ≡ TransportState.connected)
  unfolding send_session_message seal_session on_transport
  send_session_message-ok m s h = elim (Result-cases (p.to_json m)) [
    | inr (inl (x, e)) ↦ absurd (ground arith)
    | inr (inr e) ↦ absurd (ground arith)
    | inl (plain, e) ↦ elim (Option-cases s.relying_key) [
      | inl none_known ↦ absurd (ground arith)
      | inr (key, known) ↦
          elim (Result-cases
            (Asymmetric.encrypt p.crypto s.decryption_key (p.random_nonce s.calls) plain key)) [
              | inr (inl (x, e')) ↦ absurd (ground arith)
              | inr (inr e') ↦ absurd (ground arith)
              | inl (frame, e') ↦ ((key, known), (send-ok rtc frame s.transport (ground arith)).0)
            ]
    ]
  ]

  await_response-answer :
      (rounds : List (Round V)) (r : Result OpenLvError (Unit {0}) × Session V P D C) (v : V)
      → (await_response rtc p t rounds r).0 ≡ some (ok v)
      → (r.0 ≡ ok tt) × Some (Answers t.latest t.message_id t.response_timeout_ms v) rounds
  unfolding await_response
  await_response-answer rounds (ok done, s) v h = (
    refl,
    receive_response-answer t.latest t.message_id t.response_timeout_ms t.ack_timeout_ms t.started
        rounds v h,
  )
  await_response-answer rounds (err e, s) v h = absurd (cc)
  await_response-answer rounds (panic, s) v h = absurd (cc)

  send_request-answer :
      (rounds : List (Round V)) (message v : V) (s : Session V P D C)
      → (send_request rtc p t rounds message s).0 ≡ some (ok v)
      → (s.signal_state ≡ SignalState.encrypted)
        × ((send_session_message rtc p (request t.message_id message) s).0 ≡ ok tt)
        × Some (Answers t.latest t.message_id t.response_timeout_ms v) rounds
  unfolding send_request
  send_request-answer rounds message v s h = elim (Bool-cases (is_encrypted s.signal_state)) [
    | inr e ↦ absurd (ground arith)
    | inl e ↦
        let (sent, answer) =
          await_response-answer rounds (send_session_message rtc p (request t.message_id message) s)
            v (rw (e, send_request) at h) in
        (is_encrypted-true s.signal_state e, sent, answer)
  ]

  run_request-answer :
      (spawned : Result OpenLvError ℕ × SessionControl) (rounds : List (Round V)) (message v : V)
      (s : Session V P D C)
      → (run_request rtc p t spawned rounds message s).0 ≡ some (ok v)
      → ((id : ℕ) × (spawned.0 ≡ ok id))
        × (s.signal_state ≡ SignalState.encrypted)
        × ((key : EncryptionKey) × (s.relying_key ≡ some key))
        × (s.transport.state ≡ TransportState.connected)
        × Some (Answers t.latest t.message_id t.response_timeout_ms v) rounds
  unfolding run_request
  run_request-answer (ok id, control) rounds message v s h =
      let (ready, sent, answer) =
        send_request-answer rounds message v (record s { control = control }) h in
      let (key, connected) =
        send_session_message-ok (request t.message_id message) (record s { control = control })
          sent in
      ((id, refl), ready, key, connected, answer)
  run_request-answer (err e, control) rounds message v s h = absurd (cc)
  run_request-answer (panic, control) rounds message v s h = absurd (cc)

  -- A request is answered with a payload only by a session that is open, has exchanged keys and is
  -- linked, and only if a response with the id of the request carried that payload.
  pub send_with_timeouts-answer :
      (rounds : List (Round V)) (message v : V) (s : Session V P D C)
      → (send_with_timeouts rtc p t rounds message s).0 ≡ some (ok v)
      → (s.control.closed ≡ false)
        × (s.signal_state ≡ SignalState.encrypted)
        × ((key : EncryptionKey) × (s.relying_key ≡ some key))
        × (s.transport.state ≡ TransportState.connected)
        × Some (Answers t.latest t.message_id t.response_timeout_ms v) rounds
  unfolding send_with_timeouts spawn
  send_with_timeouts-answer rounds message v s h =
      let ((id, spawned), ready, key, connected, answer) =
        run_request-answer (spawn s.control) rounds message v s h in
      (ground arith, ready, key, connected, answer)
