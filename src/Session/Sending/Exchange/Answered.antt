-- ===== src/Session/Sending/Exchange/Answered.antt =====
-- A request that one session sends, as the other handles and answers it.
use openlv_rs.Prelude.{◌<◌, ◌≡◌, refl, sym, ap, ◌∙◌, Bool, true, false, [], ◌∷◌, some}
use openlv_rs.Text.{Bytes, Text}
use openlv_rs.Errors.{OpenLvError, Result, ok}
use openlv_rs.Layer.State.{SignalState}
use openlv_rs.Control.{spawn}
use openlv_rs.Transport.Message.{SessionMessage, request, ack, reply}
use openlv_rs.Transport.Webrtc.{Rtc}
use openlv_rs.Response.{Round}
use openlv_rs.Response.Timely.{InTime, answered, receive_response-InTime}
use openlv_rs.Session.{
  Session, SessionPlatform, dispatch_request, handle_transport_payload, run_handler,
}
use openlv_rs.Session.Sending.{RequestTimes, send_with_timeouts}
use openlv_rs.Session.Sending.Exchange.Steps.{
  texts, dispatch_request-IsLinkedTo, texts-open, both_heard, sent-texts, asks, answers,
}
use openlv_rs.Session.Sending.Exchange.{Written, ChannelLaws, DrawLaws, IsLinkedTo, sent_over}

module _ {V P D S C : Type 0} (rtc : Rtc P D S C) (channels : ChannelLaws rtc)
    (p : SessionPlatform V) (laws : DrawLaws p) where
  -- Under the laws of the primitives and of a data channel, for two open sessions that are linked to
  -- each other, with room for one more handler at the peer and messages that JSON carries: a request
  -- goes out as one text; the peer that gets it admits a handler task, and this task answers with what
  -- the handler makes of the payload, in two texts, which give the asking session the acknowledgement and the answer;
  -- and where these come before their deadlines, the call returns what the handler gave, or that the
  -- request failed where the handler did.
  pub request_answered :
      (a b : Bytes) (t : RequestTimes) (v : V) (on_message : V → Result OpenLvError V)
      (answer : SessionMessage V) (first second : Round V) (heard : Bool) (near far : D)
      (x y : Session V P D C)
      → p.crypto.was_contributory (p.crypto.diffie_hellman a (p.crypto.x25519_public b)) ≡ true
      → x.control.closed ≡ false
      → x.signal_state ≡ SignalState.encrypted
      → y.control.closed ≡ false
      → y.control.active_handlers < 256
      → IsLinkedTo p a b near x
      → IsLinkedTo p b a far y
      → Written p (request t.message_id v)
      → Written p (ack t.message_id)
      → reply t.message_id (on_message v) ≡ ok answer
      → Written p answer
      → InTime t.latest t.message_id t.ack_timeout_ms t.response_timeout_ms t.started answer first
          second
      → let call = send_with_timeouts rtc p t (first ∷ (second ∷ [])) v x in
        (asked acked replied : Text) × (texts rtc channels p laws call.1
          ≡ asked ∷ texts rtc channels p laws x)
        × ((handle_transport_payload p heard asked y).0 ≡ ok tt)
        × (texts rtc channels p laws
              (run_handler rtc p on_message (handle_transport_payload p heard asked y).1)
            ≡ replied ∷ acked ∷ texts rtc channels p laws y)
        × ((handle_transport_payload p heard replied
              (handle_transport_payload p heard acked call.1).1).1.responses
            ≡ answer ∷ ack t.message_id ∷ x.responses)
        × (call.0 ≡ some (answered (on_message v)))
  request_answered a b t v on_message answer first second heard near far x y good open_x ready
        open_y room link_x link_y asks_json ack_json e answer_json timely =
      let (asked, call, got) =
        asks rtc channels p laws a b good t (first ∷ (second ∷ [])) v near x open_x ready asks_json
          link_x in
      let (admits, link_y', spawned) =
        dispatch_request-IsLinkedTo rtc channels p laws b a far heard t.message_id v y open_y room
          link_y in
      let (acked, replied, sent, got_ack, got_answer) =
        answers rtc channels p laws b a
          (ap p.crypto.was_contributory (sym (laws.crypto.diffie_hellman_comm a b)) ∙ good)
          t.message_id v y.handlers on_message answer far
          (dispatch_request heard t.message_id v y).1 ack_json e answer_json spawned link_y' in
      let x' = record x { control = (spawn x.control).1 } in
      let y' = (dispatch_request heard t.message_id v y).1 in
      let later = (rtc.send_text asked near).1 in
      let link_x' : IsLinkedTo p a b later (sent_over later x') = record {
        own = link_x.own;
        peer = link_x.peer;
        connected = link_x.connected;
        channel_open = refl;
      } in
      (
        asked,
        acked,
        replied,
        ap (λ r. texts rtc channels p laws r.1) call
            ∙ sent-texts rtc channels p laws asked near x' link_x.channel_open,
        ap (λ r. r.0) (got heard far y link_y) ∙ admits,
        ap (λ r. texts rtc channels p laws (run_handler rtc p on_message r.1))
              (got heard far y link_y)
            ∙ sent
            ∙ ap (λ ts. replied ∷ acked ∷ ts)
                (texts-open rtc channels p laws far y' link_y'.channel_open
                  ∙ sym (texts-open rtc channels p laws far y link_y.channel_open)),
        ap
              (λ r.
                (handle_transport_payload p heard replied
                  (handle_transport_payload p heard acked r.1).1).1.responses)
              call
            ∙ both_heard rtc channels p laws a b later heard acked replied (ack t.message_id) answer
                (sent_over later x') link_x' got_ack got_answer,
        ap (λ r. r.0) call
            ∙ receive_response-InTime t.latest t.message_id t.response_timeout_ms t.ack_timeout_ms
                t.started (on_message v) answer first second e timely,
      )
