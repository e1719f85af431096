-- ===== src/Session/Sending/Exchange/Steps.antt =====
-- The steps of a request between two sessions: asking, admitting, answering and hearing the answer.
use openlv_rs.Prelude.{
  ◌<◌, ◌≡◌, refl, sym, ap, ◌∙◌, Bool, true, false, List, [], ◌∷◌, none, some, arith, Bool-cases,
  inl, inr, leb,
}
use openlv_rs.Text.{Bytes, Text}
use openlv_rs.Errors.{OpenLvError, Result, ok, err, panic, ok-injective}
use openlv_rs.Layer.State.{SignalState, is_encrypted}
use openlv_rs.Control.{SessionControl, spawn, admit_handler, max_active_handlers}
use openlv_rs.Transport.Message.{SessionMessage, request, ack, reply}
use openlv_rs.Transport.Webrtc.{Rtc}
use openlv_rs.Response.{Round, receive_response}
use openlv_rs.Session.{
  Session, SessionPlatform, dispatch_request, admitted, with_control, observe_request,
  handle_message, handle_transport_payload, handle_remote_request, run_handler, release, send_reply,
  send_response,
}
use openlv_rs.Session.Sending.{
  RequestTimes, await_response, send_request, run_request, send_with_timeouts,
}
use openlv_rs.Session.Sending.Exchange.{
  Written, ChannelLaws, DrawLaws, IsLinkedTo, sent_over, carries,
}

spawn-open : (c : SessionControl) → c.closed ≡ false → (spawn c).0 ≡ ok c.next_id
unfolding spawn
spawn-open c h = rw h refl

module _ {V P D S C : Type 0} (rtc : Rtc P D S C) (channels : ChannelLaws rtc)
    (p : SessionPlatform V) (laws : DrawLaws p) where
  -- The texts that the session's channel took, newest first.
  abbrev pub texts : Session V P D C → List Text
  texts s = elim s.transport.data_channel [ none ↦ [] | some d ↦ channels.sent_texts d ]

  sent_over-IsLinkedTo :
      (mine theirs : Bytes) (channel later : D) (s : Session V P D C)
      → IsLinkedTo p mine theirs channel s
      → IsLinkedTo p mine theirs later (sent_over later s)
  sent_over-IsLinkedTo mine theirs channel later s l = record {
    own = l.own;
    peer = l.peer;
    connected = l.connected;
    channel_open = refl;
  }

  pub dispatch_request-IsLinkedTo :
      (mine theirs : Bytes) (channel : D) (subscribed : Bool) (id : Text) (payload : V)
      (s : Session V P D C)
      → s.control.closed ≡ false
      → s.control.active_handlers < 256
      → IsLinkedTo p mine theirs channel s
      → ((dispatch_request subscribed id payload s).0 ≡ ok tt)
        × IsLinkedTo p mine theirs channel (dispatch_request subscribed id payload s).1
        × ((dispatch_request subscribed id payload s).1.handlers ≡ (id, payload) ∷ s.handlers)
  unfolding dispatch_request admitted with_control observe_request admit_handler spawn
  dispatch_request-IsLinkedTo mine theirs channel subscribed id payload s here room l =
      let free : leb max_active_handlers s.control.active_handlers ≡ false = ground arith in
      elim (Bool-cases subscribed) [
        | inl e ↦
            rw (e, here, free)
              (
                refl,
                record {
                  own = l.own;
                  peer = l.peer;
                  connected = l.connected;
                  channel_open = l.channel_open;
                },
                refl,
              )
        | inr e ↦
            rw (e, here, free)
              (
                refl,
                record {
                  own = l.own;
                  peer = l.peer;
                  connected = l.connected;
                  channel_open = l.channel_open;
                },
                refl,
              )
      ]

  -- The answer of a handler that does not panic is a response that is put on the list.
  replied :
      (id : Text) (outcome : Result OpenLvError V) (answer : SessionMessage V)
      → reply id outcome ≡ ok answer
      → (subscribed : Bool) (s : Session V P D C)
      → handle_message subscribed answer s ≡ (ok tt, send_response answer s)
  unfolding reply handle_message
  replied id (ok v) answer e subscribed s = rw (sym (ok-injective e)) refl
  replied id (err x) answer e subscribed s = rw (sym (ok-injective e)) refl
  replied id panic answer e subscribed s = cc

  pub texts-open :
      (channel : D) (s : Session V P D C)
      → s.transport.data_channel ≡ some channel
      → texts s ≡ channels.sent_texts channel
  texts-open channel s e = rw e refl

  -- Two texts that are put on the list of the responses.
  pub both_heard :
      (mine theirs : Bytes) (channel : D) (heard : Bool) (first second : Text)
      (m m' : SessionMessage V) (s : Session V P D C)
      → IsLinkedTo p mine theirs channel s
      → ((subscribed : Bool) (far : D) (peer : Session V P D C)
          → IsLinkedTo p mine theirs far peer
          → handle_transport_payload p subscribed first peer ≡ (ok tt, send_response m peer))
      → ((subscribed : Bool) (far : D) (peer : Session V P D C)
          → IsLinkedTo p mine theirs far peer
          → handle_transport_payload p subscribed second peer ≡ (ok tt, send_response m' peer))
      → (handle_transport_payload p heard second
          (handle_transport_payload p heard first s).1).1.responses
        ≡ m' ∷ m ∷ s.responses
  unfolding send_response
  both_heard mine theirs channel heard first second m m' s l got got' =
      let l' : IsLinkedTo p mine theirs channel (send_response m s) = record {
        own = l.own;
        peer = l.peer;
        connected = l.connected;
        channel_open = l.channel_open;
      } in
      ap (λ r. (handle_transport_payload p heard second r.1).1.responses) (got heard channel s l)
      ∙ ap (λ r. r.1.responses) (got' heard channel (send_response m s) l')

  pub sent-texts :
      (raw : Text) (channel : D) (s : Session V P D C)
      → s.transport.data_channel ≡ some channel
      → texts (sent_over (rtc.send_text raw channel).1 s) ≡ raw ∷ texts s
  sent-texts raw channel s e = rw e (channels.keeps raw channel)

  module _ (mine theirs : Bytes)
      (good : p.crypto.was_contributory
          (p.crypto.diffie_hellman mine (p.crypto.x25519_public theirs))
        ≡ true) where
    -- The request goes out, and the wait for its answer begins.
    pub asks :
        (t : RequestTimes) (rounds : List (Round V)) (v : V) (channel : D) (x : Session V P D C)
        → x.control.closed ≡ false
        → x.signal_state ≡ SignalState.encrypted
        → Written p (request t.message_id v)
        → IsLinkedTo p mine theirs channel x
        → (raw : Text) × (send_with_timeouts rtc p t rounds v x ≡ (
          receive_response t.latest t.message_id t.response_timeout_ms t.ack_timeout_ms t.started
              rounds,
          sent_over (rtc.send_text raw channel).1 (record x { control = (spawn x.control).1 }),
        ))
          × ((subscribed : Bool) (far : D) (peer : Session V P D C)
              → IsLinkedTo p theirs mine far peer
              → handle_transport_payload p subscribed raw peer
                ≡ dispatch_request subscribed t.message_id v peer)
    unfolding send_with_timeouts run_request send_request await_response handle_message
    asks t rounds v channel x here ready w l =
        let l' : IsLinkedTo p mine theirs channel (record x { control = (spawn x.control).1 }) =
          record {
            own = l.own;
            peer = l.peer;
            connected = l.connected;
            channel_open = l.channel_open;
          } in
        let (raw, sent, opened) =
          carries rtc channels p laws mine theirs channel (request t.message_id v)
            (record x { control = (spawn x.control).1 }) good w l' in
        let coded : is_encrypted x.signal_state ≡ true = rw ready refl in
        (
          raw,
          simp (
            send_with_timeouts,
            spawn-open x.control here,
            run_request,
            send_request,
            coded,
            sent,
            await_response,
          ),
          opened,
        )

    -- The acknowledgement and the answer go out.
    pub answers :
        (id : Text) (v : V) (rest : List (Text × V)) (on_message : V → Result OpenLvError V)
        (answer : SessionMessage V) (channel : D) (y : Session V P D C)
        → Written p (ack id)
        → reply id (on_message v) ≡ ok answer
        → Written p answer
        → y.handlers ≡ (id, v) ∷ rest
        → IsLinkedTo p mine theirs channel y
        → (acked replied : Text) × (texts (run_handler rtc p on_message y)
            ≡ replied ∷ acked ∷ texts y)
          × ((subscribed : Bool) (far : D) (peer : Session V P D C)
              → IsLinkedTo p theirs mine far peer
              → handle_transport_payload p subscribed acked peer
                ≡ (ok tt, send_response (ack id) peer))
          × ((subscribed : Bool) (far : D) (peer : Session V P D C)
              → IsLinkedTo p theirs mine far peer
              → handle_transport_payload p subscribed replied peer
                ≡ (ok tt, send_response answer peer))
    unfolding run_handler handle_remote_request send_reply release handle_message
    answers id v rest on_message answer channel y w e w' spawned l =
        let started = record y { handlers = rest } in
        let l' : IsLinkedTo p mine theirs channel started = record {
          own = l.own;
          peer = l.peer;
          connected = l.connected;
          channel_open = l.channel_open;
        } in
        let (raw, sent, opened) =
          carries rtc channels p laws mine theirs channel (ack id) started good w l' in
        let next = (rtc.send_text raw channel).1 in
        let (raw', sent', opened') =
          carries rtc channels p laws mine theirs next answer (sent_over next started) good w'
            (sent_over-IsLinkedTo mine theirs channel next started l') in
        let run : run_handler rtc p on_message y
            ≡ release rtc p (sent_over (rtc.send_text raw' next).1 (sent_over next started)) =
          simp (run_handler, spawned, handle_remote_request, sent, e, send_reply, sent') in
        (
          raw,
          raw',
          ap texts run
              ∙ channels.keeps raw' next
              ∙ ap (λ ts. raw' ∷ ts) (sent-texts raw channel started l.channel_open),
          opened,
          λ subscribed far peer there.
              opened' subscribed far peer there
              ∙ replied id (on_message v) answer e subscribed peer,
        )
