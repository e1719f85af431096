-- ===== src/Session/Running/Relay/Delivery.antt =====
-- A negotiation message that one session relays is handled by the transport of the other.
use openlv_rs.Prelude.{◌≡◌, refl, true, ◌∷◌}
use openlv_rs.Text.{Text}
use openlv_rs.Errors.{ok, err}
use openlv_rs.Layer.State.{Platform}
use openlv_rs.Layer.Sending as Signaling
use openlv_rs.Layer.Receive.{handle_receive}
use openlv_rs.Layer.Meeting.{Side, on_side, Pairing, newest, handshake_run}
use openlv_rs.Layer.Meeting.Laws.{SideLaws, PlatformLaws, PairingLaws}
use openlv_rs.Layer.Meeting.Exchange.{payload_delivered}
use openlv_rs.Transport.Message.{TransportNegotiationMessage, request}
use openlv_rs.Transport.Webrtc.{Rtc}
use openlv_rs.Transport.Webrtc as Webrtc
use openlv_rs.Session.{Session, SessionPlatform, on_transport}
use openlv_rs.Session.Running.{Running}
use openlv_rs.Session.Running.Relay.{
  ValueJson, relay_negotiation, on_signal_message, handle_negotiation, handle_other, handle_wrapped,
}

-- How JSON carries a negotiation message: the value of the message is read back, and the value of
-- the request around it is the request and no negotiation message, since its payload is no string.
pub record Carries {V : Type 0} (json : ValueJson V) (message_id : Text)
    (n : TransportNegotiationMessage) (inner value : V) : Type 0 where
  pub inner_written : json.negotiation_to_value n ≡ ok inner
  pub inner_read : json.negotiation_from_value inner ≡ ok n
  pub value_written : json.message_to_value (request message_id inner) ≡ ok value
  pub value_read : json.message_from_value value ≡ ok (request message_id inner)
  pub reason : Text
  pub no_negotiation : json.negotiation_from_value value ≡ err reason

module _ {V P D S C : Type 0} (rtc : Rtc P D S C) (sp : SessionPlatform V) (json : ValueJson V)
    (message_id : Text) (n : TransportNegotiationMessage) (inner value : V)
    (carries : Carries json message_id n inner value) where
  relayed :
      (platform : Platform V) (s : Running V P D C)
      → (relay_negotiation json platform message_id n s).1.signaling
        ≡ (Signaling.send platform value s.signaling).1
  unfolding relay_negotiation
  relayed platform s = rw (relay_negotiation, carries.inner_written, carries.value_written) refl

  handled :
      (t : Session V P D C)
      → on_signal_message rtc sp json value t
        ≡ record t { transport = (Webrtc.handle rtc n t.transport).1 }
  unfolding on_signal_message handle_negotiation handle_other handle_wrapped on_transport
  handled t =
      rw (on_signal_message, carries.no_negotiation, carries.value_read, carries.inner_read) refl

module _ {V P D S C : Type 0} (p : Platform V) (laws : PlatformLaws p) (m : Pairing)
    (fine : PairingLaws p.crypto m) (host_side : Side) (host_works : SideLaws host_side)
    (client_side : Side) (client_works : SideLaws client_side) where
  -- Under the laws of the primitives and of JSON, with valid capabilities, a common secret and
  -- working channels: after the handshake of two sessions a negotiation message that one relays
  -- arrives at the other, whose message loop gives it to its transport and changes nothing else; in
  -- both directions, where JSON carries the message in an object.
  pub negotiation_relayed :
      (rtc : Rtc P D S C) (sp : SessionPlatform V) (json : ValueJson V) (message_id : Text)
      (n : TransportNegotiationMessage) (inner value : V)
      → Carries json message_id n inner value
      → p.is_object value ≡ true
      → (h c : Running V P D C) → h.signaling ≡ (handshake_run p host_side client_side m).host
      → c.signaling ≡ (handshake_run p host_side client_side m).client
      → let h' = (relay_negotiation json (on_side p host_side) message_id n h).1 in
        let c' = (relay_negotiation json (on_side p client_side) message_id n c).1 in
        ((handle_receive (on_side p client_side) (newest h'.signaling) c.signaling).1.trace.messages
          ≡ value ∷ c.signaling.trace.messages)
        × ((handle_receive (on_side p host_side) (newest c'.signaling) h.signaling).1.trace.messages
            ≡ value ∷ h.signaling.trace.messages)
        × ((t : Session V P D C)
            → on_signal_message rtc sp json value t
              ≡ record t { transport = (Webrtc.handle rtc n t.transport).1 })
  negotiation_relayed rtc sp json message_id n inner value carries object h c at_host at_client =
      let (to_client, to_host) =
        payload_delivered p laws m fine host_side host_works client_side client_works value
          object in
      let from_host =
        relayed rtc sp json message_id n inner value carries (on_side p host_side) h in
      let from_client =
        relayed rtc sp json message_id n inner value carries (on_side p client_side) c in
      (
        rw (from_host, at_host, at_client) to_client,
        rw (from_client, at_client, at_host) to_host,
        handled rtc sp json message_id n inner value carries,
      )
