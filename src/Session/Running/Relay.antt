-- ===== src/Session/Running/Relay.antt =====
-- The loops over signaling messages and transport events in session/mod.rs, one event at a time: the
-- negotiation of the transports travels as application payloads of the signaling layer.
pub mod Delivery
pub mod Sample
mod Tests
use openlv_rs.Prelude.{Bool}
use openlv_rs.Text.{Text}
use openlv_rs.Errors.{OpenLvError, other, Result, ok, err, panic, map_err}
use openlv_rs.Stateful.{M, continue_with, ◌>>=◌, lift}
use openlv_rs.Layer.State.{Platform}
use openlv_rs.Layer.Sending as Signaling
use openlv_rs.Transport.Message.{TransportNegotiationMessage, SessionMessage, request}
use openlv_rs.Transport.Webrtc.{Rtc, TransportEvent, negotiation, message}
use openlv_rs.Transport.Webrtc as Webrtc
use openlv_rs.Session.{
  Session, SessionPlatform, send_response, on_transport, handle_transport_payload,
}
use openlv_rs.Session.Running.{Running, on_signaling}

-- `serde_json::to_value` and `from_value` at the two types.
pub record ValueJson (V : Type 0) : Type 0 where
  pub negotiation_to_value : TransportNegotiationMessage → Result Text V
  pub message_to_value : SessionMessage V → Result Text V
  pub negotiation_from_value : V → Result Text TransportNegotiationMessage
  pub message_from_value : V → Result Text (SessionMessage V)

module _ {V P D C : Type 0} (json : ValueJson V) (platform : Platform V) where
  -- The identifier is the random draw.
  pub relay_negotiation : Text → TransportNegotiationMessage → M (Running V P D C) (Unit {0})
  relay_negotiation message_id n = do
    payload ← lift (map_err other (json.negotiation_to_value n))
    value ← lift (map_err other (json.message_to_value (request message_id payload)))
    on_signaling (Signaling.send platform value)

module _ {V P D S C : Type 0} (rtc : Rtc P D S C) (p : SessionPlatform V) (json : ValueJson V) where
  -- The failure of the negotiation is only logged.
  handle_negotiation : TransportNegotiationMessage → Session V P D C → Session V P D C
  handle_negotiation n s = (on_transport rtc p (Webrtc.handle rtc n) s).1

  handle_wrapped : Result Text TransportNegotiationMessage → Session V P D C → Session V P D C
  unfolding handle_negotiation
  handle_wrapped (ok n) s = handle_negotiation n s
  handle_wrapped _ s = s

  handle_other : Result Text (SessionMessage V) → Session V P D C → Session V P D C
  unfolding handle_wrapped
  handle_other (ok (request message_id payload)) s =
      handle_wrapped (json.negotiation_from_value payload) s
  handle_other (ok m) s = send_response m s
  handle_other _ s = s

  -- One message of the signaling layer, as `run_signal_message_loop` handles it.
  pub on_signal_message : V → Session V P D C → Session V P D C
  unfolding handle_negotiation handle_other
  on_signal_message payload s = elim (json.negotiation_from_value payload) [
    | ok n ↦ handle_negotiation n s
    | _ ↦ handle_other (json.message_from_value payload) s
  ]

  -- One event of the transport, as `run_transport_event_loop` handles it; failures are only logged.
  pub on_transport_event :
      Platform V → Bool → Text → TransportEvent → Running V P D C → Running V P D C
  on_transport_event platform subscribed message_id (negotiation n) s =
      (relay_negotiation json platform message_id n s).1
  on_transport_event platform subscribed message_id (message raw) s = record s {
    session = (handle_transport_payload p subscribed raw s.session).1;
  }
