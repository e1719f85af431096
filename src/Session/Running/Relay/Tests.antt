-- ===== src/Session/Running/Relay/Tests.antt =====
-- An offer that travels between two sessions.
use openlv_rs.Prelude.{ℕ, ◌≡◌, refl, [], ◌∷◌}
use openlv_rs.Layer.Receive.{handle_receive}
use openlv_rs.Layer.Meeting.{on_side, newest, handshake_run}
use openlv_rs.Layer.Meeting.Example.{
  pairing, side, side-SideLaws, platform, platform_laws, pairing_laws,
}
use openlv_rs.Transport.Webrtc as Webrtc
use openlv_rs.Session.{Session}
use openlv_rs.Session.Running.{Running}
use openlv_rs.Session.Running.Sample.{rtc, session_platform, waiting}
use openlv_rs.Session.Running.Relay.{relay_negotiation, on_signal_message}
use openlv_rs.Session.Running.Relay.Sample.{an_offer, json}
use openlv_rs.Session.Running.Relay.Delivery.{Carries, negotiation_relayed}

offer-Carries : Carries json [] an_offer 1 2
offer-Carries = record {
  inner_written = refl;
  inner_read = refl;
  value_written = refl;
  value_read = refl;
  reason = [];
  no_negotiation = refl;
}

abbrev host_session : Running ℕ ℕ ℕ ℕ
host_session = record waiting {
  signaling = (handshake_run platform (side 5) (side 9) pairing).host;
}

abbrev client_session : Running ℕ ℕ ℕ ℕ
client_session = record waiting {
  signaling = (handshake_run platform (side 5) (side 9) pairing).client;
}

negotiation_relayed_example :
    let h = host_session in
    let c = client_session in
    let h' = (relay_negotiation json (on_side platform (side 5)) [] an_offer h).1 in
    let c' = (relay_negotiation json (on_side platform (side 9)) [] an_offer c).1 in
    ((handle_receive (on_side platform (side 9)) (newest h'.signaling) c.signaling).1.trace.messages
      ≡ 2 ∷ c.signaling.trace.messages)
    × ((handle_receive
          (on_side platform (side 5))
          (newest c'.signaling)
          h.signaling).1.trace.messages
        ≡ 2 ∷ h.signaling.trace.messages)
    × ((t : Session ℕ ℕ ℕ ℕ)
        → on_signal_message rtc session_platform json 2 t
          ≡ record t { transport = (Webrtc.handle rtc an_offer t.transport).1 })
negotiation_relayed_example =
    negotiation_relayed platform platform_laws pairing pairing_laws (side 5) (side-SideLaws 5)
      (side 9) (side-SideLaws 9) rtc session_platform json [] an_offer 1 2 offer-Carries refl
      host_session client_session refl refl
