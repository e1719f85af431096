-- ===== src/Layer/Meeting/Tests.antt =====
-- A run of the handshake between a host and a client.
use openlv_rs.Prelude.{arith, ◌≡◌, refl, ◌∷◌}
use openlv_rs.Sample.{crypto}
use openlv_rs.Layer.Sending.{send}
use openlv_rs.Layer.Receive.{handle_receive}
use openlv_rs.Layer.Meeting.{on_side, newest, handshake_run}
use openlv_rs.Layer.Meeting.Exchange.{IsLinked, payload_delivered}
use openlv_rs.Layer.Meeting.Lossy.{Losses}
use openlv_rs.Layer.Meeting.Lossy.Timed.{timed_run, handshake_in_time}
use openlv_rs.Layer.Meeting.Example.{
  pairing, side, side-SideLaws, platform, platform_laws, pairing_laws,
}

-- Each frame is lost once.
abbrev each_lost : Losses
each_lost = record {
  flashes = 1;
  host_keys = 1;
  client_keys = 1;
  host_capabilities = 1;
  answers = 1;
}

handshake_in_time_example :
    IsLinked crypto pairing (timed_run platform (side 5) (side 9) each_lost pairing)
handshake_in_time_example =
    handshake_in_time platform platform_laws pairing pairing_laws (side 5) (side-SideLaws 5)
      (side 9) (side-SideLaws 9) each_lost (omega arith)

payload_delivered_example :
    let s = handshake_run platform (side 5) (side 9) pairing in
    ((handle_receive
        (on_side platform (side 9))
        (newest (send (on_side platform (side 5)) 42 s.host).1)
        s.client).1.trace.messages
      ≡ 42 ∷ s.client.trace.messages)
    × ((handle_receive
          (on_side platform (side 5))
          (newest (send (on_side platform (side 9)) 42 s.client).1)
          s.host).1.trace.messages
        ≡ 42 ∷ s.host.trace.messages)
payload_delivered_example =
    payload_delivered platform platform_laws pairing pairing_laws (side 5) (side-SideLaws 5)
      (side 9) (side-SideLaws 9) 42 refl
