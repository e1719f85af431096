-- ===== src/Layer/Meeting/Advertised.antt =====
-- The sealed frames of the two capabilities.
use openlv_rs.Prelude.{ℕ, ◌≡◌, refl, inr, ◌∷◌, none, some}
use openlv_rs.Text.{Text}
use openlv_rs.Wire.{encrypted, host, client, compose_frame, is_recipient, for_role}
use openlv_rs.Message.{SignalingMessage, capabilities, validate}
use openlv_rs.Layer.State.{
  SignalState, Platform, Trace, Repeating, enter, set_state, stop_handshake_tasks,
  store_peer_capabilities, capabilities_message,
}
use openlv_rs.Layer.Receive.{dispatch, handle_receive}
use openlv_rs.Layer.Meeting.{Side, on_side, Pairing}
use openlv_rs.Layer.Meeting.Laws.{SideLaws, PlatformLaws, PairingLaws}
use openlv_rs.Layer.Meeting.Delivery.{with_frame, send_encrypted}
use openlv_rs.Layer.Meeting.Stages.{host_at, client_at, host_key, client_key}
use openlv_rs.Layer.Meeting.Sealed.{IsSealed, contributory_back, receive_encrypted}

module _ {V : Type 0} (p : Platform V) (laws : PlatformLaws p) (m : Pairing)
    (fine : PairingLaws p.crypto m) where
  module _ (side : Side) (works : SideLaws side) where
    -- The client is done, and answers with its capabilities.
    pub client_on_capabilities :
        (ct : Text) (time : ℕ) (task : Repeating V) (t : Trace V)
        → IsSealed p laws m fine m.host_secret m.client_secret ct
            (capabilities m.host_capabilities time)
        → (t' : Trace V) × (ct' : Text) × (time' : ℕ) × ((handle_receive
              (on_side p side)
              (compose_frame encrypted client ct)
              (client_at p laws m fine SignalState.handshake_partial
                (some (host_key p laws m fine))
                none
                (some task)
                (some tt)
                t)).1
            ≡ with_frame (compose_frame encrypted host ct') (
                client_at p laws m fine SignalState.encrypted
                  (some (host_key p laws m fine))
                  (some m.host_capabilities)
                  none
                  none
                  t'))
          × IsSealed p laws m fine m.client_secret m.host_secret ct'
              (capabilities m.client_capabilities time')
    unfolding dispatch set_state enter stop_handshake_tasks capabilities_message
        store_peer_capabilities
    client_on_capabilities ct time task t (opened, from_host) =
        let before =
          client_at p laws m fine SignalState.handshake_partial (some (host_key p laws m fine)) none
            (some task) (some tt) t in
        let ran =
          receive_encrypted p laws m fine side works client ct
            (capabilities m.host_capabilities time) before (unfold is_recipient for_role in refl)
            (opened (some (host_key p laws m fine)) (inr refl))
            (unfold validate in fine.host_valid) in
        let time' = side.now_ms t.calls in
        let answer : SignalingMessage V = capabilities m.client_capabilities time' in
        let t' : Trace V = record t { states = SignalState.encrypted ∷ t.states } in
        let (ct', sent, opens, named) =
          send_encrypted p laws side works m.client_secret m.host_secret host answer
            (client_at p laws m fine SignalState.encrypted (some (host_key p laws m fine))
              (some m.host_capabilities) none none t')
            refl refl (contributory_back p laws m fine) in
        (t', ct', time', rw (ran, sent) refl, (opens, named))

    -- The host is done.
    pub host_on_capabilities :
        (ct : Text) (time : ℕ) (task : Repeating V) (t : Trace V)
        → IsSealed p laws m fine m.client_secret m.host_secret ct
            (capabilities m.client_capabilities time)
        → (t' : Trace V) × ((handle_receive (on_side p side) (compose_frame encrypted host ct) (
              host_at p laws m fine SignalState.handshake_partial
                (some (client_key p laws m fine))
                none
                (some task)
                (some tt)
                t)).1
            ≡ host_at p laws m fine SignalState.encrypted
                (some (client_key p laws m fine))
                (some m.client_capabilities)
                none
                none
                t')
    unfolding dispatch set_state enter stop_handshake_tasks store_peer_capabilities
    host_on_capabilities ct time task t (opened, from_client) =
        let before =
          host_at p laws m fine SignalState.handshake_partial (some (client_key p laws m fine)) none
            (some task) (some tt) t in
        let ran =
          receive_encrypted p laws m fine side works host ct
            (capabilities m.client_capabilities time) before (unfold is_recipient for_role in refl)
            (opened (some (client_key p laws m fine)) (inr refl))
            (unfold validate in fine.client_valid) in
        (record t { states = SignalState.encrypted ∷ t.states }, rw ran refl)
