-- ===== src/Layer/Meeting/Keys.antt =====
-- The sealed frames of the two keys.
use openlv_rs.Prelude.{ℕ, ◌≤◌, ◌≡◌, refl, inl, ◌∷◌, none, some, arith, length}
use openlv_rs.Text.{Bytes, Text}
use openlv_rs.Text.Laws.{bytes_eq_refl}
use openlv_rs.Errors.{ok}
use openlv_rs.Wire.{handshake, encrypted, host, client, compose_frame, is_recipient, for_role}
use openlv_rs.Message.{SignalingMessage, pubkey, capabilities, validate}
use openlv_rs.Encryption.Base64.{is_empty-to_base64}
use openlv_rs.Encryption.Asymmetric.{generate_key_pair}
use openlv_rs.Encryption.Asymmetric.Delivery.{parse_encryption_key_generated}
use openlv_rs.Encryption.Hash.{hash_public_key, validate_public_key_hash}
use openlv_rs.Layer.State.{
  SignalState, Platform, Trace, Repeating, enter, set_state, stop_repeating, store_relying_key,
  pubkey_message, capabilities_message,
}
use openlv_rs.Layer.Sending.{send_repeating}
use openlv_rs.Layer.Receive.{dispatch, handle_receive}
use openlv_rs.Layer.Meeting.{Side, on_side, Pairing}
use openlv_rs.Layer.Meeting.Laws.{SideLaws, PlatformLaws, PairingLaws}
use openlv_rs.Layer.Meeting.Delivery.{with_frame, send_encrypted}
use openlv_rs.Layer.Meeting.Stages.{
  host_at, client_at, host_key, client_key, Opens, receive_handshake,
}
use openlv_rs.Layer.Meeting.Sealed.{IsSealed, contributory_back, receive_encrypted}

module _ {V : Type 0} (p : Platform V) (laws : PlatformLaws p) (m : Pairing)
    (fine : PairingLaws p.crypto m) where
  key_message-valid :
      (a : Bytes) (time : ℕ)
      → validate p.is_object (
          pubkey
            (record { public_key = (generate_key_pair p.crypto a).encryption_key.serialized })
            time)
        ≡ ok tt
  unfolding validate generate_key_pair
  key_message-valid a time =
      rw (is_empty-to_base64 p.crypto laws.crypto (p.crypto.x25519_public a) (long a)) refl
    where
      long : (a : Bytes) → 1 ≤ length (p.crypto.x25519_public a)
      long a = omega (arith, laws.crypto.x25519_public_length a)

  module _ (side : Side) (works : SideLaws side) where
    -- The client takes the host's key, which has the hash of the URL, and seals its own.
    pub client_on_key :
        (ct : Text) (time : ℕ) (task : Repeating V) (t : Trace V)
        → Opens p laws m fine ct
            (pubkey (record { public_key = (host_key p laws m fine).serialized }) time)
        → (task' : Repeating V) × (t' : Trace V) × (ct' : Text) × (time' : ℕ) × ((handle_receive
              (on_side p side)
              (compose_frame handshake client ct)
              (client_at p laws m fine SignalState.handshake none none (some task) (some tt) t)).1
            ≡ with_frame (compose_frame encrypted host ct') (
                client_at p laws m fine SignalState.handshake_partial
                  (some (host_key p laws m fine))
                  none
                  (some task')
                  (some tt)
                  t'))
          × IsSealed p laws m fine m.client_secret m.host_secret ct'
              (pubkey (record { public_key = (client_key p laws m fine).serialized }) time')
          × (task' ≡ record {
            prefix = encrypted;
            recipient = host;
            message = pubkey (record { public_key = (client_key p laws m fine).serialized }) time';
          })
    unfolding dispatch set_state enter stop_repeating send_repeating pubkey_message
        store_relying_key validate_public_key_hash
    client_on_key ct time task t opened =
        let before =
          client_at p laws m fine SignalState.handshake none none (some task) (some tt) t in
        let ran =
          receive_handshake p laws m fine side works client ct
            (pubkey (record { public_key = (host_key p laws m fine).serialized }) time) before refl
            (unfold is_recipient for_role in refl) opened (key_message-valid m.host_secret time) in
        let time' = side.now_ms t.calls in
        let answer : SignalingMessage V =
          pubkey (record { public_key = (client_key p laws m fine).serialized }) time' in
        let t' : Trace V = record t { states = SignalState.handshake_partial ∷ t.states } in
        let (ct', sent, opens, named) =
          send_encrypted p laws side works m.client_secret m.host_secret host answer
            (client_at p laws m fine SignalState.handshake_partial (some (host_key p laws m fine))
              none none (some tt) t')
            refl refl (contributory_back p laws m fine) in
        (
          record { prefix = encrypted; recipient = host; message = answer },
          t',
          ct',
          time',
          rw
              (
                ran,
                parse_encryption_key_generated p.crypto laws.crypto m.host_secret,
                bytes_eq_refl (hash_public_key p.crypto (host_key p laws m fine)),
                sent,
              )
              refl,
          (opens, named),
          refl,
        )

    -- The host takes the key that also sealed the frame, and seals its capabilities.
    pub host_on_key :
        (ct : Text) (time : ℕ) (task : Repeating V) (t : Trace V)
        → IsSealed p laws m fine m.client_secret m.host_secret ct
            (pubkey (record { public_key = (client_key p laws m fine).serialized }) time)
        → (task' : Repeating V) × (t' : Trace V) × (ct' : Text) × (time' : ℕ) × ((handle_receive
              (on_side p side)
              (compose_frame encrypted host ct)
              (host_at p laws m fine SignalState.handshake none none (some task) (some tt) t)).1
            ≡ with_frame (compose_frame encrypted client ct') (
                host_at p laws m fine SignalState.handshake_partial
                  (some (client_key p laws m fine))
                  none
                  (some task')
                  (some tt)
                  t'))
          × IsSealed p laws m fine m.host_secret m.client_secret ct'
              (capabilities m.host_capabilities time')
          × (task' ≡ record {
            prefix = encrypted;
            recipient = client;
            message = capabilities m.host_capabilities time';
          })
    unfolding dispatch set_state enter stop_repeating send_repeating capabilities_message
        store_relying_key
    host_on_key ct time task t (opened, from_client) =
        let before =
          host_at p laws m fine SignalState.handshake none none (some task) (some tt) t in
        let ran =
          receive_encrypted p laws m fine side works host ct
            (pubkey (record { public_key = (client_key p laws m fine).serialized }) time) before
            (unfold is_recipient for_role in refl) (opened none (inl refl))
            (key_message-valid m.client_secret time) in
        let time' = side.now_ms t.calls in
        let answer : SignalingMessage V = capabilities m.host_capabilities time' in
        let t' : Trace V = record t { states = SignalState.handshake_partial ∷ t.states } in
        let (ct', sent, opens, named) =
          send_encrypted p laws side works m.host_secret m.client_secret client answer
            (host_at p laws m fine SignalState.handshake_partial (some (client_key p laws m fine))
              none none (some tt) t')
            refl refl fine.contributory in
        (
          record { prefix = encrypted; recipient = client; message = answer },
          t',
          ct',
          time',
          rw
              (
                ran,
                parse_encryption_key_generated p.crypto laws.crypto m.client_secret,
                from_client,
                bytes_eq_refl (client_key p laws m fine).public_key,
                sent,
              )
              refl,
          (opens, named),
          refl,
        )
