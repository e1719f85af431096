-- ===== src/Layer/Meeting/Stages.antt =====
-- The frames of the handshake, one by one: what each side does on the frame that it receives.
use openlv_rs.Prelude.{ℕ, ◌≡◌, refl, true, [], ◌∷◌, Option, none, some}
use openlv_rs.Text.{Text}
use openlv_rs.Errors.{ok}
use openlv_rs.Wire.{handshake, WireRecipient, host, client, compose_frame, is_recipient, for_role}
use openlv_rs.Message.{SignalingMessage, PeerCapabilities, flash, pubkey, validate}
use openlv_rs.Encryption.Asymmetric.{EncryptionKey, generate_key_pair}
use openlv_rs.Encryption.Handshake
use openlv_rs.Layer.State.{
  SignalState, SignalingProperties, Layer, Platform, Trace, Repeating, new, enter, set_state,
  stop_repeating, can_encrypt, start_handshake_deadline, pubkey_message,
}
use openlv_rs.Layer.Sending.{send_repeating, setup}
use openlv_rs.Layer.Opening.{unseal}
use openlv_rs.Layer.Receive.{dispatch, handle_receive}
use openlv_rs.Layer.Receive.Delivered.{open_message-eq-some, handle_receive-dispatch}
use openlv_rs.Layer.Meeting.{Side, on_side, Pairing, host_properties, client_properties}
use openlv_rs.Layer.Meeting.Laws.{SideLaws, PlatformLaws, PairingLaws}
use openlv_rs.Layer.Meeting.Delivery.{with_frame, send_handshake}

abbrev pub layer_at :
    {V : Type 0}
    → SignalingProperties
    → SignalState
    → Option EncryptionKey
    → Option PeerCapabilities
    → Option (Repeating V)
    → Option (Unit {0})
    → Trace V
    → Layer V
layer_at properties state key caps task deadline trace = record {
  inner = record {
    properties = properties;
    state = state;
    relying_key = key;
    peer_capabilities = caps;
    handshake_task = task;
    deadline_task = deadline;
  };
  trace = trace;
}

module _ {V : Type 0} (p : Platform V) (laws : PlatformLaws p) (m : Pairing)
    (fine : PairingLaws p.crypto m) where
  abbrev pub host_at :
      SignalState
      → Option EncryptionKey
      → Option PeerCapabilities
      → Option (Repeating V)
      → Option (Unit {0})
      → Trace V
      → Layer V
  host_at = layer_at (host_properties p.crypto m)

  abbrev pub client_at :
      SignalState
      → Option EncryptionKey
      → Option PeerCapabilities
      → Option (Repeating V)
      → Option (Unit {0})
      → Trace V
      → Layer V
  client_at = layer_at (client_properties p.crypto m)

  abbrev pub host_key : EncryptionKey
  host_key = (generate_key_pair p.crypto m.host_secret).encryption_key

  abbrev pub client_key : EncryptionKey
  client_key = (generate_key_pair p.crypto m.client_secret).encryption_key

  -- A handshake frame that opens to the message.
  abbrev pub Opens : Text → SignalingMessage V → Type 0
  Opens ct msg = Handshake.decrypt p.crypto m.handshake_key ct ≡ ok (laws.json_text msg)

  module _ (side : Side) (works : SideLaws side) where
    -- A handshake frame for this side that opens to a valid message runs the message's arm.
    pub receive_handshake :
        (r : WireRecipient) (ct : Text) (msg : SignalingMessage V) (l : Layer V)
        → l.inner.properties.handshake_key ≡ some m.handshake_key
        → is_recipient
            (record { prefix = handshake; recipient = r; ciphertext = ct })
            l.inner.properties.is_host
          ≡ true
        → Opens ct msg
        → validate p.is_object msg ≡ ok tt
        → handle_receive (on_side p side) (compose_frame handshake r ct) l
          ≡ dispatch
              (on_side p side)
              (record { prefix = handshake; recipient = r; ciphertext = ct })
              handshake
              msg
              l.inner.state
              l.inner.properties.is_host
              l
    receive_handshake r ct msg l key mine opened valid =
        handle_receive-dispatch (on_side p side) handshake r ct msg l (
          open_message-eq-some (on_side p side) l.inner
            (record { prefix = handshake; recipient = r; ciphertext = ct }) (laws.json_text msg) msg
            mine (unfold unseal in (rw (key, opened) refl)) (laws.from_json_reads msg) valid)

    pub host_starts :
        (t : Trace V) × ((setup (on_side p side) (new (host_properties p.crypto m))).1
          ≡ host_at SignalState.ready none none none none t)
    unfolding setup new set_state enter can_encrypt
    host_starts = (
      record {
        published = [];
        states = SignalState.ready ∷ (SignalState.connecting ∷ []);
        messages = [];
        calls = 2;
      },
      rw (works.setup_works 0, works.subscribe_works 1) refl,
    )

    pub client_starts :
        (task : Repeating V) × (t : Trace V) × (ct : Text) × (time : ℕ) × ((setup
            (on_side p side)
            (new (client_properties p.crypto m))).1
          ≡ with_frame
              (compose_frame handshake host ct)
              (client_at SignalState.handshake none none (some task) (some tt) t))
        × Opens ct (flash p.empty_object time)
        × (task
            ≡ record { prefix = handshake; recipient = host; message = flash p.empty_object time })
    unfolding setup new set_state enter can_encrypt stop_repeating start_handshake_deadline
        send_repeating
    client_starts =
        let time = side.now_ms 2 in
        let t : Trace V = record {
          published = [];
          states = SignalState.handshake ∷ (SignalState.ready ∷ (SignalState.connecting ∷ []));
          messages = [];
          calls = 2;
        } in
        let (ct, sent, opens) =
          send_handshake p laws side works m.handshake_key host (flash p.empty_object time)
            (client_at SignalState.handshake none none none (some tt) t) refl in
        (
          record { prefix = handshake; recipient = host; message = flash p.empty_object time },
          t,
          ct,
          time,
          rw (works.setup_works 0, works.subscribe_works 1, sent) refl,
          opens,
          refl,
        )

    pub host_on_flash :
        (ct : Text) (time : ℕ) (t : Trace V)
        → Opens ct (flash p.empty_object time)
        → (task : Repeating V) × (t' : Trace V) × (ct' : Text) × (time' : ℕ) × ((handle_receive
              (on_side p side)
              (compose_frame handshake host ct)
              (host_at SignalState.ready none none none none t)).1
            ≡ with_frame
                (compose_frame handshake client ct')
                (host_at SignalState.handshake none none (some task) (some tt) t'))
          × Opens ct' (pubkey (record { public_key = host_key.serialized }) time')
          × (task ≡ record {
            prefix = handshake;
            recipient = client;
            message = pubkey (record { public_key = host_key.serialized }) time';
          })
    unfolding dispatch set_state enter stop_repeating start_handshake_deadline send_repeating
        pubkey_message
    host_on_flash ct time t opened =
        let before = host_at SignalState.ready none none none none t in
        let ran =
          receive_handshake host ct (flash p.empty_object time) before refl
            (unfold is_recipient for_role in refl) opened
            (unfold validate in (rw laws.empty_is_object refl)) in
        let time' = side.now_ms t.calls in
        let answer : SignalingMessage V =
          pubkey (record { public_key = host_key.serialized }) time' in
        let t' : Trace V = record t { states = SignalState.handshake ∷ t.states } in
        let (ct', sent, opens) =
          send_handshake p laws side works m.handshake_key client answer
            (host_at SignalState.handshake none none none (some tt) t') refl in
        (
          record { prefix = handshake; recipient = client; message = answer },
          t',
          ct',
          time',
          rw (ran, sent) refl,
          opens,
          refl,
        )
