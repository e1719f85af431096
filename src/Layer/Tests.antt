-- ===== src/Layer/Tests.antt =====
-- Runs of the signaling layer: a client that takes the host's key.
use openlv_rs.Prelude.{ℕ, ◌≡◌, refl, true, false, [], ◌∷◌, ◌++◌, none, some, take}
use openlv_rs.Text.{Bytes, Text, text, bytes_eq, is_utf8}
use openlv_rs.Text.Hex.{to_hex, hex_digit}
use openlv_rs.Errors.{ok}
use openlv_rs.Sample.{repeat, tag, crypto}
use openlv_rs.Wire.{handshake, client, parse_frame, compose_frame, is_recipient, for_role}
use openlv_rs.Wire.Frames.{parse_frame-compose_frame}
use openlv_rs.Message.{pubkey, validate}
use openlv_rs.Encryption.{to_base64, from_base64}
use openlv_rs.Encryption.Asymmetric
use openlv_rs.Encryption.Asymmetric.{
  EncryptionKey, generate_key_pair, parse_encryption_key, encryption_key_from_base64,
}
use openlv_rs.Encryption.Handshake
use openlv_rs.Encryption.Hash.{hash_public_key, validate_public_key_hash}
use openlv_rs.Layer.State.{
  SignalingProperties, Layer, Platform, new, enter, set_state, stop_repeating, stop_handshake_tasks,
  can_encrypt, start_handshake_deadline, store_relying_key,
}
use openlv_rs.Layer.Sending.{send_message, send_repeating, setup}
use openlv_rs.Layer.Opening.{open_message}
use openlv_rs.Layer.Receive.{handle_receive}
use openlv_rs.Layer.Invariant.{IsConsistent, Stays}
use openlv_rs.Layer.Lifecycle.{
  Reach, set_up, received, here, next, client_key_pinned, peer_never_changes, Reach-IsConsistent,
}

abbrev host_bytes : Bytes
host_bytes = repeat 32 66

-- Every text is the JSON of the host's public key message.
abbrev platform : Platform ℕ
platform = record {
  crypto = crypto;
  is_object = λ v. true;
  empty_object = 0;
  to_json = λ m. ok [];
  from_json = λ t. ok (pubkey (record { public_key = host_bytes }) 0);
  now_ms = λ calls. calls;
  random_nonce = λ calls. repeat 12 calls;
  channel_setup = λ calls. ok tt;
  channel_subscribe = λ calls. ok tt;
  channel_publish = λ calls frame. ok tt;
  channel_teardown = λ calls. ok tt;
}

abbrev host_key : EncryptionKey
host_key = record { public_key = host_bytes; serialized = host_bytes }

abbrev client_properties : SignalingProperties
client_properties = record {
  is_host = false;
  h = take 16 (to_hex host_bytes);
  handshake_key = some (record { hex = to_hex (repeat 16 171); cipher = repeat 16 171 });
  encryption_key = record { public_key = repeat 32 67; serialized = repeat 32 67 };
  decryption_key = record {
    secret_key = repeat 32 67;
    public_key = repeat 32 67;
    serialized = repeat 32 67;
  };
  capabilities = record { transports = text "wrtc" ∷ []; info = none };
}

abbrev host_frame : Text
host_frame = compose_frame handshake client (repeat 12 1 ++ (tag ++ b'{' ∷ (b'}' ∷ [])))

abbrev client_waiting : Layer ℕ
client_waiting = (setup platform (new client_properties)).1

abbrev client_linked : Layer ℕ
client_linked = (handle_receive platform host_frame client_waiting).1

client_links : Reach platform (new client_properties) client_linked
client_links =
    next (next here (set_up (new client_properties))) (received host_frame client_waiting)

read_frame :
    parse_frame host_frame
    ≡ ok (record {
      prefix = handshake;
      recipient = client;
      ciphertext = repeat 12 1 ++ (tag ++ b'{' ∷ (b'}' ∷ []));
    })
read_frame = parse_frame-compose_frame handshake client (repeat 12 1 ++ (tag ++ b'{' ∷ (b'}' ∷ [])))

key_known : client_linked.inner.relying_key ≡ some host_key
unfolding handle_receive new setup set_state can_encrypt send_repeating send_message enter
    stop_handshake_tasks stop_repeating start_handshake_deadline Handshake.encrypt Handshake.decrypt
    from_base64 to_base64 open_message is_recipient for_role validate parse_encryption_key
    encryption_key_from_base64 validate_public_key_hash hash_public_key to_hex hex_digit bytes_eq
    is_utf8 store_relying_key compose_frame Asymmetric.encrypt
key_known = rw (read_frame, client_linked, handle_receive) refl

client_key_pinned_example : hash_public_key crypto host_key ≡ client_properties.h
client_key_pinned_example = client_key_pinned client_properties host_key refl client_links key_known

client-IsConsistent : IsConsistent crypto client_linked.inner
client-IsConsistent = Reach-IsConsistent client_properties client_links

peer_never_changes_example :
    ((handle_receive platform host_frame client_linked).1.inner.relying_key ≡ some host_key)
    × Stays client_linked.inner.peer_capabilities
        (handle_receive platform host_frame client_linked).1.inner.peer_capabilities
    × ((handle_receive platform host_frame client_linked).1.inner.properties
        ≡ client_linked.inner.properties)
peer_never_changes_example =
    peer_never_changes host_key client-IsConsistent (next here (received host_frame client_linked))
      key_known
