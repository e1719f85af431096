-- ===== src/Session/Start/Sample.antt =====
-- A dApp that is opened over MQTT, with its random draws.
use openlv_rs.Prelude.{ℕ, ◌≡◌, refl, true, [], ◌∷◌, none, some}
use openlv_rs.Text.{text}
use openlv_rs.Text.Laws.{bytes_eq_refl}
use openlv_rs.Text.Hex.{to_hex}
use openlv_rs.Errors.{ok}
use openlv_rs.Sample.{repeat, crypto}
use openlv_rs.Encryption.Asymmetric.{generate_key_pair}
use openlv_rs.Encryption.Handshake.{HandshakeKey}
use openlv_rs.Encryption.Hash.{hash_public_key, init_hash, public_key_hash_from}
use openlv_rs.Url.{SignalingProtocol}
use openlv_rs.Url.RoundTrip.{protocol_from-to_string}
use openlv_rs.Url.Sample.{url_libs, url_laws}
use openlv_rs.Channel.{mqtt, create_signaling_channel}
use openlv_rs.Channel.Mqtt as Mqtt
use openlv_rs.Layer.State.{new}
use openlv_rs.Session.Start.{
  SessionConfig, Libs, Draw, Started, build_session, create_session, on_request, key_or_generate,
  validate_own, protocol_text, start_with,
}

abbrev pub libs : Libs
libs = record { url = url_libs; crypto = crypto; ntfy_captures = λ url. none }

abbrev pub draw : ℕ → Draw
draw b = record { id_bytes = repeat 16 b; secret_key = repeat 32 b; key_bytes = repeat 16 b }

abbrev pub key : HandshakeKey
key = record { hex = to_hex (repeat 16 171); cipher = repeat 16 171 }

abbrev pub shop : SessionConfig
shop = record {
  connect_url = none;
  session_id = some (repeat 16 b'A');
  protocol = some SignalingProtocol.mqtt;
  server = some (text "broker");
  handshake_key = some key;
  info = none;
}

abbrev pub opened : Started ℕ ℕ ℕ ℕ ℕ ℕ
opened =
    build_session
      (record {
        session_id = repeat 16 b'A';
        key_hash =
            public_key_hash_from crypto (generate_key_pair crypto (repeat 32 66)).encryption_key;
        shared_key = key;
        signaling_protocol = SignalingProtocol.mqtt;
        signaling_server = text "broker";
      })
      true
      (new (record {
        is_host = true;
        h = hash_public_key crypto (generate_key_pair crypto (repeat 32 66)).encryption_key;
        handshake_key = some key;
        encryption_key = (generate_key_pair crypto (repeat 32 66)).encryption_key;
        decryption_key = (generate_key_pair crypto (repeat 32 66)).decryption_key;
        capabilities = record { transports = text "wrtc" ∷ []; info = none };
      }))
      (mqtt (Mqtt.new (text "broker") (repeat 16 b'A')))
      (generate_key_pair crypto (repeat 32 66)).decryption_key

pub shop-opened : on_request libs (draw 66) shop ≡ ok opened
unfolding on_request start_with create_session key_or_generate validate_own protocol_text
    create_signaling_channel init_hash
shop-opened =
    rw
      (
        protocol_from-to_string url_libs url_laws SignalingProtocol.mqtt tt,
        bytes_eq_refl
            (hash_public_key crypto (generate_key_pair crypto (repeat 32 66)).encryption_key),
      )
      refl
