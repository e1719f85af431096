-- ===== src/Bridge/Exported/Inviting/Tests.antt =====
-- A dApp that another language opens over MQTT, with its options.
use openlv_rs.Prelude.{ℕ, ◌≡◌, refl, [], none, some, arith}
use openlv_rs.Text.{Text, text}
use openlv_rs.Text.Hex.{to_hex, to_ascii_lowercase}
use openlv_rs.Errors.{OpenLvError, Result, ok}
use openlv_rs.Sample.{repeat, crypto, crypto_laws}
use openlv_rs.Encryption.Asymmetric.{generate_key_pair}
use openlv_rs.Encryption.Handshake.{generate, from_hex}
use openlv_rs.Encryption.Handshake.KeyText.{generate_lem}
use openlv_rs.Encryption.Hash.{hash_public_key}
use openlv_rs.Url.{
  SignalingProtocol, IsSessionId, is_url_safe, generate_session_id, unwrap_or, protocol_from,
  protocol_to_string,
}
use openlv_rs.Url.RoundTrip.{IsNormal, protocol_from-to_string}
use openlv_rs.Url.Sample.{url_libs, url_laws}
use openlv_rs.Session.Start.{dapp, default_server}
use openlv_rs.Session.Start.Sample.{libs, draw, key, opened, shop-opened}
use openlv_rs.Bridge.Requests.{new}
use openlv_rs.Bridge.Calls.{uri}
use openlv_rs.Bridge.Exported.{
  SessionOptions, Created, SessionUriJson, parse_session_uri, on_runtime, lower, parse_with,
  peer_of, with_key, dapp_config, create, create_dapp,
}
use openlv_rs.Bridge.Exported.Inviting.{options_in_url}

abbrev display : OpenLvError → Text
display e = []

abbrev options : SessionOptions
options = record {
  session_id = some (repeat 16 b'A');
  protocol = some (text "mqtt");
  server = some (text "broker");
  handshake_key = some (to_hex (repeat 16 171));
  peer_info = none;
}

abbrev parse : Text → Result Text SessionOptions
parse t = ok options

abbrev made : Created ℕ ℕ ℕ ℕ ℕ ℕ
made = record { inner = opened; requests = new }

read_key : from_hex (to_hex (repeat 16 171)) ≡ ok key
unfolding generate
read_key = generate_lem (repeat 16 171) refl (ground arith)

read_protocol : protocol_from url_libs (text "mqtt") ≡ SignalingProtocol.mqtt
unfolding protocol_to_string
read_protocol = protocol_from-to_string url_libs url_laws SignalingProtocol.mqtt tt

made-created : create_dapp display [] libs (draw 66) parse [] ≡ ok made
unfolding create_dapp dapp_config with_key create lower on_runtime parse_with peer_of dapp
made-created = rw (read_key, read_protocol, shop-opened) refl

valid_id : (id : Text) → options.session_id ≡ some id → IsSessionId id
unfolding is_url_safe
valid_id id e = let same : repeat 16 b'A' ≡ id = cc in rw (← same) ((refl, refl))

options_in_url_example :
    (json : SessionUriJson) × (parse_session_uri display url_libs (uri url_libs made) ≡ ok json)
    × (json.session_id ≡ unwrap_or options.session_id (generate_session_id (repeat 16 66)))
    × (json.key_hash
        ≡ hash_public_key crypto (generate_key_pair crypto (repeat 32 66)).encryption_key)
    × ((t : Text) → options.handshake_key ≡ some t → json.handshake_key ≡ to_ascii_lowercase t)
    × (options.handshake_key ≡ none → json.handshake_key ≡ to_hex (repeat 16 66))
    × ((t : Text)
        → options.protocol ≡ some t
        → IsNormal url_libs (protocol_from url_libs t)
        → json.protocol ≡ protocol_to_string (protocol_from url_libs t))
    × (options.protocol ≡ none → json.protocol ≡ text "ntfy")
    × (json.server ≡ unwrap_or options.server default_server)
options_in_url_example =
    options_in_url display [] libs (draw 66) crypto_laws url_laws parse [] options made refl
      made-created valid_id refl refl (ground arith)
