-- ===== src/Channel/Tests.antt =====
-- Runs of the channels: a server URL with a token, and an MQTT channel that is set up and ended.
use openlv_rs.Prelude.{◌≡◌, refl, ◌↔◌, ◌⊎◌, Bool, true, false, Option, none, some, []}
use openlv_rs.Text.{Text, text, bytes_eq, starts_with}
use openlv_rs.Errors.{OpenLvError, ok, err}
use openlv_rs.Url.{SignalingProtocol}
use openlv_rs.Channel.Ntfy.{
  NtfyCaptures, NtfyConnectionInfo, Opening, token, parse_ntfy_url, schemes_of, query_of,
  credentials_of,
}
use openlv_rs.Channel.Ntfy.Secure.{IsTls, IsPlain, parse_ntfy_url_secure}
use openlv_rs.Channel.Mqtt.{MqttNetwork}
use openlv_rs.Channel.Mqtt as Mqtt
use openlv_rs.Channel.{
  Channel, Network, mqtt, create_signaling_channel, setup, teardown, has_client,
}
use openlv_rs.Channel.Lifecycle.{IsRefused, publish_needs_setup}

-- The groups of `ntfys://secret@host/?auth=1`.
abbrev captures : Text → Option NtfyCaptures
captures url = some (record {
  protocol = some (text "ntfys");
  user = none;
  password = some (text "secret");
  host = some (text "host");
  parameters = some (text "?auth=1");
})

abbrev info : NtfyConnectionInfo
info = record {
  host = text "host";
  protocol = text "https";
  ws_protocol = text "wss";
  credentials = some (token (text "secret"));
  parameters = some (text "?auth=1");
}

parsed : parse_ntfy_url captures [] ≡ ok info
unfolding parse_ntfy_url schemes_of query_of credentials_of text bytes_eq starts_with
parsed = refl

parse_ntfy_url_secure_example :
    (groups : NtfyCaptures) × (type : Text) × (captures [] ≡ some groups)
    × (groups.protocol ≡ some type)
    × ((IsTls type × ((text "https" ≡ text "https") × (text "wss" ≡ text "wss")))
        ⊎ (IsPlain type × ((text "https" ≡ text "http") × (text "wss" ≡ text "ws"))))
    × ((some (token (text "secret")) ≡ none) ↔ (groups.password ≡ none))
parse_ntfy_url_secure_example = parse_ntfy_url_secure captures [] info parsed

abbrev network : Network Bool
network = record {
  to_mqtt = record {
    new_client = true;
    connect = λ client server. ok tt;
    subscribe_topic = λ client topic. ok tt;
    publish_payload = λ client topic payload. ok tt;
    disconnect = λ client. err [];
  };
  to_ntfy = record {
    base64 = λ b. b;
    into_client_request = λ url. ok tt;
    header_value = λ value. ok tt;
    connect_async = λ url auth. ok tt;
    opening = Opening.opened;
    post = λ url auth body. ok tt;
  };
}

abbrev channel : Channel Bool Bool
channel = mqtt (Mqtt.new (text "server") (text "topic"))

publish_needs_setup_example :
    ((captures' : Text → Option NtfyCaptures) (protocol : SignalingProtocol) (topic server : Text)
      → create_signaling_channel captures' protocol topic server ≡ ok channel
      → IsRefused channel)
    × ((e : OpenLvError)
        → has_client channel ≡ false
        → (setup network channel).0 ≡ err e
        → IsRefused (setup network channel).1)
    × IsRefused (teardown network channel).1
    × ((setup network channel).0 ≡ ok tt → has_client (setup network channel).1 ≡ true)
publish_needs_setup_example = publish_needs_setup network channel
