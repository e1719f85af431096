-- ===== src/Layer/Meeting/Example.antt =====
-- A host and a client for the tests, with working channels and the laws that they fulfil.
use openlv_rs.Prelude.{ℕ, ◌≡◌, refl, true, [], ◌∷◌, ◌++◌, none}
use openlv_rs.Text.{text}
use openlv_rs.Errors.{ok}
use openlv_rs.Sample.{repeat, tag, crypto, crypto_laws}
use openlv_rs.Message.{PeerCapabilities, is_bounded_string, validate_peer_capabilities}
use openlv_rs.Layer.State.{Platform}
use openlv_rs.Layer.Meeting.{Side, Pairing}
use openlv_rs.Layer.Meeting.Laws.{SideLaws, PlatformLaws, PairingLaws}
use openlv_rs.Layer.Meeting.Sample.{json_text, from_json, from_json-json_text, json_text-is_utf8}

abbrev pub wrtc : PeerCapabilities
wrtc = record { transports = text "wrtc" ∷ []; info = none }

abbrev pub pairing : Pairing
pairing = record {
  handshake_key = record { hex = repeat 32 b'a'; cipher = repeat 16 170 };
  host_secret = repeat 32 66;
  client_secret = repeat 32 67;
  host_capabilities = wrtc;
  client_capabilities = wrtc;
}

abbrev pub side : ℕ → Side
side start = record {
  now_ms = λ calls. start;
  random_nonce = λ calls. repeat 12 7;
  channel_setup = λ calls. ok tt;
  channel_subscribe = λ calls. ok tt;
  channel_publish = λ calls frame. ok tt;
}

pub side-SideLaws : (start : ℕ) → SideLaws (side start)
side-SideLaws start = record {
  nonce_length = λ n. refl;
  setup_works = λ n. refl;
  subscribe_works = λ n. refl;
  publish_works = λ n frame. refl;
}

-- The channel here is the one of a side that has not been filled in.
abbrev pub platform : Platform ℕ
platform = record {
  crypto = crypto;
  is_object = λ v. true;
  empty_object = 0;
  to_json = λ m. ok (json_text m);
  from_json = from_json;
  now_ms = λ calls. calls;
  random_nonce = λ calls. [];
  channel_setup = λ calls. ok tt;
  channel_subscribe = λ calls. ok tt;
  channel_publish = λ calls frame. ok tt;
  channel_teardown = λ calls. ok tt;
}

pub platform_laws : PlatformLaws platform
platform_laws = record {
  crypto = crypto_laws;
  json_text = json_text;
  to_json_works = λ m. refl;
  from_json_reads = from_json-json_text;
  json_is_utf8 = json_text-is_utf8;
  empty_is_object = refl;
  aes128_seals = λ key nonce m. (tag ++ json_text m, refl);
  aes256_seals = λ key nonce m. (tag ++ json_text m, refl);
}

wrtc-IsValid : validate_peer_capabilities wrtc ≡ ok tt
unfolding validate_peer_capabilities is_bounded_string text
wrtc-IsValid = refl

pub pairing_laws : PairingLaws crypto pairing
pairing_laws = record {
  host_valid = wrtc-IsValid;
  client_valid = wrtc-IsValid;
  contributory = refl;
}
