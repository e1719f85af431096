-- ===== src/Session/Start/Joining.antt =====
-- A wallet that starts from the URL of a dApp: both signaling layers are those of one pairing.
use openlv_rs.Prelude.{
  ◌<◌, ◌≡◌, ◌≢◌, refl, sym, true, false, [], ◌∷◌, Option, none, some, arith, all, All, inl, inr,
  Bool-cases,
}
use openlv_rs.Text.{Bytes, Text, bytes_eq}
use openlv_rs.Text.Laws.{bytes_eq_iff, bytes_eq_refl}
use openlv_rs.Text.Hex.{to_hex, hex_digit, length-to_hex}
use openlv_rs.Errors.{ok, >>=-eq-ok, ok-injective}
use openlv_rs.Message.{PeerInfo, validate_peer_info}
use openlv_rs.Encryption.{CryptoLaws}
use openlv_rs.Encryption.Asymmetric.{generate_key_pair}
use openlv_rs.Encryption.Handshake.{HandshakeKey, generate, from_hex}
use openlv_rs.Encryption.Handshake.KeyText.{IsKey, generate_lem}
use openlv_rs.Encryption.Hash.{hash_public_key, init_hash, public_key_hash_from}
use openlv_rs.Encryption.Hash.Roles.{all-take, hash_public_key_shape}
use openlv_rs.Url.{
  SignalingProtocol, unsupported, Version1SessionUri, IsSessionId, is_lower_hex, UrlLibs, UrlLaws,
  generate_session_id, unwrap_or, protocol_from, to_url,
}
use openlv_rs.Url.RoundTrip.{IsNormal, IsValidUri, from_url-to_url}
use openlv_rs.Channel.{Channel, create_signaling_channel}
use openlv_rs.Channel.Ntfy.{NtfyCaptures}
use openlv_rs.Layer.State.{new}
use openlv_rs.Layer.Meeting.{Pairing, host_properties, client_properties}
use openlv_rs.Session.Start.{
  SessionConfig, Libs, Draw, Started, own_capabilities, build_session, default_server,
  create_session, connect_session_with_info, on_request, key_or_generate, validate_own,
  protocol_text, start_with,
}

to_hex-is_lower_hex :
    (bytes : Bytes) → All (λ b. b < 256) bytes → all is_lower_hex (to_hex bytes) ≡ true
unfolding to_hex hex_digit
to_hex-is_lower_hex [] h = refl
to_hex-is_lower_hex (b ∷ bytes) (h, hs) = ground (arith, to_hex-is_lower_hex bytes hs)

from_hex-IsKey : (key : HandshakeKey) → IsKey key → from_hex key.hex ≡ ok key
unfolding generate
from_hex-IsKey key i = rw i.key_hex (generate_lem key.cipher i.key_length i.key_bytes)

pub create_signaling_channel-IsNormal :
    {K H : Type 0} (u : UrlLibs) (captures : Text → Option NtfyCaptures) (p : SignalingProtocol)
    (topic server : Text) {c : Channel K H}
    → create_signaling_channel captures p topic server ≡ ok c
    → IsNormal u p
unfolding create_signaling_channel
create_signaling_channel-IsNormal u captures SignalingProtocol.mqtt topic server done = tt
create_signaling_channel-IsNormal u captures SignalingProtocol.ntfy topic server done = tt
create_signaling_channel-IsNormal u captures (unsupported value) topic server done = cc

module _ (libs : Libs) (crypto_laws : CryptoLaws libs.crypto) (url_laws : UrlLaws libs.url) where
  own_uri-IsValidUri :
      (uri : Version1SessionUri) (secret : Bytes)
      → IsSessionId uri.session_id
      → IsKey uri.shared_key
      → IsNormal libs.url uri.signaling_protocol
      → uri.key_hash.hash
        ≡ hash_public_key libs.crypto (generate_key_pair libs.crypto secret).encryption_key
      → IsValidUri libs.url uri
  unfolding hash_public_key
  own_uri-IsValidUri uri secret id key normal hash =
      let k = (generate_key_pair libs.crypto secret).encryption_key in
      record {
        session_id = id;
        hash_length = rw hash ((hash_public_key_shape libs.crypto crypto_laws k).0);
        hash_digits = rw hash (
            all-take is_lower_hex 16 (to_hex (libs.crypto.sha256 k.public_key)) (
              to_hex-is_lower_hex (libs.crypto.sha256 k.public_key)
                (crypto_laws.sha256_bytes k.public_key)));
        key_length =
            rw key.key_hex (omega (arith, length-to_hex uri.shared_key.cipher, key.key_length));
        key_digits = rw key.key_hex (to_hex-is_lower_hex uri.shared_key.cipher key.key_bytes);
        key_text = from_hex-IsKey uri.shared_key key;
        protocol = normal;
      }

abbrev pub pairing_of : Draw → Draw → HandshakeKey → Option PeerInfo → Option PeerInfo → Pairing
pairing_of dapp_draw wallet_draw key dapp_info wallet_info = record {
  handshake_key = key;
  host_secret = dapp_draw.secret_key;
  client_secret = wallet_draw.secret_key;
  host_capabilities = own_capabilities dapp_info;
  client_capabilities = own_capabilities wallet_info;
}

other_role : (hash : Text) (own : Text) → own ≢ hash → bytes_eq hash own ≡ false
other_role hash own n = elim (Bool-cases (bytes_eq hash own)) [
  | inl h ↦ absurd (n (sym ((bytes_eq_iff hash own).0 h)))
  | inr h ↦ h
]

valid_own :
    (info : Option PeerInfo)
    → ((i : PeerInfo) → info ≡ some i → validate_peer_info i ≡ ok tt)
    → validate_own info ≡ ok tt
unfolding validate_own
valid_own none h = refl
valid_own (some i) h = rw (h i refl) refl

module _ {V P D C K H : Type 0} (libs : Libs) where
  -- What a start without a URL makes.
  pub record IsDapp (draw : Draw) (config : SessionConfig) (s : Started V P D C K H) : Type 0 where
    pub id : s.uri.session_id ≡ unwrap_or config.session_id (generate_session_id draw.id_bytes)
    pub key : key_or_generate config.handshake_key draw.key_bytes ≡ ok s.uri.shared_key
    pub protocol : s.uri.signaling_protocol ≡ protocol_from libs.url (protocol_text config.protocol)
    pub server : s.uri.signaling_server ≡ unwrap_or config.server default_server
    pub hash :
        s.uri.key_hash.hash
        ≡ hash_public_key libs.crypto (generate_key_pair libs.crypto draw.secret_key).encryption_key
    pub role : s.session.is_host ≡ true
    pub layer :
        (other : Draw) (info' : Option PeerInfo)
        → s.signaling
          ≡ new (
              host_properties libs.crypto
                (pairing_of draw other s.uri.shared_key config.info info'))
    pub channel :
        create_signaling_channel libs.ntfy_captures s.uri.signaling_protocol s.uri.session_id
          s.uri.signaling_server
        ≡ ok s.channel

  pub on_request-IsDapp :
      (draw : Draw) (config : SessionConfig) (s : Started V P D C K H)
      → config.connect_url ≡ none
      → on_request libs draw config ≡ ok s
      → IsDapp draw config s
  unfolding on_request start_with create_session init_hash build_session public_key_hash_from
  on_request-IsDapp draw config s url h =
      let (valid, e0, h0) = >>=-eq-ok (validate_own config.info) _ h in
      let started = rw (url, start_with) at h0 in
      let (key, e1, h1) =
        >>=-eq-ok (key_or_generate config.handshake_key draw.key_bytes) _ started in
      let own =
        hash_public_key libs.crypto
          (generate_key_pair libs.crypto draw.secret_key).encryption_key in
      let (channel, e2, h2) =
        >>=-eq-ok
          (create_signaling_channel libs.ntfy_captures
            (protocol_from libs.url (protocol_text config.protocol))
            (unwrap_or config.session_id (generate_session_id draw.id_bytes))
            (unwrap_or config.server default_server))
          _ h1 in
      rw (← ok-injective h2) (record {
        id = refl;
        key = e1;
        protocol = refl;
        server = refl;
        hash = refl;
        role = refl;
        layer = λ other info'. rw (bytes_eq_refl own) refl;
        channel = e2;
      })

  module _ (crypto_laws : CryptoLaws libs.crypto) (url_laws : UrlLaws libs.url) where
    pub IsDapp-IsValidUri :
        {draw : Draw} {config : SessionConfig} {d : Started V P D C K H}
        → IsDapp draw config d
        → IsSessionId d.uri.session_id
        → IsKey d.uri.shared_key
        → IsValidUri libs.url d.uri
    IsDapp-IsValidUri {draw} {d = d} i id key =
        own_uri-IsValidUri libs crypto_laws url_laws d.uri draw.secret_key id key
          (create_signaling_channel-IsNormal libs.url libs.ntfy_captures d.uri.signaling_protocol
            d.uri.session_id d.uri.signaling_server i.channel)
          i.hash

    -- Under the laws of the primitives and of the URL: a dApp that started from a configuration
    -- without a URL, with an identifier that the URL pattern accepts and a key of 16 bytes in lower-
    -- case hexadecimal; a wallet whose key has another hash, that starts from the URL of the dApp
    -- with no or valid peer information. The wallet starts, with the URL of the dApp; the dApp is
    -- the host and the wallet is not; and their signaling layers are new layers of one pairing, a
    -- host and a client that share the handshake key.
    pub wallet_joins_dapp :
        (dapp_draw wallet_draw : Draw) (dapp_config wallet_config : SessionConfig)
        (d : Started V P D C K H)
        → dapp_config.connect_url ≡ none
        → on_request libs dapp_draw dapp_config ≡ ok d
        → IsSessionId d.uri.session_id
        → IsKey d.uri.shared_key
        → wallet_config.connect_url ≡ some (to_url libs.url d.uri)
        → ((i : PeerInfo) → wallet_config.info ≡ some i → validate_peer_info i ≡ ok tt)
        → hash_public_key libs.crypto
            (generate_key_pair libs.crypto wallet_draw.secret_key).encryption_key
          ≢ d.uri.key_hash.hash
        → let m =
            pairing_of dapp_draw wallet_draw d.uri.shared_key dapp_config.info wallet_config.info in
          (w : Started V P D C K H) × (on_request libs wallet_draw wallet_config ≡ ok w)
          × (w.uri ≡ d.uri)
          × (d.session.is_host ≡ true)
          × (w.session.is_host ≡ false)
          × (d.signaling ≡ new (host_properties libs.crypto m))
          × (w.signaling ≡ new (client_properties libs.crypto m))
    unfolding on_request start_with connect_session_with_info init_hash build_session
    wallet_joins_dapp dapp_draw wallet_draw dapp_config wallet_config d no_url started id key url
          valid other =
        let i = on_request-IsDapp dapp_draw dapp_config d no_url started in
        let m =
          pairing_of dapp_draw wallet_draw d.uri.shared_key dapp_config.info wallet_config.info in
        let read =
          from_url-to_url libs.url url_laws d.uri
            (IsDapp-IsValidUri {draw = dapp_draw} {config = dapp_config} {d = d} i id key) in
        let pair = generate_key_pair libs.crypto wallet_draw.secret_key in
        let role =
          other_role d.uri.key_hash.hash (hash_public_key libs.crypto pair.encryption_key) other in
        (
          build_session d.uri false (new (client_properties libs.crypto m)) d.channel
              pair.decryption_key,
          rw (valid_own wallet_config.info valid, url, start_with, read, role, i.channel, i.hash)
              refl,
          refl,
          i.role,
          refl,
          i.layer wallet_draw wallet_config.info,
          refl,
        )
