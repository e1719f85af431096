-- ===== src/Bridge/Exported/Inviting.antt =====
-- A session that is made from options, and the connection URL that it shows.
mod Tests
use openlv_rs.Prelude.{◌<◌, ◌≡◌, ◌≢◌, refl, sym, ap, ◌∙◌, Option, none, some, length, All}
use openlv_rs.Text.{Bytes, Text, text}
use openlv_rs.Text.Hex.{to_hex, to_ascii_lowercase}
use openlv_rs.Errors.{OpenLvError, Result, ok, err, panic, >>=-eq-ok, map_err-eq-ok, ok-injective}
use openlv_rs.Encryption.{CryptoLaws}
use openlv_rs.Encryption.Asymmetric.{generate_key_pair}
use openlv_rs.Encryption.Handshake.{HandshakeKey, generate, from_hex}
use openlv_rs.Encryption.Handshake.KeyText.{IsKey, from_hex_lem, generate_lem}
use openlv_rs.Encryption.Hash.{hash_public_key}
use openlv_rs.Url.{
  SignalingProtocol, IsSessionId, UrlLibs, UrlLaws, generate_session_id, unwrap_or, protocol_from,
  protocol_to_string,
}
use openlv_rs.Url.Ids.{generate_session_id-IsSessionId}
use openlv_rs.Url.RoundTrip.{IsNormal, protocol_from-to_string}
use openlv_rs.Url.Version.{version1, from_url-fmt}
use openlv_rs.Session.Start.{
  SessionConfig, Libs, Draw, dapp, on_request, default_server, default_protocol, key_or_generate,
  protocol_text,
}
use openlv_rs.Session.Start.Joining.{on_request-IsDapp, IsDapp-IsValidUri}
use openlv_rs.Bridge.{BridgeError}
use openlv_rs.Bridge.Calls.{uri}
use openlv_rs.Bridge.Requests.{new}
use openlv_rs.Bridge.Exported.{
  SessionOptions, Created, SessionUriJson, map_option, on_runtime, lower, parse_with, peer_of,
  uri_json, parse_session_uri, with_key, dapp_config, create, create_dapp,
}

some-injective : {A : Type 0} {a b : A} → ◌≡◌ {A = Option A} (some a) (some b) → a ≡ b
some-injective h = cc

none-ne-some : {A : Type 0} {a : A} → ◌≢◌ {A = Option A} none (some a)
none-ne-some h = cc

on_runtime-ok :
    {A : Type 0} (panicked : Text) (r : Result BridgeError A) {a : A}
    → on_runtime panicked r ≡ ok a
    → r ≡ ok a
unfolding on_runtime
on_runtime-ok panicked (ok a) h = h
on_runtime-ok panicked (err e) h = cc
on_runtime-ok panicked panic h = cc

-- The key that a configuration holds for the key of the options.
record Keyed (key : Option Text) (held : Option HandshakeKey) : Type 0 where
  absent : key ≡ none → held ≡ none
  present : (t : Text) → key ≡ some t → (k : HandshakeKey) × (from_hex t ≡ ok k) × (held ≡ some k)

with_key-Keyed :
    (display : OpenLvError → Text) (key : Option Text) (before after : SessionConfig)
    → before.handshake_key ≡ none
    → with_key display key before ≡ ok after
    → Keyed key after.handshake_key
      × (after ≡ record before { handshake_key = after.handshake_key })
unfolding with_key lower
with_key-Keyed display none before after fresh h =
    let same : before ≡ after = ok-injective h in
    rw (← same) ((record { absent = λ e. fresh; present = λ t e. absurd (none-ne-some e) }, refl))
with_key-Keyed display (some key) before after fresh h =
    let (k, read, h') = >>=-eq-ok (lower display (from_hex key)) _ h in
    let same : record before { handshake_key = some k } ≡ after = ok-injective h' in
    rw (← same) (
      (
        record {
          absent = λ e. absurd (none-ne-some (sym e));
          present = λ t e. (k, rw (← some-injective e) (map_err-eq-ok _ _ read), refl);
        },
        refl,
      ))

-- What the options come to.
record IsConfigured (libs : Libs) (options : SessionOptions) (config : SessionConfig) : Type 0 where
  connect_url : config.connect_url ≡ none
  session_id : config.session_id ≡ options.session_id
  protocol : config.protocol ≡ map_option (protocol_from libs.url) options.protocol
  server : config.server ≡ options.server
  key : Keyed options.handshake_key config.handshake_key

session_id-IsSessionId :
    (given : Option Text) (bytes : Bytes)
    → length bytes ≡ 16
    → ((id : Text) → given ≡ some id → IsSessionId id)
    → IsSessionId (unwrap_or given (generate_session_id bytes))
session_id-IsSessionId none bytes n h = generate_session_id-IsSessionId bytes n
session_id-IsSessionId (some id) bytes n h = h id refl

key_or_generate-IsKey :
    (given : Option Text) {held : Option HandshakeKey} (bytes : Bytes) (k : HandshakeKey)
    → length bytes ≡ 16
    → All (λ b. b < 256) bytes
    → Keyed given held
    → key_or_generate held bytes ≡ ok k
    → IsKey k
      × ((t : Text) → given ≡ some t → k.hex ≡ to_ascii_lowercase t)
      × (given ≡ none → k.hex ≡ to_hex bytes)
unfolding key_or_generate
key_or_generate-IsKey none {held} bytes k n small keyed h =
    let drawn : generate bytes ≡ ok k = rw (keyed.absent refl, key_or_generate) at h in
    let same : record { hex = to_hex bytes; cipher = bytes } ≡ k =
      ok-injective (sym (generate_lem bytes n small) ∙ drawn) in
    rw (← same) (
      (
        record { key_length = n; key_bytes = small; key_hex = refl },
        λ t e. absurd (none-ne-some e),
        λ e. refl,
      ))
key_or_generate-IsKey (some t) {held} bytes k n small keyed h =
    let (key, read, kept) = keyed.present t refl in
    let same : key ≡ k = ok-injective (rw (kept, key_or_generate) at h) in
    let (shown, i) = from_hex_lem t k (rw same at read) in
    (i, λ t' e. rw (← some-injective e) shown, λ e. absurd (none-ne-some (sym e)))

protocol_shown :
    (u : UrlLibs) (laws : UrlLaws u) (given : Option Text)
    → let shown = protocol_from u (protocol_text (map_option (protocol_from u) given)) in
      ((t : Text) → given ≡ some t → IsNormal u (protocol_from u t) → shown ≡ protocol_from u t)
      × (given ≡ none → shown ≡ SignalingProtocol.ntfy)
unfolding protocol_text default_protocol protocol_to_string
protocol_shown u laws none =
    (λ t e. absurd (none-ne-some e), λ e. protocol_from-to_string u laws SignalingProtocol.ntfy tt)
protocol_shown u laws (some t) = (
  λ t' e normal. rw (some-injective e) (protocol_from-to_string u laws (protocol_from u t') normal),
  λ e. absurd (none-ne-some (sym e)),
)

dapp_config-IsConfigured :
    (display : OpenLvError → Text) (libs : Libs) (options : SessionOptions) (config : SessionConfig)
    → dapp_config display libs options ≡ ok config
    → IsConfigured libs options config
unfolding dapp_config dapp
dapp_config-IsConfigured display libs options config h =
    let (peer, _, h1) = >>=-eq-ok (peer_of options.peer_info) _ h in
    let (made, e2, h2) = >>=-eq-ok (with_key display options.handshake_key _) _ h1 in
    let (keyed, shape) = with_key-Keyed display options.handshake_key _ made refl e2 in
    let same : record made { info = peer } ≡ config = ok-injective h2 in
    rw (← same) (record {
      connect_url = ap (λ (c : SessionConfig). c.connect_url) shape;
      session_id = ap (λ (c : SessionConfig). c.session_id) shape;
      protocol = ap (λ (c : SessionConfig). c.protocol) shape;
      server = ap (λ (c : SessionConfig). c.server) shape;
      key = keyed;
    })

module _ {V P D C K H : Type 0} (display : OpenLvError → Text) (panicked : Text) (libs : Libs)
    (draw : Draw) where
  create_dapp-started :
      (parse : Text → Result Text SessionOptions) (options_json : Text) (options : SessionOptions)
      (d : Created V P D C K H)
      → parse options_json ≡ ok options
      → create_dapp display panicked libs draw parse options_json ≡ ok d
      → (config : SessionConfig) × (dapp_config display libs options ≡ ok config)
        × (on_request libs draw config ≡ ok d.inner)
  unfolding create_dapp create parse_with lower
  create_dapp-started parse options_json options d parsed h =
      let run = on_runtime-ok panicked _ (rw (create_dapp, parsed) at h) in
      let (config, e1, h1) = >>=-eq-ok (dapp_config display libs options) _ run in
      let (inner, e2, h2) = >>=-eq-ok (lower display (on_request libs draw config)) _ h1 in
      let same : record { inner = inner; requests = new } ≡ d = ok-injective h2 in
      (config, e1, rw (← same) (map_err-eq-ok _ _ e2))

  module _ (crypto_laws : CryptoLaws libs.crypto) (url_laws : UrlLaws libs.url) where
    -- Under the laws of the primitives and of the URL, for options that are read from their JSON,
    -- with an identifier that the URL pattern accepts or none, and draws of 16 bytes: where the
    -- session is made, its URL is parsed, and the parts are those of the options. These are the
    -- identifier, or else the drawn one; the hash of the session's key; the handshake key in lower
    -- case, or else the drawn one; a protocol that is ntfy, mqtt or in lower case, or else ntfy; and
    -- the server, or else the default one.
    pub options_in_url :
        (parse : Text → Result Text SessionOptions) (options_json : Text) (options : SessionOptions)
        (d : Created V P D C K H)
        → parse options_json ≡ ok options
        → create_dapp display panicked libs draw parse options_json ≡ ok d
        → ((id : Text) → options.session_id ≡ some id → IsSessionId id)
        → length draw.id_bytes ≡ 16
        → length draw.key_bytes ≡ 16
        → All (λ b. b < 256) draw.key_bytes
        → (json : SessionUriJson) × (parse_session_uri display libs.url (uri libs.url d) ≡ ok json)
          × (json.session_id ≡ unwrap_or options.session_id (generate_session_id draw.id_bytes))
          × (json.key_hash
              ≡ hash_public_key libs.crypto
                  (generate_key_pair libs.crypto draw.secret_key).encryption_key)
          × ((t : Text)
              → options.handshake_key ≡ some t
              → json.handshake_key ≡ to_ascii_lowercase t)
          × (options.handshake_key ≡ none → json.handshake_key ≡ to_hex draw.key_bytes)
          × ((t : Text)
              → options.protocol ≡ some t
              → IsNormal libs.url (protocol_from libs.url t)
              → json.protocol ≡ protocol_to_string (protocol_from libs.url t))
          × (options.protocol ≡ none → json.protocol ≡ text "ntfy")
          × (json.server ≡ unwrap_or options.server default_server)
    unfolding parse_session_uri lower uri_json uri text protocol_to_string
    options_in_url parse options_json options d parsed made valid n m small =
        let (config, configured, started) =
          create_dapp-started parse options_json options d parsed made in
        let c = dapp_config-IsConfigured display libs options config configured in
        let i = on_request-IsDapp libs draw config d.inner c.connect_url started in
        let id_shown : d.inner.uri.session_id
            ≡ unwrap_or options.session_id (generate_session_id draw.id_bytes) =
          rw (← c.session_id) i.id in
        let (key, given_key, drawn_key) =
          key_or_generate-IsKey options.handshake_key draw.key_bytes d.inner.uri.shared_key m small
            c.key i.key in
        let protocol : d.inner.uri.signaling_protocol
            ≡ protocol_from libs.url
                (protocol_text (map_option (protocol_from libs.url) options.protocol)) =
          rw (← c.protocol) i.protocol in
        let (given_protocol, no_protocol) = protocol_shown libs.url url_laws options.protocol in
        let valid_uri =
          IsDapp-IsValidUri libs crypto_laws url_laws i
            (rw id_shown (session_id-IsSessionId options.session_id draw.id_bytes n valid)) key in
        (
          uri_json (version1 d.inner.uri),
          rw (parse_session_uri, from_url-fmt libs.url url_laws d.inner.uri valid_uri) refl,
          id_shown,
          i.hash,
          given_key,
          drawn_key,
          λ t e normal. ap protocol_to_string (protocol ∙ given_protocol t e normal),
          λ e. ap protocol_to_string (protocol ∙ no_protocol e),
          rw (← c.server) i.server,
        )
