-- ===== src/Session/Start.antt =====
-- The start of a session in session/mod.rs: the configuration, and the two ways that a session is
-- made. The request handler plays no part here. Random bytes are arguments.
pub mod Joining
pub mod Linking
pub mod Sample
mod Tests
use openlv_rs.Prelude.{Bool, true, false, [], ◌∷◌, Option, none, some}
use openlv_rs.Text.{Bytes, Text, text}
use openlv_rs.Errors.{OpenLvError, session, Result, ok, err, panic, ◌>>=◌, ◌>>◌, map_err}
use openlv_rs.Message.{PeerInfo, PeerCapabilities, validate_peer_info}
use openlv_rs.Encryption.{Crypto}
use openlv_rs.Encryption.Asymmetric.{DecryptionKey, KeyPair, generate_key_pair}
use openlv_rs.Encryption.Handshake.{HandshakeKey, generate}
use openlv_rs.Encryption.Hash.{InitHash, init_hash, public_key_hash_from}
use openlv_rs.Url.{
  SignalingProtocol, Version1SessionUri, UrlLibs, generate_session_id, unwrap_or,
  protocol_to_string, protocol_from, from_url,
}
use openlv_rs.Channel.{Channel, create_signaling_channel}
use openlv_rs.Channel.Ntfy.{NtfyCaptures}
use openlv_rs.Layer.State.{SignalState, SignalingProperties, Layer}
use openlv_rs.Layer.State as Layer
use openlv_rs.Control as Control
use openlv_rs.Transport.Webrtc.{TransportLayer, TransportState}
use openlv_rs.Session.{Session, SessionState}

pub record SessionInitParameters : Type 0 where
  pub session_id : Option Text
  pub h : Option Text
  pub k : Option HandshakeKey
  pub p : Option Text
  pub s : Option Text
  pub info : Option PeerInfo

pub record SessionConfig : Type 0 where
  pub connect_url : Option Text
  pub session_id : Option Text
  pub protocol : Option SignalingProtocol
  pub server : Option Text
  pub handshake_key : Option HandshakeKey
  pub info : Option PeerInfo

unfoldable pub dapp : SessionConfig
dapp = record {
  connect_url = none;
  session_id = none;
  protocol = none;
  server = none;
  handshake_key = none;
  info = none;
}

unfoldable pub wallet : Text → SessionConfig
wallet url = record {
  connect_url = some url;
  session_id = none;
  protocol = none;
  server = none;
  handshake_key = none;
  info = none;
}

-- `SessionConfig::info`
unfoldable pub with_info : PeerInfo → SessionConfig → SessionConfig
with_info info config = record config { info = some info }

-- The regular expressions, the ciphers, and the random draws of one start.
pub record Libs : Type 0 where
  pub url : UrlLibs
  pub crypto : Crypto
  pub ntfy_captures : Text → Option NtfyCaptures

pub record Draw : Type 0 where
  pub id_bytes : Bytes
  pub secret_key : Bytes
  pub key_bytes : Bytes

-- A session with its URL, and the signaling layer with its channel, of which `Session` keeps what
-- it reads.
pub record Started (V P D C K H : Type 0) : Type 0 where
  pub uri : Version1SessionUri
  pub signaling : Layer V
  pub channel : Channel K H
  pub session : Session V P D C

unfoldable pub default_protocol : Text
default_protocol = text "ntfy"

unfoldable pub default_server : Text
default_server = text "https://ntfy.sh/"

abbrev pub own_capabilities : Option PeerInfo → PeerCapabilities
own_capabilities info = record { transports = text "wrtc" ∷ []; info = info }

unfoldable pub key_or_generate : Option HandshakeKey → Bytes → Result OpenLvError HandshakeKey
key_or_generate (some key) bytes = ok key
key_or_generate none bytes = generate bytes

validate_own : Option PeerInfo → Result OpenLvError (Unit {0})
validate_own none = ok tt
validate_own (some info) = map_err session (validate_peer_info info)

unfoldable pub protocol_text : Option SignalingProtocol → Text
unfolding default_protocol
protocol_text none = default_protocol
protocol_text (some p) = protocol_to_string p

-- crates/openlv/src/transport/webrtc.rs, `TransportLayer::new`
unfoldable pub new_transport : {P D C : Type 0} → Bool → TransportLayer P D C
new_transport is_host = record {
  is_host = is_host;
  state = TransportState.standby;
  peer_connection = none;
  data_channel = none;
  pending_candidates = [];
  unflushed = false;
  events = [];
  states = [];
}

-- crates/openlv/src/signaling/mod.rs
unfoldable pub signaling_layer_from_version1 :
    {V K H : Type 0}
    → Libs
    → Version1SessionUri
    → KeyPair
    → Bool
    → PeerCapabilities
    → Result OpenLvError (Channel K H × Layer V)
signaling_layer_from_version1 libs version1 key_pair is_host capabilities = do
  channel ←
      create_signaling_channel libs.ntfy_captures version1.signaling_protocol version1.session_id
        version1.signaling_server
  ok (
    channel,
    Layer.new (record {
      is_host = is_host;
      h = version1.key_hash.hash;
      handshake_key = some version1.shared_key;
      encryption_key = key_pair.encryption_key;
      decryption_key = key_pair.decryption_key;
      capabilities = capabilities;
    }),
  )

module _ {V P D C K H : Type 0} where
  unfoldable pub build_session :
      Version1SessionUri → Bool → Layer V → Channel K H → DecryptionKey → Started V P D C K H
  unfolding new_transport
  build_session uri is_host signaling channel decryption_key = record {
    uri = uri;
    signaling = signaling;
    channel = channel;
    session = record {
      is_host = is_host;
      status = SessionState.created;
      error = none;
      peer_closed = false;
      signal_state = signaling.inner.state;
      relying_key = signaling.inner.relying_key;
      peer_capabilities = signaling.inner.peer_capabilities;
      decryption_key = decryption_key;
      transport = new_transport is_host;
      control = Control.new;
      states = [];
      responses = [];
      requests = [];
      handlers = [];
      calls = 0;
    };
  }

  module _ (libs : Libs) (draw : Draw) where
    unfoldable pub create_session : SessionInitParameters → Result OpenLvError (Started V P D C K H)
    unfolding key_or_generate default_protocol default_server
    create_session init = do
      let session_id = unwrap_or init.session_id (generate_session_id draw.id_bytes)
      let key_pair = generate_key_pair libs.crypto draw.secret_key
      handshake_key ← key_or_generate init.k draw.key_bytes
      hash ← init_hash libs.crypto init.h key_pair.encryption_key
      let protocol = protocol_from libs.url (unwrap_or init.p default_protocol)
      let server = unwrap_or init.s default_server
      channel ← create_signaling_channel libs.ntfy_captures protocol session_id server
      ok (
          build_session
            (record {
              session_id = session_id;
              key_hash = public_key_hash_from libs.crypto key_pair.encryption_key;
              shared_key = handshake_key;
              signaling_protocol = protocol;
              signaling_server = server;
            })
            true
            (Layer.new (record {
              is_host = hash.is_host;
              h = hash.hash;
              handshake_key = some handshake_key;
              encryption_key = key_pair.encryption_key;
              decryption_key = key_pair.decryption_key;
              capabilities = own_capabilities init.info;
            }))
            channel key_pair.decryption_key)

    unfoldable pub connect_session_with_info :
        Text → Option PeerInfo → Result OpenLvError (Started V P D C K H)
    unfolding signaling_layer_from_version1
    connect_session_with_info connection_url info = do
      uri ← from_url libs.url connection_url
      let key_pair = generate_key_pair libs.crypto draw.secret_key
      hash ← init_hash libs.crypto (some uri.key_hash.hash) key_pair.encryption_key
      signaling ←
          signaling_layer_from_version1 libs uri key_pair hash.is_host (own_capabilities info)
      ok (build_session uri hash.is_host signaling.1 signaling.0 key_pair.decryption_key)

    start_with : Option Text → SessionConfig → Result OpenLvError (Started V P D C K H)
    unfolding protocol_text default_server
    start_with (some url) self = connect_session_with_info url self.info
    start_with none self = create_session (record {
      session_id = self.session_id;
      h = none;
      k = self.handshake_key;
      p = some (protocol_text self.protocol);
      s = some (unwrap_or self.server default_server);
      info = self.info;
    })

    unfoldable pub on_request : SessionConfig → Result OpenLvError (Started V P D C K H)
    unfolding validate_own start_with
    on_request self = do validate_own self.info; start_with self.connect_url self
