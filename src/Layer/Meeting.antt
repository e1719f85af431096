-- ===== src/Layer/Meeting.antt =====
-- Two layers of layer/mod.rs that meet on a channel: a host and a client that share the handshake
-- key of the connection URL, and the frames that they exchange.
pub mod Laws
pub mod Delivery
pub mod Stages
pub mod Sealed
pub mod Keys
pub mod Advertised
pub mod Exchange
pub mod Lossy
mod Sample
pub mod Example
mod Tests
use openlv_rs.Prelude.{ℕ, Bool, true, false, List, [], ◌∷◌, Option, none, some}
use openlv_rs.Text.{Bytes, Text}
use openlv_rs.Errors.{OpenLvError, Result}
use openlv_rs.Message.{PeerCapabilities}
use openlv_rs.Encryption.{Crypto}
use openlv_rs.Encryption.Asymmetric.{generate_key_pair}
use openlv_rs.Encryption.Handshake.{HandshakeKey}
use openlv_rs.Encryption.Hash.{hash_public_key}
use openlv_rs.Layer.State.{SignalState, SignalingProperties, Layer, Platform, Trace, new}
use openlv_rs.Layer.Sending.{setup}
use openlv_rs.Layer.Receive.{handle_receive}

-- What differs between the two sides: clock, random source and channel.
pub record Side : Type 0 where
  pub now_ms : ℕ → ℕ
  pub random_nonce : ℕ → Bytes
  pub channel_setup : ℕ → Result OpenLvError (Unit {0})
  pub channel_subscribe : ℕ → Result OpenLvError (Unit {0})
  pub channel_publish : ℕ → Text → Result OpenLvError (Unit {0})

abbrev pub on_side : {V : Type 0} → Platform V → Side → Platform V
on_side p side = record p {
  now_ms = side.now_ms;
  random_nonce = side.random_nonce;
  channel_setup = side.channel_setup;
  channel_subscribe = side.channel_subscribe;
  channel_publish = side.channel_publish;
}

-- What the two sides are made from: the handshake key, the two secrets and the capabilities.
pub record Pairing : Type 0 where
  pub handshake_key : HandshakeKey
  pub host_secret : Bytes
  pub client_secret : Bytes
  pub host_capabilities : PeerCapabilities
  pub client_capabilities : PeerCapabilities

-- The properties as `create_session` and `signaling_layer_from_version1` fill them: the client has
-- the hash of the host's key from the URL.
abbrev pub properties_of :
    Crypto → Bytes → HandshakeKey → Bool → Bytes → PeerCapabilities → SignalingProperties
properties_of c host_secret key is_host secret capabilities = record {
  is_host = is_host;
  h = hash_public_key c (generate_key_pair c host_secret).encryption_key;
  handshake_key = some key;
  encryption_key = (generate_key_pair c secret).encryption_key;
  decryption_key = (generate_key_pair c secret).decryption_key;
  capabilities = capabilities;
}

abbrev pub host_properties : Crypto → Pairing → SignalingProperties
host_properties c m =
    properties_of c m.host_secret m.handshake_key true m.host_secret m.host_capabilities

abbrev pub client_properties : Crypto → Pairing → SignalingProperties
client_properties c m =
    properties_of c m.host_secret m.handshake_key false m.client_secret m.client_capabilities

-- The frame that a layer published last.
abbrev pub newest : {V : Type 0} → Layer V → Text
newest l = elim l.trace.published [ [] ↦ [] | frame ∷ frames ↦ frame ]

pub record Pair (V : Type 0) : Type 0 where
  pub host : Layer V
  pub client : Layer V

module _ {V : Type 0} (p : Platform V) (host_side client_side : Side) where
  -- Both sides are set up, the host first.
  unfoldable pub set_up_both : Pairing → Pair V
  set_up_both m = record {
    host = (setup (on_side p host_side) (new (host_properties p.crypto m))).1;
    client = (setup (on_side p client_side) (new (client_properties p.crypto m))).1;
  }

  -- The newest frame of one side reaches the other.
  unfoldable pub client_to_host : Pair V → Pair V
  client_to_host s = record s {
    host = (handle_receive (on_side p host_side) (newest s.client) s.host).1;
  }

  unfoldable pub host_to_client : Pair V → Pair V
  host_to_client s = record s {
    client = (handle_receive (on_side p client_side) (newest s.host) s.client).1;
  }

  -- The handshake where no frame is lost: flash, the host's key, the client's key, the host's
  -- capabilities, the client's capabilities.
  unfoldable pub handshake_run : Pairing → Pair V
  unfolding set_up_both client_to_host host_to_client
  handshake_run m =
      client_to_host
        (host_to_client (client_to_host (host_to_client (client_to_host (set_up_both m)))))

  -- Two layers are set up, however they were made.
  unfoldable pub set_up_layers : Layer V → Layer V → Pair V
  set_up_layers host client = record {
    host = (setup (on_side p host_side) host).1;
    client = (setup (on_side p client_side) client).1;
  }
