-- ===== src/Layer/State.antt =====
-- The state of layer/mod.rs, and the operations on it that cannot fail.
use openlv_rs.Prelude.{
  ℕ, suc, Bool, true, false, List, [], ◌∷◌, Option, none, some, is_some, if◌then◌else◌,
}
use openlv_rs.Text.{Bytes, Text}
use openlv_rs.Errors.{OpenLvError, Result}
use openlv_rs.Wire.{WirePrefix, WireRecipient, host, client}
use openlv_rs.Message.{PeerCapabilities, SignalingMessage, pubkey, capabilities}
use openlv_rs.Encryption.{Crypto}
use openlv_rs.Encryption.Asymmetric.{EncryptionKey, DecryptionKey}
use openlv_rs.Encryption.Handshake.{HandshakeKey}

pub data SignalState : Type 0 where
  standby connecting ready handshake handshake_partial encrypted error : SignalState

pub record SignalingProperties : Type 0 where
  pub is_host : Bool
  pub h : Text
  pub handshake_key : Option HandshakeKey
  pub encryption_key : EncryptionKey
  pub decryption_key : DecryptionKey
  pub capabilities : PeerCapabilities

-- The message that the repeating task sends every two seconds.
pub record Repeating (V : Type 0) : Type 0 where
  pub prefix : WirePrefix
  pub recipient : WireRecipient
  pub message : SignalingMessage V

-- The fields of `SignalingInner` that change, and its properties. A task is present while its
-- handle is stored.
pub record SignalingInner (V : Type 0) : Type 0 where
  pub properties : SignalingProperties
  pub state : SignalState
  pub relying_key : Option EncryptionKey
  pub peer_capabilities : Option PeerCapabilities
  pub handshake_task : Option (Repeating V)
  pub deadline_task : Option (Unit {0})

-- What others see of the layer: the frames given to the channel, the values broadcast to the
-- subscribers of states and messages (each newest first), and the number of outside calls so far.
pub record Trace (V : Type 0) : Type 0 where
  pub published : List Text
  pub states : List SignalState
  pub messages : List V
  pub calls : ℕ

pub record Layer (V : Type 0) : Type 0 where
  pub inner : SignalingInner V
  pub trace : Trace V

-- The outside: JSON, the ciphers, the clock, the random source and the channel. The last three
-- answer by the number of the call, so that every answer may differ.
pub record Platform (V : Type 0) : Type 0 where
  pub crypto : Crypto
  pub is_object : V → Bool
  pub empty_object : V
  pub to_json : SignalingMessage V → Result Text Text
  pub from_json : Text → Result Text (SignalingMessage V)
  pub now_ms : ℕ → ℕ
  pub random_nonce : ℕ → Bytes
  pub channel_setup : ℕ → Result OpenLvError (Unit {0})
  pub channel_subscribe : ℕ → Result OpenLvError (Unit {0})
  pub channel_publish : ℕ → Text → Result OpenLvError (Unit {0})
  pub channel_teardown : ℕ → Result OpenLvError (Unit {0})

-- `SignalingLayer::new`
unfoldable pub new : {V : Type 0} → SignalingProperties → Layer V
new properties = record {
  inner = record {
    properties = properties;
    state = standby;
    relying_key = none;
    peer_capabilities = none;
    handshake_task = none;
    deadline_task = none;
  };
  trace = record { published = []; states = []; messages = []; calls = 0 };
}

-- `matches!(new_state, SignalState::Encrypted | SignalState::Error)`
abbrev pub ends_handshake : SignalState → Bool
ends_handshake encrypted = true
ends_handshake error = true
ends_handshake _ = false

abbrev pub is_encrypted : SignalState → Bool
is_encrypted encrypted = true
is_encrypted _ = false

module _ {V : Type 0} where
  abbrev pub tick : Trace V → Trace V
  tick t = record t { calls = suc t.calls }

  unfoldable pub stop_repeating : SignalingInner V → SignalingInner V
  stop_repeating s = record s { handshake_task = none }

  unfoldable pub stop_handshake_tasks : SignalingInner V → SignalingInner V
  stop_handshake_tasks s = record s { handshake_task = none; deadline_task = none }

  unfoldable pub can_encrypt : SignalingInner V → Bool
  can_encrypt s = is_some s.relying_key

  unfoldable pub remote_recipient : SignalingInner V → WireRecipient
  remote_recipient s = if s.properties.is_host then client else host

  unfoldable pub start_handshake_deadline : SignalingInner V → SignalingInner V
  start_handshake_deadline s =
      if is_some s.deadline_task then s else record s { deadline_task = some tt }

  -- The new state, and whether the key was stored: the first key stays.
  unfoldable pub store_relying_key : EncryptionKey → SignalingInner V → SignalingInner V × Bool
  store_relying_key key s =
      if is_some s.relying_key then (s, false) else (record s { relying_key = some key }, true)

  unfoldable pub store_peer_capabilities : PeerCapabilities → SignalingInner V → SignalingInner V
  store_peer_capabilities c s =
      if is_some s.peer_capabilities then s else record s { peer_capabilities = some c }

  -- The part of `set_state` on the fields.
  unfoldable pub enter : SignalState → SignalingInner V → SignalingInner V
  unfolding stop_handshake_tasks
  enter new_state s =
      let s' = record s { state = new_state } in
      if ends_handshake new_state then stop_handshake_tasks s' else s'

  unfoldable pub set_state : SignalState → Layer V → Layer V
  unfolding enter
  set_state new_state l = record {
    inner = enter new_state l.inner;
    trace = record l.trace { states = new_state ∷ l.trace.states };
  }

  unfoldable pub pubkey_message : Platform V → Layer V → SignalingMessage V
  pubkey_message p l =
      pubkey (record { public_key = l.inner.properties.encryption_key.serialized })
        (p.now_ms l.trace.calls)

  unfoldable pub capabilities_message : Platform V → Layer V → SignalingMessage V
  capabilities_message p l = capabilities l.inner.properties.capabilities (p.now_ms l.trace.calls)
