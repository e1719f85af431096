-- ===== src/Layer/Receive.antt =====
-- `handle_receive` of layer/mod.rs.
pub mod Arms
pub mod Delivered
use openlv_rs.Prelude.{
  ℕ, Bool, true, false, List, [], ◌∷◌, Option, none, some, not, if◌then◌else◌, is_some,
}
use openlv_rs.Text.{Bytes, Text, text, bytes_eq}
use openlv_rs.Errors.{OpenLvError, signaling, other, Result, ok, err, panic, map_err}
use openlv_rs.Wire.{
  WirePrefix, handshake, encrypted, WireRecipient, host, client, WireFrame, parse_frame,
}
use openlv_rs.Message.{
  SignalingMessage, PubkeyPayload, PeerCapabilities, flash, pubkey, capabilities, app_data,
  validate,
}
use openlv_rs.Encryption.Asymmetric
use openlv_rs.Encryption.Asymmetric.{EncryptionKey, from_ciphertext, parse_encryption_key}
use openlv_rs.Encryption.Handshake
use openlv_rs.Encryption.Hash.{validate_public_key_hash}
use openlv_rs.Layer.State.{
  SignalState, SignalingInner, Layer, Trace, Platform, start_handshake_deadline, store_relying_key,
  store_peer_capabilities, set_state, capabilities_message, pubkey_message,
}
use openlv_rs.Layer.Opening.{open_message}
use openlv_rs.Layer.Monad.{M, continue_with, ◌>>=◌, ◌>>◌, pure, lift, modify, on_inner}
use openlv_rs.Layer.Sending.{send_message, send_repeating}

module _ {V : Type 0} (p : Platform V) where
  -- The host answers the client's flash with its public key.
  on_flash : M V (Unit {0})
  on_flash = do
    modify (set_state SignalState.handshake)
    modify (on_inner start_handshake_deadline)
    λ l. send_repeating p handshake client (pubkey_message p l) l

  -- Stores the peer's key unless one is stored, and goes on with `next` if it was.
  store_then : EncryptionKey → M V (Unit {0}) → M V (Unit {0})
  store_then key next l =
      let (s, stored) = store_relying_key key l.inner in
      if stored then next (record l { inner = s }) else (ok tt, l)

  -- The client checks the host's key against `h` and answers with its own.
  after_host_key : M V (Unit {0})
  after_host_key = do
    modify (set_state SignalState.handshake_partial)
    λ l. send_repeating p encrypted host (pubkey_message p l) l

  on_host_pubkey : PubkeyPayload → M V (Unit {0})
  unfolding store_then after_host_key
  on_host_pubkey payload = do
    received_key ← lift (parse_encryption_key p.crypto payload.public_key)
    λ l.
        continue_with (validate_public_key_hash p.crypto received_key l.inner.properties.h, l)
          λ valid.
            if not valid
            then modify (set_state SignalState.error)
            else store_then received_key after_host_key

  -- The host records the client's key, if it also sealed the frame, and advertises its capabilities.
  after_client_key : M V (Unit {0})
  after_client_key = do
    modify (set_state SignalState.handshake_partial)
    λ l. send_repeating p encrypted client (capabilities_message p l) l

  on_client_pubkey : WireFrame → PubkeyPayload → M V (Unit {0})
  unfolding store_then after_client_key
  on_client_pubkey frame payload = do
    received_key ← lift (parse_encryption_key p.crypto payload.public_key)
    sender ← lift (from_ciphertext p.crypto frame.ciphertext)
    (if not (bytes_eq sender.public_key received_key.public_key)
        then pure tt
        else store_then received_key after_client_key)

  echo_capabilities : M V (Unit {0})
  echo_capabilities l = send_message p encrypted host (capabilities_message p l) l

  -- Both sides enter the encrypted state; the client echoes its capabilities.
  on_capabilities : PeerCapabilities → M V (Unit {0})
  unfolding echo_capabilities
  on_capabilities payload = do
    modify (on_inner (store_peer_capabilities payload))
    modify (set_state SignalState.encrypted)
    λ l. if not l.inner.properties.is_host then echo_capabilities l else (ok tt, l)

  forward : V → M V (Unit {0})
  forward payload l =
      (ok tt, record l { trace = record l.trace { messages = payload ∷ l.trace.messages } })

  -- The `match (frame.prefix, &message, self.state(), is_host)`.
  unfoldable pub dispatch :
      WireFrame → WirePrefix → SignalingMessage V → SignalState → Bool → M V (Unit {0})
  unfolding on_flash on_host_pubkey on_client_pubkey on_capabilities echo_capabilities forward
      store_then after_host_key after_client_key
  dispatch frame handshake (flash payload t) SignalState.ready true = on_flash
  dispatch frame handshake (pubkey payload t) SignalState.handshake false = on_host_pubkey payload
  dispatch frame encrypted (pubkey payload t) SignalState.handshake true =
      on_client_pubkey frame payload
  dispatch frame encrypted (capabilities payload t) SignalState.handshake_partial is_host =
      on_capabilities payload
  dispatch frame encrypted (capabilities payload t) SignalState.encrypted false = echo_capabilities
  dispatch frame encrypted (app_data payload t) SignalState.encrypted is_host = forward payload
  dispatch frame prefix message state is_host = pure tt

  -- The arm runs only for a valid message of a frame to this side.
  dispatch_opened : WireFrame → Option (SignalingMessage V) → M V (Unit {0})
  dispatch_opened frame none l = (ok tt, l)
  dispatch_opened frame (some message) l =
      dispatch frame frame.prefix message l.inner.state l.inner.properties.is_host l

  unfoldable pub handle_receive : Text → M V (Unit {0})
  unfolding dispatch_opened dispatch on_flash on_host_pubkey on_client_pubkey on_capabilities
      echo_capabilities forward store_then after_host_key after_client_key
  handle_receive payload = do
    frame ← lift (parse_frame payload)
    λ l. continue_with (open_message p l.inner frame, l) (dispatch_opened frame)
