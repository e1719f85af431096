-- ===== src/Layer/Sending.antt =====
-- Sealing and publishing of layer/mod.rs, in a state and error monad.
pub mod Effects
pub mod Lifecycle
use openlv_rs.Prelude.{
  ℕ, Bool, true, false, List, [], ◌∷◌, Option, none, some, not, if◌then◌else◌, is_some,
}
use openlv_rs.Text.{Bytes, Text, text}
use openlv_rs.Errors.{OpenLvError, signaling, other, Result, ok, err, panic, map_err}
use openlv_rs.Wire.{WirePrefix, handshake, encrypted, WireRecipient, host, client, compose_frame}
use openlv_rs.Message.{SignalingMessage, flash, app_data}
use openlv_rs.Encryption.Asymmetric
use openlv_rs.Encryption.Handshake
use openlv_rs.Layer.Monad.{M, continue_with, ◌>>=◌, ◌>>◌, pure, lift, modify, on_inner, called}
use openlv_rs.Layer.State.{
  SignalState, SignalingInner, Layer, Trace, Platform, Repeating, is_encrypted, tick,
  stop_repeating, stop_handshake_tasks, can_encrypt, remote_recipient, start_handshake_deadline,
  set_state, capabilities_message, pubkey_message,
}

module _ {V : Type 0} (p : Platform V) where
  -- The `match prefix` of `send_message`: the ciphertext, under the key that the prefix asks for.
  seal : WirePrefix → Text → M V Text
  seal handshake plaintext l = elim l.inner.properties.handshake_key [
    | none ↦ (err (signaling (text "handshake key is required")), l)
    | some key ↦ (Handshake.encrypt p.crypto key (p.random_nonce l.trace.calls) plaintext, called l)
  ]
  seal encrypted plaintext l = elim l.inner.relying_key [
    | none ↦ (err (signaling (text "relying party public key not found")), l)
    | some key ↦ (
      Asymmetric.encrypt p.crypto l.inner.properties.decryption_key (p.random_nonce l.trace.calls)
          plaintext key,
      called l,
    )
  ]

  publish : Text → M V (Unit {0})
  publish frame l = (
    p.channel_publish l.trace.calls frame,
    record l { trace = record (tick l.trace) { published = frame ∷ l.trace.published } },
  )

  unfoldable pub send_message : WirePrefix → WireRecipient → SignalingMessage V → M V (Unit {0})
  unfolding seal publish
  send_message prefix recipient message = do
    plaintext ← lift (map_err other (p.to_json message))
    ciphertext ← seal prefix plaintext
    publish (compose_frame prefix recipient ciphertext)

  -- Arms the repeating task, if the first copy was sent. The source awaits the sending: what other
  -- steps see in between is in Lifecycle.
  unfoldable pub send_repeating : WirePrefix → WireRecipient → SignalingMessage V → M V (Unit {0})
  send_repeating prefix recipient message = do
    modify (on_inner stop_repeating)
    send_message prefix recipient message
    modify (
        on_inner λ s. record s {
          handshake_task =
              some (record { prefix = prefix; recipient = recipient; message = message });
        })

  -- One more round of the repeating task; a failure is only logged.
  repeat_task : Option (Repeating V) → Layer V → Layer V
  repeat_task none l = l
  repeat_task (some task) l = (send_message task.prefix task.recipient task.message l).1

  unfoldable pub repeat_once : Layer V → Layer V
  unfolding repeat_task
  repeat_once l = repeat_task l.inner.handshake_task l

  -- The deadline task after its 30 seconds.
  expire : Option (Unit {0}) → Layer V → Layer V
  expire none l = l
  expire (some armed) l = if is_encrypted l.inner.state then l else set_state SignalState.error l

  pub deadline_elapsed : Layer V → Layer V
  deadline_elapsed l = expire l.inner.deadline_task l

  -- The `else` branch of `setup`, by role.
  start_handshake : M V (Unit {0})
  start_handshake = do
    modify (set_state SignalState.ready)
    modify (set_state SignalState.handshake)
    modify (on_inner start_handshake_deadline)
    λ l. send_repeating handshake host (flash p.empty_object (p.now_ms l.trace.calls)) l

  open_channel : M V (Unit {0})
  open_channel = do
    λ l. (p.channel_setup l.trace.calls, called l)
    λ l. (p.channel_subscribe l.trace.calls, called l)

  choose_role : M V (Unit {0})
  unfolding start_handshake
  choose_role l =
      if can_encrypt l.inner
      then (ok tt, set_state SignalState.encrypted l)
      else if l.inner.properties.is_host
      then (ok tt, set_state SignalState.ready l)
      else start_handshake l

  unfoldable pub setup : M V (Unit {0})
  unfolding open_channel choose_role start_handshake
  setup = do modify (set_state SignalState.connecting); open_channel; choose_role

  unfoldable pub teardown : M V (Unit {0})
  teardown = do
    modify (on_inner stop_handshake_tasks)
    λ l. (p.channel_teardown l.trace.calls, called l)

  -- Send an application payload to the peer.
  unfoldable pub send : V → M V (Unit {0})
  send message l =
      if not (can_encrypt l.inner)
      then (err (signaling (text "cannot encrypt message before keys are exchanged")), l)
      else send_message encrypted (remote_recipient l.inner)
          (app_data message (p.now_ms l.trace.calls)) l
