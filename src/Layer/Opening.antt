-- ===== src/Layer/Opening.antt =====
-- The reading part of `handle_receive` of layer/mod.rs: from a frame to a valid message.
use openlv_rs.Prelude.{Option, none, some, not, if◌then◌else◌}
use openlv_rs.Text.{Text, text}
use openlv_rs.Errors.{OpenLvError, signaling, other, Result, ok, err, panic, map_err, ◌>>=◌}
use openlv_rs.Wire.{handshake, encrypted, WireFrame, is_recipient}
use openlv_rs.Message.{SignalingMessage, validate}
use openlv_rs.Encryption.Asymmetric
use openlv_rs.Encryption.Handshake
use openlv_rs.Layer.State.{SignalingInner, Platform}

module _ {V : Type 0} (p : Platform V) where
  -- The `match frame.prefix`: the plaintext, under the key that the prefix asks for.
  unfoldable pub unseal : SignalingInner V → WireFrame → Result OpenLvError Text
  unseal s frame = elim frame.prefix [
    | handshake ↦ elim s.properties.handshake_key [
      | none ↦ err (signaling (text "handshake key is required"))
      | some key ↦ Handshake.decrypt p.crypto key frame.ciphertext
    ]
    | encrypted ↦
        Asymmetric.decrypt p.crypto s.properties.decryption_key frame.ciphertext s.relying_key
  ]

  checked :
      SignalingMessage V → Result Text (Unit {0}) → Result OpenLvError (Option (SignalingMessage V))
  checked message (ok valid) = ok (some message)
  checked message (err reason) = ok none
  checked message panic = panic

  -- What the frame holds for this side: `none` for a frame to the other one and for an invalid
  -- message, which are dropped.
  unfoldable pub open_message :
      SignalingInner V → WireFrame → Result OpenLvError (Option (SignalingMessage V))
  unfolding checked unseal
  open_message s frame = if not (is_recipient frame s.properties.is_host) then ok none else (do
    plaintext ← unseal s frame
    message ← map_err other (p.from_json plaintext)
    checked message (validate p.is_object message))
