-- ===== src/Layer/Meeting/Sealed.antt =====
-- The sealed frames of the handshake: what a sealed text opens to, and how it is received.
use openlv_rs.Prelude.{◌≡◌, refl, ◌⊎◌, true, Option, none, some}
use openlv_rs.Text.{Bytes, Text}
use openlv_rs.Errors.{ok}
use openlv_rs.Wire.{encrypted, WireRecipient, compose_frame, is_recipient}
use openlv_rs.Message.{SignalingMessage, validate}
use openlv_rs.Encryption.Asymmetric
use openlv_rs.Encryption.Asymmetric.{EncryptionKey, generate_key_pair, from_ciphertext}
use openlv_rs.Layer.State.{Layer, Platform}
use openlv_rs.Layer.Opening.{unseal}
use openlv_rs.Layer.Receive.{dispatch, handle_receive}
use openlv_rs.Layer.Receive.Delivered.{open_message-eq-some, handle_receive-dispatch}
use openlv_rs.Layer.Meeting.{Side, on_side, Pairing}
use openlv_rs.Layer.Meeting.Laws.{SideLaws, PlatformLaws, PairingLaws}

module _ {V : Type 0} (p : Platform V) (laws : PlatformLaws p) (m : Pairing)
    (fine : PairingLaws p.crypto m) where
  -- A sealed text from `a` to `b` opens to the message for a receiver that knows the sender or
  -- nobody, and it names the sender.
  abbrev pub IsSealed : Bytes → Bytes → Text → SignalingMessage V → Type 0
  IsSealed a b ct msg =
      ((known : Option EncryptionKey)
        → (known ≡ none) ⊎ (known ≡ some (generate_key_pair p.crypto a).encryption_key)
        → Asymmetric.decrypt p.crypto (generate_key_pair p.crypto b).decryption_key ct known
          ≡ ok (laws.json_text msg))
      × (from_ciphertext p.crypto ct ≡ ok (generate_key_pair p.crypto a).encryption_key)

  pub contributory_back :
      p.crypto.was_contributory
        (p.crypto.diffie_hellman m.client_secret (p.crypto.x25519_public m.host_secret))
      ≡ true
  contributory_back =
      rw (laws.crypto.diffie_hellman_comm m.client_secret m.host_secret) fine.contributory

  module _ (side : Side) (works : SideLaws side) where
    -- A sealed frame for this side that opens to a valid message runs the message's arm.
    pub receive_encrypted :
        (r : WireRecipient) (ct : Text) (msg : SignalingMessage V) (l : Layer V)
        → is_recipient
            (record { prefix = encrypted; recipient = r; ciphertext = ct })
            l.inner.properties.is_host
          ≡ true
        → Asymmetric.decrypt p.crypto l.inner.properties.decryption_key ct l.inner.relying_key
          ≡ ok (laws.json_text msg)
        → validate p.is_object msg ≡ ok tt
        → handle_receive (on_side p side) (compose_frame encrypted r ct) l
          ≡ dispatch
              (on_side p side)
              (record { prefix = encrypted; recipient = r; ciphertext = ct })
              encrypted
              msg
              l.inner.state
              l.inner.properties.is_host
              l
    receive_encrypted r ct msg l mine opened valid =
        handle_receive-dispatch (on_side p side) encrypted r ct msg l (
          open_message-eq-some (on_side p side) l.inner
            (record { prefix = encrypted; recipient = r; ciphertext = ct }) (laws.json_text msg) msg
            mine (unfold unseal in (rw opened refl)) (laws.from_json_reads msg) valid)
