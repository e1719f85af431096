-- ===== src/Layer/Meeting/Delivery.antt =====
-- A frame that one side sends is what the other side opens.
use openlv_rs.Prelude.{suc, ◌≡◌, refl, ◌⊎◌, true, ◌∷◌, ◌++◌, Option, none, some}
use openlv_rs.Text.{Bytes, Text}
use openlv_rs.Errors.{ok}
use openlv_rs.Wire.{handshake, encrypted, WireRecipient, compose_frame}
use openlv_rs.Message.{SignalingMessage}
use openlv_rs.Encryption.{to_base64}
use openlv_rs.Encryption.Asymmetric
use openlv_rs.Encryption.Asymmetric.{
  EncryptionKey, DecryptionKey, generate_key_pair, from_ciphertext,
}
use openlv_rs.Encryption.Asymmetric.Delivery.{encrypt_works, from_ciphertext_sealed}
use openlv_rs.Encryption.Asymmetric.Sealing.{peer_decrypt-encrypt}
use openlv_rs.Encryption.Handshake
use openlv_rs.Encryption.Handshake.{HandshakeKey}
use openlv_rs.Encryption.Handshake.KeyText.{
  encrypt_works as handshake_encrypt_works, handshake_decrypt-encrypt,
}
use openlv_rs.Layer.State.{Layer, Platform, Trace}
use openlv_rs.Layer.Sending.{send_message}
use openlv_rs.Layer.Meeting.{Side, on_side}
use openlv_rs.Layer.Meeting.Laws.{SideLaws, PlatformLaws}

-- After a frame was sealed and published: two calls of the outside.
abbrev pub framed : {V : Type 0} → Text → Trace V → Trace V
framed frame t = record t { published = frame ∷ t.published; calls = suc (suc t.calls) }

abbrev pub with_frame : {V : Type 0} → Text → Layer V → Layer V
with_frame frame l = record l { trace = framed frame l.trace }

module _ {V : Type 0} (p : Platform V) (laws : PlatformLaws p) (side : Side)
    (works : SideLaws side) where
  -- A handshake frame is published, and the handshake key opens it to the message's JSON.
  pub send_handshake :
      (k : HandshakeKey) (r : WireRecipient) (m : SignalingMessage V) (l : Layer V)
      → l.inner.properties.handshake_key ≡ some k
      → (ct : Text) × (send_message (on_side p side) handshake r m l
          ≡ (ok tt, with_frame (compose_frame handshake r ct) l))
        × (Handshake.decrypt p.crypto k ct ≡ ok (laws.json_text m))
  unfolding send_message
  send_handshake k r m l e =
      let nonce = side.random_nonce l.trace.calls in
      let (sealed, boxed) = laws.aes128_seals k.cipher nonce m in
      let done = handshake_encrypt_works p.crypto k nonce (laws.json_text m) sealed boxed in
      (
        to_base64 p.crypto (nonce ++ sealed),
        rw
            (
              laws.to_json_works m,
              e,
              done,
              works.publish_works (suc l.trace.calls)
                  (compose_frame handshake r (to_base64 p.crypto (nonce ++ sealed))),
            )
            refl,
        handshake_decrypt-encrypt p.crypto laws.crypto k nonce (laws.json_text m)
            (to_base64 p.crypto (nonce ++ sealed)) (works.nonce_length l.trace.calls)
            (laws.json_is_utf8 m) done,
      )

  -- A sealed frame is published, the receiver opens it, knowing the sender or nobody, and it
  -- names the sender.
  pub send_encrypted :
      (a b : Bytes) (r : WireRecipient) (m : SignalingMessage V) (l : Layer V)
      → l.inner.properties.decryption_key ≡ (generate_key_pair p.crypto a).decryption_key
      → l.inner.relying_key ≡ some (generate_key_pair p.crypto b).encryption_key
      → p.crypto.was_contributory (p.crypto.diffie_hellman a (p.crypto.x25519_public b)) ≡ true
      → (ct : Text) × (send_message (on_side p side) encrypted r m l
          ≡ (ok tt, with_frame (compose_frame encrypted r ct) l))
        × ((known : Option EncryptionKey)
            → (known ≡ none) ⊎ (known ≡ some (generate_key_pair p.crypto a).encryption_key)
            → Asymmetric.decrypt p.crypto (generate_key_pair p.crypto b).decryption_key ct known
              ≡ ok (laws.json_text m))
        × (from_ciphertext p.crypto ct ≡ ok (generate_key_pair p.crypto a).encryption_key)
  unfolding send_message
  send_encrypted a b r m l own known good =
      let nonce = side.random_nonce l.trace.calls in
      let key =
        p.crypto.hkdf_sha256 (p.crypto.diffie_hellman a (p.crypto.x25519_public b))
          (Asymmetric.key_info ++ (p.crypto.x25519_public a ++ p.crypto.x25519_public b)) in
      let (sealed, boxed) = laws.aes256_seals key nonce m in
      let done =
        encrypt_works p.crypto laws.crypto a b nonce (laws.json_text m) sealed good boxed in
      let ct = to_base64 p.crypto (p.crypto.x25519_public a ++ (nonce ++ sealed)) in
      (
        ct,
        rw
            (
              laws.to_json_works m,
              known,
              own,
              done,
              works.publish_works (suc l.trace.calls) (compose_frame encrypted r ct),
            )
            refl,
        (λ k who.
            peer_decrypt-encrypt p.crypto laws.crypto a b nonce (laws.json_text m) ct k
              (works.nonce_length l.trace.calls) (laws.json_is_utf8 m) who done),
        from_ciphertext_sealed p.crypto laws.crypto a (nonce ++ sealed),
      )
