-- ===== src/Encryption/Asymmetric/Delivery.antt =====
-- Sealing between generated keys succeeds, and the frame begins with the sender's key.
use openlv_rs.Prelude.{
  ◌≡◌, refl, true, ◌++◌, arith, length, leb, take-append_of_length, length-append,
}
use openlv_rs.Text.{Bytes, Text}
use openlv_rs.Errors.{ok}
use openlv_rs.Encryption.{Crypto, CryptoLaws, to_base64}
use openlv_rs.Encryption.Base64.{from_base64-to_base64}
use openlv_rs.Encryption.Asymmetric.{
  key_info, cipher, encrypt, encryption_key_from_base64, from_ciphertext, generate_key_pair,
  parse_encryption_key,
}

module _ (c : Crypto) (laws : CryptoLaws c) where
  -- What `encrypt` gives for generated keys, where the cipher seals.
  pub encrypt_works :
      (a b nonce : Bytes) (message sealed : Text)
      → c.was_contributory (c.diffie_hellman a (c.x25519_public b)) ≡ true
      → c.aes256_encrypt
          (c.hkdf_sha256
            (c.diffie_hellman a (c.x25519_public b))
            (key_info ++ (c.x25519_public a ++ c.x25519_public b)))
          nonce
          message
        ≡ ok sealed
      → encrypt c
          (generate_key_pair c a).decryption_key
          nonce
          message
          (generate_key_pair c b).encryption_key
        ≡ ok (to_base64 c (c.x25519_public a ++ (nonce ++ sealed)))
  unfolding encrypt cipher generate_key_pair
  encrypt_works a b nonce message sealed good boxed =
      rw (laws.x25519_public_length b, good, boxed) refl

  key_from_base64 :
      (a : Bytes)
      → encryption_key_from_base64 c (to_base64 c (c.x25519_public a))
        ≡ ok (generate_key_pair c a).encryption_key
  unfolding encryption_key_from_base64 generate_key_pair
  key_from_base64 a =
      rw (from_base64-to_base64 c laws (c.x25519_public a), laws.x25519_public_length a) refl

  -- A generated public key is parsed back.
  pub parse_encryption_key_generated :
      (a : Bytes)
      → parse_encryption_key c (generate_key_pair c a).encryption_key.serialized
        ≡ ok (generate_key_pair c a).encryption_key
  unfolding parse_encryption_key generate_key_pair
  parse_encryption_key_generated a = key_from_base64 a

  -- The sender of a sealed frame is read off its first bytes.
  pub from_ciphertext_sealed :
      (a rest : Bytes)
      → from_ciphertext c (to_base64 c (c.x25519_public a ++ rest))
        ≡ ok (generate_key_pair c a).encryption_key
  unfolding from_ciphertext
  from_ciphertext_sealed a rest =
      rw
        (
          from_base64-to_base64 c laws (c.x25519_public a ++ rest),
          take-append_of_length {0} 32 (c.x25519_public a) rest (laws.x25519_public_length a),
          long,
          key_from_base64 a,
        )
        refl
    where
      long : leb 32 (length (c.x25519_public a ++ rest)) ≡ true
      long = ground (arith, length-append {0} (c.x25519_public a) rest, laws.x25519_public_length a)
