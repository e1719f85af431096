-- ===== src/Encryption/Asymmetric/Sealing.antt =====
-- What asymmetric/mod.rs promises: a sealed message opens at the peer, and names its sender.
use openlv_rs.Prelude.{
  ◌≤◌, ◌≡◌, refl, true, false, ◌++◌, Option, none, some, arith, length, take, ltb, lt→ltb,
  length-append, take-append_of_length, drop-append_of_length, sym, ap, ◌∙◌, ◌⊎◌, inl, inr,
}
use openlv_rs.Text.{Bytes, Text, is_utf8}
use openlv_rs.Text.Laws.{bytes_eq_refl, bytes_eq_iff}
use openlv_rs.Errors.{
  Result, ok, err, map_err, encryption, panic, >>=-eq-ok, ok-injective, Result-cases,
}
use openlv_rs.Encryption.{Crypto, CryptoLaws, to_base64, from_base64}
use openlv_rs.Encryption.Base64.{from_base64-to_base64, is_empty-to_base64}
use openlv_rs.Encryption.Asymmetric.{
  EncryptionKey, DecryptionKey, differs, cipher, encrypt, decrypt, decrypt_bytes, key_info,
  encryption_key_from_base64, generate_key_pair, parse_encryption_key,
}

module _ (c : Crypto) where
  -- A parsed public key has 32 bytes and keeps the text that it was parsed from.
  pub parse_encryption_key-length :
      (serialized : Text) (k : EncryptionKey)
      → parse_encryption_key c serialized ≡ ok k
      → (length k.public_key ≡ 32) × (k.serialized ≡ serialized)
  unfolding parse_encryption_key encryption_key_from_base64
  parse_encryption_key-length serialized k h = ground arith

  decrypt_bytes-sender :
      (self : DecryptionKey) (peer : EncryptionKey) (bytes : Bytes) (plain : Text)
      → decrypt_bytes c self (some peer) bytes ≡ ok plain
      → (take 32 bytes ≡ peer.public_key) × (is_utf8 plain ≡ true)
  unfolding decrypt_bytes differs
  decrypt_bytes-sender self peer bytes plain h =
      ground (arith, bytes_eq_iff peer.public_key (take 32 bytes))

  decrypt-eq-ok :
      (self : DecryptionKey) (message : Text) (peer : Option EncryptionKey) (plain : Text)
      → decrypt c self message peer ≡ ok plain
      → (bytes : Bytes) × (from_base64 c message ≡ ok bytes)
        × (decrypt_bytes c self peer bytes ≡ ok plain)
  unfolding decrypt
  decrypt-eq-ok self message peer plain h = elim (Result-cases (from_base64 c message)) [
    | inl (bytes, decoded) ↦ (bytes, decoded, ground arith)
    | inr (inl (e, failed)) ↦ absurd (ground arith)
    | inr (inr died) ↦ absurd (ground arith)
  ]

  -- What opens under a known peer key is base64 of bytes that begin with that key, and the text
  -- that comes out is valid UTF-8.
  pub decrypt-sender :
      (self : DecryptionKey) (message : Text) (peer : EncryptionKey) (plain : Text)
      → decrypt c self message (some peer) ≡ ok plain
      → (bytes : Bytes) × (from_base64 c message ≡ ok bytes)
        × (take 32 bytes ≡ peer.public_key)
        × (is_utf8 plain ≡ true)
  decrypt-sender self message peer plain h =
      let (bytes, decoded, opened) = decrypt-eq-ok self message (some peer) plain h in
      let (same, valid) = decrypt_bytes-sender self peer bytes plain opened in
      (bytes, decoded, same, valid)

module _ (c : Crypto) (laws : CryptoLaws c) where
  -- The shared cipher of two generated key pairs is the same on both sides.
  cipher_agrees :
      (a b : Bytes) (info : Bytes)
      → cipher c (generate_key_pair c a).decryption_key (c.x25519_public b) info
        ≡ cipher c (generate_key_pair c b).decryption_key (c.x25519_public a) info
  unfolding cipher generate_key_pair
  cipher_agrees a b info =
      rw (laws.x25519_public_length a, laws.x25519_public_length b, laws.diffie_hellman_comm a b)

  decrypt_lem :
      (self : DecryptionKey) (peer : Option EncryptionKey) (bytes : Bytes)
      → 1 ≤ length bytes
      → decrypt c self (to_base64 c bytes) peer ≡ decrypt_bytes c self peer bytes
  unfolding decrypt
  decrypt_lem self peer bytes l =
      rw (is_empty-to_base64 c laws bytes l, from_base64-to_base64 c laws bytes)

  encrypt-eq-ok :
      (self : DecryptionKey) (nonce : Bytes) (message : Text) (peer : EncryptionKey) (sealed : Text)
      → encrypt c self nonce message peer ≡ ok sealed
      → (key : Bytes) × (cipher c self peer.public_key
            (key_info ++ (self.public_key ++ peer.public_key))
          ≡ ok key)
        × (ct : Bytes) × (c.aes256_encrypt key nonce message ≡ ok ct)
        × (sealed ≡ to_base64 c (self.public_key ++ (nonce ++ ct)))
  unfolding encrypt
  encrypt-eq-ok self nonce message peer sealed h =
      let (key, keyed, h1) = >>=-eq-ok (cipher c self peer.public_key _) _ h in
      let (ct, boxed, h2) =
        >>=-eq-ok (map_err encryption (c.aes256_encrypt key nonce message)) _ h1 in
      (
        key,
        keyed,
        ct,
        map_err-eq-ok (c.aes256_encrypt key nonce message) boxed,
        sym (ok-injective h2),
      )
    where
      map_err-eq-ok : (r : Result Text Bytes) {b : Bytes} → map_err encryption r ≡ ok b → r ≡ ok b
      map_err-eq-ok (ok a) e = ap ok (ok-injective e)
      map_err-eq-ok (err a) e = cc
      map_err-eq-ok panic e = cc

  decrypt_bytes_of_parts :
      (self : DecryptionKey) (peer : Option EncryptionKey) (sender nonce ct key : Bytes)
      (plain : Text)
      → length sender ≡ 32
      → length nonce ≡ 12
      → 1 ≤ length ct
      → differs peer sender ≡ false
      → cipher c self sender (key_info ++ (sender ++ self.public_key)) ≡ ok key
      → c.aes256_decrypt key nonce ct ≡ ok plain
      → is_utf8 plain ≡ true
      → decrypt_bytes c self peer (sender ++ (nonce ++ ct)) ≡ ok plain
  unfolding decrypt_bytes
  decrypt_bytes_of_parts self peer sender nonce ct key plain ls ln lc same keyed opened valid =
      rw
        (
          take-append_of_length 32 sender (nonce ++ ct) ls,
          drop-append_of_length 32 sender (nonce ++ ct) ls,
        )
        (rw
          (
            take-append_of_length 12 nonce ct ln,
            drop-append_of_length 12 nonce ct ln,
            same,
            keyed,
            opened,
            valid,
            long,
          )
          refl)
    where
      long : ltb 44 (length (sender ++ (nonce ++ ct))) ≡ true
      long =
          lt→ltb _ _
            (omega (arith, length-append {0} sender (nonce ++ ct), length-append {0} nonce ct))

  -- Under the laws of the primitives, a valid text sealed with a nonce of 12 bytes, between
  -- generated keys, opens at the receiver to the same text, whether the receiver knows no peer key
  -- yet or the sender's.
  pub peer_decrypt-encrypt :
      (a b nonce : Bytes) (message sealed : Text) (known : Option EncryptionKey)
      → length nonce ≡ 12
      → is_utf8 message ≡ true
      → (known ≡ none) ⊎ (known ≡ some (generate_key_pair c a).encryption_key)
      → encrypt c
          (generate_key_pair c a).decryption_key
          nonce
          message
          (generate_key_pair c b).encryption_key
        ≡ ok sealed
      → decrypt c (generate_key_pair c b).decryption_key sealed known ≡ ok message
  unfolding generate_key_pair
  peer_decrypt-encrypt a b nonce message sealed known n v k h =
      let (key, keyed, ct, boxed, framed) = encrypt-eq-ok _ nonce message _ sealed h in
      rw framed (
        decrypt_of_bytes known _
          (omega (
            arith,
            length-append {0} (c.x25519_public a) (nonce ++ ct),
            laws.x25519_public_length a,
          ))
          (unfold generate_key_pair in
            (decrypt_bytes_of_parts _ known (c.x25519_public a) nonce ct key message
              (laws.x25519_public_length a) n
              (omega (arith, laws.aes256_length key nonce message ct boxed)) (sender_matches k)
              (sym (cipher_agrees a b _) ∙ keyed)
              (laws.aes256_decrypt_encrypt key nonce message ct boxed) v)))
    where
      decrypt_of_bytes :
          (peer : Option EncryptionKey) (bytes : Bytes)
          → 1 ≤ length bytes
          → decrypt_bytes c (generate_key_pair c b).decryption_key peer bytes ≡ ok message
          → decrypt c (generate_key_pair c b).decryption_key (to_base64 c bytes) peer ≡ ok message
      decrypt_of_bytes peer bytes l e =
          rw (decrypt_lem (generate_key_pair c b).decryption_key peer bytes l) e

      sender_matches :
          (known ≡ none) ⊎ (known ≡ some (generate_key_pair c a).encryption_key)
          → differs known (c.x25519_public a) ≡ false
      sender_matches (inl e) = rw e (unfold differs in refl)
      sender_matches (inr e) =
          rw e (unfold differs generate_key_pair in (rw (bytes_eq_refl (c.x25519_public a))))
