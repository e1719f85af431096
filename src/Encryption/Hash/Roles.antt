-- ===== src/Encryption/Hash/Roles.antt =====
-- Who is the host: the side whose key has the announced hash.
use openlv_rs.Prelude.{
  ℕ, ◌≡◌, refl, ◌↔◌, Bool, true, List, [], ◌∷◌, none, some, arith, length, take, all, length-take,
  zero, suc,
}
use openlv_rs.Text.{Text}
use openlv_rs.Text.Laws.{bytes_eq_iff, bytes_eq_refl}
use openlv_rs.Text.Hex.{is_ascii_hexdigit, to_hex, to_hex-is_ascii_hexdigit, length-to_hex}
use openlv_rs.Errors.{ok}
use openlv_rs.Encryption.{Crypto, CryptoLaws}
use openlv_rs.Encryption.Asymmetric.{EncryptionKey}
use openlv_rs.Encryption.Hash.{InitHash, hash_public_key, init_hash, validate_public_key_hash}

pub all-take : (p : ℕ → Bool) (n : ℕ) (xs : List ℕ) → all p xs ≡ true → all p (take n xs) ≡ true
all-take p zero xs h = refl
all-take p (suc n) [] h = refl
all-take p (suc n) (x ∷ xs) h = ground (arith, all-take p n xs)

module _ (c : Crypto) where
  -- The hash check accepts exactly the keys whose hash is the expected one.
  pub validate_public_key_hash_iff :
      (k : EncryptionKey) (expected : Text)
      → (validate_public_key_hash c k expected ≡ ok true) ↔ (hash_public_key c k ≡ expected)
  unfolding validate_public_key_hash
  validate_public_key_hash_iff k expected =
      ground (arith, bytes_eq_iff (hash_public_key c k) expected)

  -- A side with no hash to expect is the host and announces its own; a side given one is the host
  -- exactly when it is the hash of its own key, and it keeps the one given.
  pub init_hash_lem :
      (k : EncryptionKey) (given : Text) (r : InitHash)
      → init_hash c (some given) k ≡ ok r
      → (init_hash c none k ≡ ok (record { hash = hash_public_key c k; is_host = true }))
        × (r.hash ≡ given)
        × ((r.is_host ≡ true) ↔ (given ≡ hash_public_key c k))
  unfolding init_hash
  init_hash_lem k given r h = (
    rw (bytes_eq_refl (hash_public_key c k)),
    ground arith,
    ground (arith, bytes_eq_iff given (hash_public_key c k)),
  )

  -- Under the laws of SHA-256 a hash is 16 hexadecimal digits.
  pub hash_public_key_shape :
      CryptoLaws c
      → (k : EncryptionKey)
      → (length (hash_public_key c k) ≡ 16) × (all is_ascii_hexdigit (hash_public_key c k) ≡ true)
  unfolding hash_public_key
  hash_public_key_shape laws k = (
    omega (
      arith,
      length-take {0} 16 (to_hex (c.sha256 k.public_key)),
      length-to_hex (c.sha256 k.public_key),
      laws.sha256_length k.public_key,
    ),
    all-take is_ascii_hexdigit 16 (to_hex (c.sha256 k.public_key))
        (to_hex-is_ascii_hexdigit (c.sha256 k.public_key) (laws.sha256_bytes k.public_key)),
  )
