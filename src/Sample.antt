-- ===== src/Sample.antt =====
-- Concrete functions for the parameters of the model, on which the tests run: ciphers that add a
-- tag, a base64 that changes nothing, and keys that are their own public keys. They fulfil the
-- laws that the theorems assume.
use openlv_rs.Prelude.{
  ℕ, zero, suc, ◌+◌, ◌%◌, ◌<◌, ◌≡◌, refl, true, [], ◌∷◌, ◌++◌, arith, length, length-append,
  length-take, take, drop, map, All, ap,
}
use openlv_rs.Text.{Bytes, Text}
use openlv_rs.Errors.{Result, ok, ok-injective}
use openlv_rs.Encryption.{Crypto, CryptoLaws}

abbrev pub repeat : ℕ → ℕ → Bytes
repeat zero b = []
repeat (suc n) b = b ∷ repeat n b

abbrev pub tag : Bytes
tag = repeat 16 0

-- A text of at least 32 bytes: the first 32.
abbrev pub first_32 : Bytes → Bytes
first_32 b = take 32 (b ++ repeat 32 65)

abbrev pub crypto : Crypto
crypto = record {
  base64_encode = λ b. b;
  base64_decode = λ t. ok t;
  aes128_encrypt = λ key nonce plain. ok (tag ++ plain);
  aes128_decrypt = λ key nonce sealed. ok (drop 16 sealed);
  aes256_encrypt = λ key nonce plain. ok (tag ++ plain);
  aes256_decrypt = λ key nonce sealed. ok (drop 16 sealed);
  x25519_public = first_32;
  diffie_hellman = λ secret public. [];
  was_contributory = λ shared. true;
  hkdf_sha256 = λ key info. key;
  sha256 = λ b. map (λ x. x % 256) (first_32 b);
  utf8_error = λ b. [];
}

tagged :
    (plain sealed : Bytes)
    → ◌≡◌ {A = Result Text Bytes} (ok (tag ++ plain)) (ok sealed)
    → ◌≡◌ {A = Result Text Bytes} (ok (drop 16 sealed)) (ok plain)
tagged plain sealed h = rw (← ok-injective h) refl

length-tagged :
    (plain sealed : Bytes)
    → ◌≡◌ {A = Result Text Bytes} (ok (tag ++ plain)) (ok sealed)
    → length sealed ≡ length plain + 16
length-tagged plain sealed h = omega (arith, ap length (ok-injective h))

length-first_32 : (b : Bytes) → length (first_32 b) ≡ 32
length-first_32 b =
    omega (arith, length-take {0} 32 (b ++ repeat 32 65), length-append {0} b (repeat 32 65))

length-reduced : (b : Bytes) → length (map (λ x. x % 256) b) ≡ length b
length-reduced [] = refl
length-reduced (x ∷ b) = omega (arith, length-reduced b)

All-reduced : (b : Bytes) → All (λ x. x < 256) (map (λ x. x % 256) b)
All-reduced [] = tt
All-reduced (x ∷ b) = (omega arith, All-reduced b)

pub crypto_laws : CryptoLaws crypto
crypto_laws = record {
  base64_decode_encode = λ b. refl;
  base64_decode_empty = refl;
  aes128_decrypt_encrypt = λ key nonce. tagged;
  aes256_decrypt_encrypt = λ key nonce. tagged;
  aes256_length = λ key nonce. length-tagged;
  x25519_public_length = length-first_32;
  diffie_hellman_comm = λ a b. refl;
  sha256_length = λ b. omega (arith, length-reduced (first_32 b), length-first_32 b);
  sha256_bytes = λ b. All-reduced (first_32 b);
}
