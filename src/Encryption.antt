-- ===== src/Encryption.antt =====
-- crates/openlv/src/encryption/mod.rs. The ciphers, the hash, the curve and base64 are other
-- crates (aes-gcm, sha2, hkdf, x25519-dalek, base64): a record of functions, with what the code
-- relies on in a second record. A failing call gives its error text.
pub mod Base64
pub mod Asymmetric
pub mod Handshake
pub mod Hash
mod Tests
use openlv_rs.Prelude.{ℕ, ◌+◌, ◌<◌, ◌≡◌, Bool, true, false, List, [], length, All, if◌then◌else◌}
use openlv_rs.Text.{Bytes, Text, is_utf8}
use openlv_rs.Errors.{OpenLvError, encryption, Result, ok, err, map_err}

pub record Crypto : Type 0 where
  pub base64_encode : Bytes → Text
  pub base64_decode : Text → Result Text Bytes
  -- key, nonce, text
  pub aes128_encrypt : Bytes → Bytes → Bytes → Result Text Bytes
  pub aes128_decrypt : Bytes → Bytes → Bytes → Result Text Bytes
  pub aes256_encrypt : Bytes → Bytes → Bytes → Result Text Bytes
  pub aes256_decrypt : Bytes → Bytes → Bytes → Result Text Bytes
  -- the X25519 public key of a secret, and the shared secret of a secret and a public key
  pub x25519_public : Bytes → Bytes
  pub diffie_hellman : Bytes → Bytes → Bytes
  pub was_contributory : Bytes → Bool
  -- input key material, info
  pub hkdf_sha256 : Bytes → Bytes → Bytes
  pub sha256 : Bytes → Bytes
  -- the text of a `FromUtf8Error`
  pub utf8_error : Bytes → Text

-- Documented behaviour of those crates.
pub record CryptoLaws (c : Crypto) : Type 0 where
  pub base64_decode_encode : (b : Bytes) → c.base64_decode (c.base64_encode b) ≡ ok b
  pub base64_decode_empty : c.base64_decode [] ≡ ok []
  pub aes128_decrypt_encrypt :
      (key nonce plain sealed : Bytes)
      → c.aes128_encrypt key nonce plain ≡ ok sealed
      → c.aes128_decrypt key nonce sealed ≡ ok plain
  pub aes256_decrypt_encrypt :
      (key nonce plain sealed : Bytes)
      → c.aes256_encrypt key nonce plain ≡ ok sealed
      → c.aes256_decrypt key nonce sealed ≡ ok plain
  -- GCM appends a tag of 16 bytes.
  pub aes256_length :
      (key nonce plain sealed : Bytes)
      → c.aes256_encrypt key nonce plain ≡ ok sealed
      → length sealed ≡ length plain + 16
  pub x25519_public_length : (s : Bytes) → length (c.x25519_public s) ≡ 32
  pub diffie_hellman_comm :
      (a b : Bytes)
      → c.diffie_hellman a (c.x25519_public b) ≡ c.diffie_hellman b (c.x25519_public a)
  pub sha256_length : (b : Bytes) → length (c.sha256 b) ≡ 32
  pub sha256_bytes : (b : Bytes) → All (λ x. x < 256) (c.sha256 b)

unfoldable pub to_base64 : Crypto → Bytes → Text
to_base64 c bytes = c.base64_encode bytes

unfoldable pub from_base64 : Crypto → Text → Result OpenLvError Bytes
from_base64 c value = map_err encryption (c.base64_decode value)

-- `String::from_utf8` with its error mapped.
abbrev pub from_utf8 : Crypto → Bytes → Result OpenLvError Text
from_utf8 c bytes = if is_utf8 bytes then ok bytes else err (encryption (c.utf8_error bytes))
