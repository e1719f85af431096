-- ===== src/Encryption/Hash.antt =====
-- crates/openlv/src/encryption/hash/mod.rs: the hash of a public key that the URL carries.
pub mod Roles
use openlv_rs.Prelude.{ℕ, Bool, Option, none, some, take}
use openlv_rs.Text.{Text, bytes_eq}
use openlv_rs.Text.Hex.{to_hex}
use openlv_rs.Errors.{OpenLvError, Result, ok}
use openlv_rs.Encryption.{Crypto}
use openlv_rs.Encryption.Asymmetric.{EncryptionKey}

abbrev pub hash_length : ℕ
hash_length = 16

pub record PublicKeyHash : Type 0 where
  pub hash : Text

pub record InitHash : Type 0 where
  pub hash : Text
  pub is_host : Bool

abbrev unwrap_or : Option Text → Text → Text
unwrap_or none d = d
unwrap_or (some a) d = a

module _ (c : Crypto) where
  -- The text is ASCII, so its first 16 characters are its first 16 bytes.
  unfoldable pub hash_public_key : EncryptionKey → Text
  hash_public_key public_key = take hash_length (to_hex (c.sha256 public_key.public_key))

  unfoldable pub public_key_hash_from : EncryptionKey → PublicKeyHash
  public_key_hash_from public_key = record { hash = hash_public_key public_key }

  unfoldable pub validate_public_key_hash : EncryptionKey → Text → Result OpenLvError Bool
  validate_public_key_hash public_key expected_hash =
      ok (bytes_eq (hash_public_key public_key) expected_hash)

  unfoldable pub init_hash : Option Text → EncryptionKey → Result OpenLvError InitHash
  init_hash initial_hash encryption_key =
      let our_hash = hash_public_key encryption_key in
      let hash = unwrap_or initial_hash our_hash in
      ok (record { hash = hash; is_host = bytes_eq hash our_hash })
