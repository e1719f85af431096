-- ===== src/Encryption/Asymmetric.antt =====
-- crates/openlv/src/encryption/asymmetric/mod.rs: the peers' keys and sealed messages.
-- Random bytes (a nonce, a secret) are arguments.
pub mod Sealing
pub mod Delivery
use openlv_rs.Prelude.{
  ℕ, ◌+◌, Bool, true, false, ◌&&◌, not, List, [], ◌++◌, Option, none, some, leb, ltb, ◌==◌, length,
  take, drop, is_empty, if◌then◌else◌,
}
use openlv_rs.Text.{Bytes, Text, text, bytes_eq}
use openlv_rs.Errors.{OpenLvError, encryption, Result, ok, err, panic, ◌>>=◌, ◌>>◌, guard, map_err}
use openlv_rs.Encryption.{Crypto, to_base64, from_base64, from_utf8}

abbrev pub public_key_bytes : ℕ
public_key_bytes = 32

abbrev pub nonce_bytes : ℕ
nonce_bytes = 12

pub key_info : Bytes
key_info = text "openlv/1 peer-key"

pub record EncryptionKey : Type 0 where
  pub public_key : Bytes
  pub serialized : Text

pub record DecryptionKey : Type 0 where
  pub secret_key : Bytes
  pub public_key : Bytes
  pub serialized : Text

pub record KeyPair : Type 0 where
  pub encryption_key : EncryptionKey
  pub decryption_key : DecryptionKey

-- `peer.is_some_and(|peer| peer.as_bytes() != sender)`
differs : Option EncryptionKey → Bytes → Bool
differs none sender = false
differs (some peer) sender = not (bytes_eq peer.public_key sender)

module _ (c : Crypto) where
  unfoldable pub encryption_key_from_base64 : Text → Result OpenLvError EncryptionKey
  encryption_key_from_base64 serialized = do
    bytes ← from_base64 c serialized
    guard (length bytes == public_key_bytes) (encryption (text "public key must be 32 bytes"))
    ok (record { public_key = bytes; serialized = serialized })

  unfoldable pub from_ciphertext : Text → Result OpenLvError EncryptionKey
  from_ciphertext ciphertext = do
    bytes ← from_base64 c ciphertext
    guard (leb public_key_bytes (length bytes)) (encryption (text "encrypted payload is malformed"))
    encryption_key_from_base64 (to_base64 c (take public_key_bytes bytes))

  unfoldable pub decryption_key_from_base64 : Text → Result OpenLvError DecryptionKey
  decryption_key_from_base64 serialized = do
    bytes ← from_base64 c serialized
    guard (length bytes == public_key_bytes) (encryption (text "secret key must be 32 bytes"))
    ok (record { secret_key = bytes; public_key = c.x25519_public bytes; serialized = serialized })

  -- The cipher is its key.
  cipher : DecryptionKey → Bytes → Bytes → Result OpenLvError Bytes
  cipher self peer_public_key info = do
    guard (length peer_public_key == public_key_bytes)
        (encryption (text "public key must be 32 bytes"))
    let shared_secret = c.diffie_hellman self.secret_key peer_public_key
    guard (c.was_contributory shared_secret)
        (encryption (text "peer public key yields an all-zero shared secret"))
    ok (c.hkdf_sha256 shared_secret info)

  unfoldable pub encrypt : DecryptionKey → Bytes → Text → EncryptionKey → Result OpenLvError Text
  unfolding cipher key_info
  encrypt self nonce message peer = do
    key ← cipher self peer.public_key (key_info ++ (self.public_key ++ peer.public_key))
    ciphertext ← map_err encryption (c.aes256_encrypt key nonce message)
    ok (to_base64 c (self.public_key ++ (nonce ++ ciphertext)))

  -- The part of `decrypt` behind the decoding.
  decrypt_bytes : DecryptionKey → Option EncryptionKey → Bytes → Result OpenLvError Text
  decrypt_bytes self peer bytes = do
    guard (ltb (public_key_bytes + nonce_bytes) (length bytes))
        (encryption (text "encrypted payload is malformed"))
    let sender = take public_key_bytes bytes
    let rest = drop public_key_bytes bytes
    let nonce = take nonce_bytes rest
    let ciphertext = drop nonce_bytes rest
    guard (not (differs peer sender)) (encryption (text "sender key does not match the peer key"))
    key ← cipher self sender (key_info ++ (sender ++ self.public_key))
    plaintext ← map_err encryption (c.aes256_decrypt key nonce ciphertext)
    from_utf8 c plaintext

  unfoldable pub decrypt : DecryptionKey → Text → Option EncryptionKey → Result OpenLvError Text
  unfolding decrypt_bytes differs cipher key_info
  decrypt self message peer = do
    guard (not (is_empty message)) (encryption (text "cannot decrypt an empty payload"))
    bytes ← from_base64 c message
    decrypt_bytes self peer bytes

  -- The secret is the random draw.
  unfoldable pub generate_key_pair : Bytes → KeyPair
  generate_key_pair secret_key =
      let public_key = c.x25519_public secret_key in
      record {
        encryption_key = record { public_key = public_key; serialized = to_base64 c public_key };
        decryption_key = record {
          secret_key = secret_key;
          public_key = public_key;
          serialized = to_base64 c secret_key;
        };
      }

  unfoldable pub parse_encryption_key : Text → Result OpenLvError EncryptionKey
  parse_encryption_key serialized = encryption_key_from_base64 serialized
