-- ===== src/Encryption/Tests.antt =====
-- Runs of the ciphers, the key texts and the hashes.
use openlv_rs.Prelude.{ℕ, ◌≡◌, refl, ◌↔◌, true, [], ◌∷◌, ◌++◌, none, some, length, all, inl}
use openlv_rs.Text.{Bytes, Text, is_utf8, bytes_eq}
use openlv_rs.Text.Hex.{to_hex, is_ascii_hexdigit}
use openlv_rs.Errors.{ok}
use openlv_rs.Sample.{repeat, tag, crypto, crypto_laws}
use openlv_rs.Encryption.{from_base64, to_base64}
use openlv_rs.Encryption.Asymmetric
use openlv_rs.Encryption.Asymmetric.{EncryptionKey, generate_key_pair, parse_encryption_key}
use openlv_rs.Encryption.Asymmetric.Sealing.{peer_decrypt-encrypt}
use openlv_rs.Encryption.Handshake
use openlv_rs.Encryption.Handshake.{HandshakeKey}
use openlv_rs.Encryption.Handshake.KeyText.{from_hex-ok_iff, handshake_decrypt-encrypt}
use openlv_rs.Encryption.Hash.{hash_public_key, validate_public_key_hash}
use openlv_rs.Encryption.Hash.Roles.{validate_public_key_hash_iff}

abbrev secret : ℕ → Bytes
secret b = repeat 32 b

abbrev nonce : Bytes
nonce = repeat 12 7

abbrev note : Text
note = b'h' ∷ (b'i' ∷ [])

abbrev sealed_note : Text
sealed_note = secret 66 ++ (nonce ++ (tag ++ note))

note-is_utf8 : is_utf8 note ≡ true
unfolding is_utf8
note-is_utf8 = refl

sent_note :
    Asymmetric.encrypt crypto
      (generate_key_pair crypto (secret 66)).decryption_key
      nonce
      note
      (generate_key_pair crypto (secret 67)).encryption_key
    ≡ ok sealed_note
unfolding Asymmetric.encrypt generate_key_pair to_base64
sent_note = refl

peer_decrypt-encrypt_example :
    Asymmetric.decrypt crypto (generate_key_pair crypto (secret 67)).decryption_key sealed_note none
    ≡ ok note
peer_decrypt-encrypt_example =
    peer_decrypt-encrypt crypto crypto_laws (secret 66) (secret 67) nonce note sealed_note none refl
      note-is_utf8 (inl refl) sent_note

opened_note :
    Asymmetric.decrypt crypto
      (generate_key_pair crypto (secret 67)).decryption_key
      sealed_note
      (some (generate_key_pair crypto (secret 66)).encryption_key)
    ≡ ok note
unfolding Asymmetric.decrypt generate_key_pair from_base64 bytes_eq is_utf8
opened_note = refl

abbrev handshake_key : HandshakeKey
handshake_key = record { hex = to_hex (repeat 16 171); cipher = repeat 16 171 }

boxed_note : Handshake.encrypt crypto handshake_key nonce note ≡ ok (nonce ++ (tag ++ note))
unfolding Handshake.encrypt to_base64
boxed_note = refl

handshake_decrypt-encrypt_example :
    Handshake.decrypt crypto handshake_key (nonce ++ (tag ++ note)) ≡ ok note
handshake_decrypt-encrypt_example =
    handshake_decrypt-encrypt crypto crypto_laws handshake_key nonce note (nonce ++ (tag ++ note))
      refl note-is_utf8 boxed_note

from_hex-ok_iff_example :
    ((k : HandshakeKey) × (Handshake.from_hex (repeat 32 65) ≡ ok k))
    ↔ ((length (repeat 32 65) ≡ 32) × (all is_ascii_hexdigit (repeat 32 65) ≡ true))
from_hex-ok_iff_example = from_hex-ok_iff (repeat 32 65)

host_key : EncryptionKey
unfolding generate_key_pair
host_key = (generate_key_pair crypto (secret 66)).encryption_key

validate_public_key_hash_iff_example :
    (validate_public_key_hash crypto host_key note ≡ ok true)
    ↔ (hash_public_key crypto host_key ≡ note)
validate_public_key_hash_iff_example = validate_public_key_hash_iff crypto host_key note
