-- ===== src/Encryption/Handshake.antt =====
-- crates/openlv/src/encryption/handshake/mod.rs: the key in the connection URL.
pub mod KeyText
use openlv_rs.Prelude.{
  ℕ, ◌+◌, Bool, true, false, ◌&&◌, ◌||◌, not, List, [], ◌∷◌, ◌++◌, Option, none, some, leb, ltb,
  ◌==◌, length, take, drop, all, if◌then◌else◌,
}
use openlv_rs.Text.{Bytes, Text, text, bytes_eq}
use openlv_rs.Text.Hex.{is_ascii_hexdigit, to_ascii_lowercase, from_str_radix, to_hex}
use openlv_rs.Errors.{OpenLvError, encryption, Result, ok, err, panic, ◌>>=◌, ◌>>◌, guard, map_err}
use openlv_rs.Encryption.{Crypto, to_base64, from_base64, from_utf8}

abbrev pub iv_length : ℕ
iv_length = 12

-- The cipher is its 16 key bytes.
pub record HandshakeKey : Type 0 where
  pub hex : Text
  pub cipher : Bytes

-- `==` compares the texts.
unfoldable pub handshake_key_eq : HandshakeKey → HandshakeKey → Bool
handshake_key_eq a b = bytes_eq a.hex b.hex

byte_of_chunk : Text → Result OpenLvError ℕ
byte_of_chunk value = elim (from_str_radix value 16) [
  | none ↦ err (encryption (text "invalid digit found in string"))
  | some b ↦ ok b
]

-- The loop over `chunks(2)`.
key_bytes : Text → Result OpenLvError Bytes
key_bytes [] = ok []
key_bytes (a ∷ []) = do ok ((← byte_of_chunk (a ∷ [])) ∷ [])
key_bytes (a ∷ (b ∷ rest)) = do
  value ← byte_of_chunk (a ∷ (b ∷ []))
  more ← key_bytes rest
  ok (value ∷ more)

pub from_hex : Text → Result OpenLvError HandshakeKey
from_hex hex =
    if not (length hex == 32) || not (all is_ascii_hexdigit hex)
    then err (encryption (text "handshake key must be 32 lowercase hex characters"))
    else (do bytes ← key_bytes hex; ok (record { hex = to_ascii_lowercase hex; cipher = bytes }))

-- The key bytes are the random draw.
unfoldable pub generate : Bytes → Result OpenLvError HandshakeKey
generate bytes = from_hex (to_hex bytes)

module _ (c : Crypto) where
  unfoldable pub encrypt : HandshakeKey → Bytes → Text → Result OpenLvError Text
  encrypt self iv message = do
    ciphertext ← map_err encryption (c.aes128_encrypt self.cipher iv message)
    ok (to_base64 c (iv ++ ciphertext))

  unfoldable pub decrypt : HandshakeKey → Text → Result OpenLvError Text
  decrypt self message = do
    combined ← from_base64 c message
    guard (leb iv_length (length combined)) (encryption (text "encrypted payload is too short"))
    plaintext ←
        map_err encryption
          (c.aes128_decrypt self.cipher (take iv_length combined) (drop iv_length combined))
    from_utf8 c plaintext
