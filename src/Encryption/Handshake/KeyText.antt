-- ===== src/Encryption/Handshake/KeyText.antt =====
-- Laws of handshake/mod.rs: which texts are keys, and that a sealed text opens under the same key.
use openlv_rs.Prelude.{
  ℕ, zero, suc, ◌+◌, ◌*◌, ◌/◌, ◌%◌, ◌<◌, ◌≡◌, refl, ap, sym, ◌∙◌, ◌↔◌, true, [], ◌∷◌, ◌++◌, arith,
  length, all, All, inl, inr, leb, length-append, take-append_of_length, drop-append_of_length,
}
use openlv_rs.Text.{Bytes, Text, is_utf8}
use openlv_rs.Text.Hex.{
  is_ascii_hexdigit, lowercase, to_ascii_lowercase, from_str_radix, to_hex, hex_digit,
  to_digit-is_ascii_hexdigit, radix_from, to_hex-is_ascii_hexdigit, length-to_hex,
  to_ascii_lowercase-to_hex, from_str_radix-hex_digit,
}
use openlv_rs.Errors.{ok, ok-injective, Result-cases}
use openlv_rs.Encryption.{Crypto, CryptoLaws, to_base64}
use openlv_rs.Encryption.Base64.{from_base64-to_base64}
use openlv_rs.Encryption.Handshake.{
  HandshakeKey, byte_of_chunk, key_bytes, from_hex, generate, encrypt, decrypt,
}

-- A handshake key as `HandshakeKey::generate` makes it.
pub record IsKey (key : HandshakeKey) : Type 0 where
  pub key_length : length key.cipher ≡ 16
  pub key_bytes : All (λ b. b < 256) key.cipher
  pub key_hex : key.hex ≡ to_hex key.cipher

byte_of_chunk-hex_digit :
    (b : ℕ) → b < 256 → byte_of_chunk (hex_digit (b / 16) ∷ (hex_digit (b % 16) ∷ [])) ≡ ok b
unfolding byte_of_chunk
byte_of_chunk-hex_digit b h = rw (from_str_radix-hex_digit b h, byte_of_chunk)

key_bytes-to_hex : (bytes : Bytes) → All (λ b. b < 256) bytes → key_bytes (to_hex bytes) ≡ ok bytes
unfolding key_bytes to_hex
key_bytes-to_hex [] h = refl
key_bytes-to_hex (b ∷ bytes) (h, hs) = rw (byte_of_chunk-hex_digit b h, key_bytes-to_hex bytes hs)

-- From 16 random bytes a key is generated that carries them, and its text is their lower-case
-- hexadecimal form.
pub generate_lem :
    (bytes : Bytes)
    → length bytes ≡ 16
    → All (λ b. b < 256) bytes
    → generate bytes ≡ ok (record { hex = to_hex bytes; cipher = bytes })
unfolding generate from_hex
generate_lem bytes n h = ground (
  arith,
  length-to_hex bytes,
  to_hex-is_ascii_hexdigit bytes h,
  key_bytes-to_hex bytes h,
  to_ascii_lowercase-to_hex bytes h,
)

byte_of_chunk_of_digits :
    (a b : ℕ)
    → is_ascii_hexdigit a ≡ true
    → is_ascii_hexdigit b ≡ true
    → (v : ℕ) × (byte_of_chunk (a ∷ (b ∷ [])) ≡ ok v)
      × (v < 256)
      × (hex_digit (v / 16) ≡ lowercase a)
      × (hex_digit (v % 16) ≡ lowercase b)
unfolding byte_of_chunk from_str_radix radix_from
byte_of_chunk_of_digits a b ha hb =
    let (d, hd, ld, plain, shown) = to_digit-is_ascii_hexdigit a ha in
    let (e, he, le, _, shown') = to_digit-is_ascii_hexdigit b hb in
    let high : (d * 16 + e) / 16 ≡ d = omega arith in
    let low : (d * 16 + e) % 16 ≡ e = omega arith in
    (d * 16 + e, ground arith, omega arith, rw high shown, rw low shown')

key_bytes_total :
    (n : ℕ) (hex : Text)
    → length hex ≡ n + n
    → all is_ascii_hexdigit hex ≡ true
    → (bytes : Bytes) × (key_bytes hex ≡ ok bytes)
      × (length bytes ≡ n)
      × All (λ b. b < 256) bytes
      × (to_hex bytes ≡ to_ascii_lowercase hex)
unfolding key_bytes to_hex to_ascii_lowercase
key_bytes_total zero [] l h = ([], refl, refl, tt, refl)
key_bytes_total zero (a ∷ hex) l h = absurd (omega arith)
key_bytes_total (suc n) [] l h = absurd (omega arith)
key_bytes_total (suc n) (a ∷ []) l h = absurd (omega arith)
key_bytes_total (suc n) (a ∷ (b ∷ hex)) l h =
    let (v, hv, lv, high, low) = byte_of_chunk_of_digits a b (ground arith) (ground arith) in
    let (bytes, done, lb, small, shown) = key_bytes_total n hex (omega arith) (ground arith) in
    (v ∷ bytes, rw (hv, done), ap suc lb, (lv, small), rw (high, low, shown) refl)

from_hex-accepts :
    (hex : Text)
    → length hex ≡ 32
    → all is_ascii_hexdigit hex ≡ true
    → (k : HandshakeKey) × (from_hex hex ≡ ok k) × (k.hex ≡ to_ascii_lowercase hex) × IsKey k
unfolding from_hex
from_hex-accepts hex l h =
    let (bytes, done, lb, small, shown) = key_bytes_total 16 hex l h in
    (
      record { hex = to_ascii_lowercase hex; cipher = bytes },
      ground arith,
      refl,
      record { key_length = lb; key_bytes = small; key_hex = sym shown },
    )

from_hex-needs :
    (hex : Text) (k : HandshakeKey)
    → from_hex hex ≡ ok k
    → (length hex ≡ 32) × (all is_ascii_hexdigit hex ≡ true)
unfolding from_hex
from_hex-needs hex k h = ground arith

-- A text is a handshake key exactly when it has 32 hexadecimal digits, of either case.
pub from_hex-ok_iff :
    (hex : Text)
    → ((k : HandshakeKey) × (from_hex hex ≡ ok k))
      ↔ ((length hex ≡ 32) × (all is_ascii_hexdigit hex ≡ true))
from_hex-ok_iff hex = (
  λ (k, h). from_hex-needs hex k h,
  λ (l, h). let (k, e, _, _) = from_hex-accepts hex l h in (k, e),
)

-- A parsed key is a key like a generated one, and its text is the lower case of what was parsed.
pub from_hex_lem :
    (hex : Text) (k : HandshakeKey)
    → from_hex hex ≡ ok k
    → (k.hex ≡ to_ascii_lowercase hex) × IsKey k
from_hex_lem hex k h =
    let (l, digits) = from_hex-needs hex k h in
    let (k', e, shown, i) = from_hex-accepts hex l digits in
    let same : k' ≡ k = ok-injective (sym e ∙ h) in (rw (← same) shown, rw (← same) i)

module _ (c : Crypto) where
  -- What `encrypt` gives where the cipher seals.
  pub encrypt_works :
      (k : HandshakeKey) (iv : Bytes) (message : Text) (ct : Bytes)
      → c.aes128_encrypt k.cipher iv message ≡ ok ct
      → encrypt c k iv message ≡ ok (to_base64 c (iv ++ ct))
  unfolding encrypt
  encrypt_works k iv message ct boxed = rw boxed refl

module _ (c : Crypto) (laws : CryptoLaws c) where
  -- Under the laws of the primitives, a valid text sealed under a handshake key with an
  -- initialization vector of 12 bytes opens under that key to the same text.
  pub handshake_decrypt-encrypt :
      (k : HandshakeKey) (iv : Bytes) (message sealed : Text)
      → length iv ≡ 12
      → is_utf8 message ≡ true
      → encrypt c k iv message ≡ ok sealed
      → decrypt c k sealed ≡ ok message
  handshake_decrypt-encrypt k iv message sealed n v h =
      let (ct, boxed, framed) = encrypt-eq-ok k iv message sealed h in
      rw framed
        (decrypt_lem k iv message ct n v (laws.aes128_decrypt_encrypt k.cipher iv message ct boxed))
    where
      encrypt-eq-ok :
          (k : HandshakeKey) (iv : Bytes) (message sealed : Text)
          → encrypt c k iv message ≡ ok sealed
          → (ct : Bytes) × (c.aes128_encrypt k.cipher iv message ≡ ok ct)
            × (sealed ≡ to_base64 c (iv ++ ct))
      encrypt-eq-ok k iv message sealed h =
          elim (Result-cases (c.aes128_encrypt k.cipher iv message)) [
            | inl (ct, boxed) ↦ (ct, boxed, unfold encrypt in (ground arith))
            | inr (inl (e, failed)) ↦ absurd (unfold encrypt in (ground arith))
            | inr (inr died) ↦ absurd (unfold encrypt in (ground arith))
          ]

      long : (iv ct : Bytes) → length iv ≡ 12 → leb 12 (length (iv ++ ct)) ≡ true
      long iv ct n = ground (arith, length-append {0} iv ct)

      decrypt_lem :
          (k : HandshakeKey) (iv : Bytes) (message : Text) (ct : Bytes)
          → length iv ≡ 12
          → is_utf8 message ≡ true
          → c.aes128_decrypt k.cipher iv ct ≡ ok message
          → decrypt c k (to_base64 c (iv ++ ct)) ≡ ok message
      decrypt_lem k iv message ct n v e =
          unfold decrypt in
          (rw (from_base64-to_base64 c laws (iv ++ ct)) (
            rw
              (
                take-append_of_length 12 iv ct n,
                drop-append_of_length 12 iv ct n,
                e,
                v,
                long iv ct n,
              )
              refl))
