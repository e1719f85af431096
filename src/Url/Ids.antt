-- ===== src/Url/Ids.antt =====
-- Generated session identifiers fit the pattern of the connection URL.
use openlv_rs.Prelude.{
  ℕ, zero, suc, ◌%◌, ◌<◌, ◌≡◌, refl, Bool, true, [], ◌∷◌, arith, length, all, map,
}
use openlv_rs.Text.{Text, Bytes, text}
use openlv_rs.Url.{
  IsSessionId, is_url_safe, alphabet_char, id_char, generate_session_id, url_safe_alphabet, byte_at,
}

byte_at-all :
    (p : ℕ → Bool) (value : Text) (i : ℕ)
    → all p value ≡ true
    → i < length value
    → p (byte_at value i) ≡ true
byte_at-all p [] i h inside = absurd (omega arith)
byte_at-all p (b ∷ value) zero h inside = ground arith
byte_at-all p (b ∷ value) (suc i) h inside = byte_at-all p value i (ground arith) (omega arith)

alphabet-safe : all is_url_safe url_safe_alphabet ≡ true
unfolding is_url_safe text
alphabet-safe = refl

alphabet-length : length url_safe_alphabet ≡ 64
unfolding text
alphabet-length = refl

id_char-safe : (byte : ℕ) → is_url_safe (id_char byte) ≡ true
unfolding id_char alphabet_char
id_char-safe byte =
    byte_at-all is_url_safe url_safe_alphabet (byte % length url_safe_alphabet) alphabet-safe
      (rw alphabet-length (omega arith))

all-id_char : (bytes : Bytes) → all is_url_safe (map id_char bytes) ≡ true
all-id_char [] = refl
all-id_char (b ∷ bytes) = ground (arith, id_char-safe b, all-id_char bytes)

length-map-id_char : (bytes : Bytes) → length (map id_char bytes) ≡ length bytes
length-map-id_char [] = refl
length-map-id_char (b ∷ bytes) = omega (arith, length-map-id_char bytes)

-- Every identifier made from 16 random bytes is one that the URL pattern accepts.
pub generate_session_id-IsSessionId :
    (bytes : Bytes) → length bytes ≡ 16 → IsSessionId (generate_session_id bytes)
unfolding generate_session_id
generate_session_id-IsSessionId bytes h =
    (omega (arith, length-map-id_char bytes), all-id_char bytes)
