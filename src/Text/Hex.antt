-- ===== src/Text/Hex.antt =====
-- Digits, as `char::is_ascii_hexdigit`, `to_ascii_lowercase`, `u8::from_str_radix`, `str::parse`
-- and the format `{:02x}` of the standard library read and write them.
use openlv_rs.Prelude.{
  ℕ, ◌+◌, ◌-◌, ◌*◌, ◌/◌, ◌%◌, ◌<◌, ◌≡◌, refl, Bool, true, false, ◌&&◌, ◌||◌, [], ◌∷◌, Option, none,
  some, arith, leb, ltb, ◌==◌, if◌then◌else◌, all, All, length, Bool-cases, inl, inr, map,
}
use openlv_rs.Text.{Text, Bytes}

abbrev between : ℕ → ℕ → ℕ → Bool
between lo hi b = leb lo b && leb b hi

abbrev pub is_ascii_digit : ℕ → Bool
is_ascii_digit b = between b'0' b'9' b

abbrev pub is_ascii_hexdigit : ℕ → Bool
is_ascii_hexdigit b = between b'0' b'9' b || (between b'A' b'F' b || between b'a' b'f' b)

abbrev pub lowercase : ℕ → ℕ
lowercase b = if between b'A' b'Z' b then b + 32 else b

unfoldable pub to_ascii_lowercase : Text → Text
to_ascii_lowercase value = map lowercase value

-- `char::to_digit(16)` on ASCII, below the radix.
unfoldable pub to_digit : ℕ → ℕ → Option ℕ
to_digit radix b =
    let d =
      if between b'0' b'9' b
      then b - 48
      else if between b'a' b'f' b
      then b - 87
      else if between b'A' b'F' b
      then b - 55
      else 99 in
    if ltb d radix then some d else none

-- The accumulating loop of `u8::from_str_radix`; `none` is an invalid digit or an overflow.
unfoldable pub radix_from : ℕ → ℕ → Text → Option ℕ
radix_from radix acc [] = some acc
radix_from radix acc (b ∷ value) = elim (to_digit radix b) [
  | none ↦ none
  | some d ↦
      let rest = radix_from radix (acc * radix + d) value in
      if leb (acc * radix + d) 255 then rest else none
]

-- A leading `+` is allowed if digits follow; an empty text is refused.
unfoldable pub from_str_radix : Text → ℕ → Option ℕ
from_str_radix [] radix = none
from_str_radix (b ∷ []) radix = radix_from radix 0 (b ∷ [])
from_str_radix (b ∷ (d ∷ value)) radix =
    if b == b'+' then radix_from radix 0 (d ∷ value) else radix_from radix 0 (b ∷ (d ∷ value))

unfoldable pub hex_digit : ℕ → ℕ
hex_digit d = if ltb d 10 then d + 48 else d + 87

-- `format!("{byte:02x}")` of every byte, joined.
unfoldable pub to_hex : Bytes → Text
to_hex [] = []
to_hex (b ∷ bytes) = hex_digit (b / 16) ∷ (hex_digit (b % 16) ∷ to_hex bytes)

pub to_hex-is_ascii_hexdigit :
    (bytes : Bytes) → All (λ b. b < 256) bytes → all is_ascii_hexdigit (to_hex bytes) ≡ true
unfolding to_hex hex_digit
to_hex-is_ascii_hexdigit [] h = refl
to_hex-is_ascii_hexdigit (b ∷ bytes) (h, hs) = ground (arith, to_hex-is_ascii_hexdigit bytes hs)

pub length-to_hex : (bytes : Bytes) → length (to_hex bytes) ≡ 2 * length bytes
unfolding to_hex
length-to_hex [] = omega arith
length-to_hex (b ∷ bytes) = omega (arith, length-to_hex bytes)

pub to_ascii_lowercase-to_hex :
    (bytes : Bytes) → All (λ b. b < 256) bytes → to_ascii_lowercase (to_hex bytes) ≡ to_hex bytes
unfolding to_hex to_ascii_lowercase hex_digit
to_ascii_lowercase-to_hex [] h = refl
to_ascii_lowercase-to_hex (b ∷ bytes) (h, hs) = ground (arith, to_ascii_lowercase-to_hex bytes hs)

to_digit-hex_digit : (d : ℕ) → d < 16 → to_digit 16 (hex_digit d) ≡ some d
unfolding to_digit hex_digit
to_digit-hex_digit d h = ground arith

-- A byte's two digits read back as the byte.
pub from_str_radix-hex_digit :
    (b : ℕ) → b < 256 → from_str_radix (hex_digit (b / 16) ∷ (hex_digit (b % 16) ∷ [])) 16 ≡ some b
unfolding from_str_radix radix_from hex_digit
from_str_radix-hex_digit b h =
    ground
      (arith, to_digit-hex_digit (b / 16) (omega arith), to_digit-hex_digit (b % 16) (omega arith))

-- A hexadecimal digit has a value below 16, which is printed in lower case, and is not a sign.
pub to_digit-is_ascii_hexdigit :
    (b : ℕ)
    → is_ascii_hexdigit b ≡ true
    → (d : ℕ) × (to_digit 16 b ≡ some d)
      × (d < 16)
      × ((b == b'+') ≡ false)
      × (hex_digit d ≡ lowercase b)
unfolding to_digit hex_digit
to_digit-is_ascii_hexdigit b h = elim (Bool-cases (between b'0' b'9' b)) [
  | inl decimal ↦ (b - 48, ground arith, ground arith, ground arith, ground arith)
  | inr letter ↦ elim (Bool-cases (between b'a' b'f' b)) [
    | inl small ↦ (b - 87, ground arith, ground arith, ground arith, ground arith)
    | inr large ↦ (b - 55, ground arith, ground arith, ground arith, ground arith)
  ]
]
