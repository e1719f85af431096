-- ===== src/Wire.antt =====
-- crates/openlv/src/signaling/wire/mod.rs: the frame that carries a ciphertext.
pub mod Frames
mod Tests
use openlv_rs.Prelude.{
  ℕ, zero, suc, ◌+◌, ◌*◌, ◌%◌, Bool, true, false, ◌&&◌, List, [], ◌∷◌, ◌++◌, Option, none, some,
  ltb, leb, ◌==◌, if◌then◌else◌, length, take, drop, not,
}
use openlv_rs.Text.{Text, text, bytes_eq}
use openlv_rs.Errors.{OpenLvError, wire_frame, Result, ok, err, panic, ◌>>=◌, ◌>>◌}

pub data WirePrefix : Type 0 where
  handshake encrypted : WirePrefix

pub data WireRecipient : Type 0 where
  host client : WireRecipient

unfoldable pub handshake_prefix : Text
unfolding text
handshake_prefix = text "h"

unfoldable pub encrypted_prefix : Text
unfolding text
encrypted_prefix = text "x"

unfoldable pub as_char : WireRecipient → ℕ
as_char host = b'h'
as_char client = b'c'

unfoldable pub from_char : ℕ → Option WireRecipient
from_char value = if value == b'h' then some host else if value == b'c' then some client else none

unfoldable pub for_role : Bool → WireRecipient
for_role is_host = if is_host then host else client

pub record WireFrame : Type 0 where
  pub prefix : WirePrefix
  pub recipient : WireRecipient
  pub ciphertext : Text

prefix_char : WirePrefix → Text
prefix_char handshake = handshake_prefix
prefix_char encrypted = encrypted_prefix

-- `format!("{}{}{}", …)`; both recipient characters are ASCII, one byte each.
unfoldable pub compose_frame : WirePrefix → WireRecipient → Text → Text
unfolding prefix_char handshake_prefix encrypted_prefix as_char
compose_frame prefix recipient ciphertext = prefix_char prefix ++ (as_char recipient ∷ ciphertext)

-- `str::is_char_boundary(1)`, which slicing at 1 checks, on a text of at least two bytes.
abbrev pub continues : ℕ → Bool
continues b = leb 128 b && ltb b 192

slices_at_one : Text → Bool
slices_at_one (a ∷ (b ∷ rest)) = not (continues b)
slices_at_one _ = true

-- The first character of a valid UTF-8 text, and what follows it.
decode_four : ℕ → Text → Option (ℕ × Text)
decode_four a (b ∷ (c ∷ (d ∷ rest))) =
    some (a % 8 * 262144 + b % 64 * 4096 + c % 64 * 64 + d % 64, rest)
decode_four a _ = none

decode_three : ℕ → Text → Option (ℕ × Text)
decode_three a (b ∷ (c ∷ rest)) = some (a % 16 * 4096 + b % 64 * 64 + c % 64, rest)
decode_three a _ = none

decode_two : ℕ → Text → Option (ℕ × Text)
decode_two a (b ∷ rest) = some (a % 32 * 64 + b % 64, rest)
decode_two a _ = none

next_char : Text → Option (ℕ × Text)
unfolding decode_two decode_three decode_four
next_char [] = none
next_char (a ∷ rest) =
    if ltb a 128
    then some (a, rest)
    else if ltb a 224
    then decode_two a rest
    else if ltb a 240
    then decode_three a rest
    else decode_four a rest

-- `payload.chars().nth(1)`
nth_one : Text → Option ℕ
unfolding next_char
nth_one payload = elim (next_char payload) [
  | none ↦ none
  | some (c, rest) ↦ elim (next_char rest) [ none ↦ none | some (d, tail) ↦ some d ]
]

parse_prefix : Text → Result OpenLvError WirePrefix
unfolding bytes_eq handshake_prefix encrypted_prefix
parse_prefix first =
    if bytes_eq first handshake_prefix
    then ok handshake
    else if bytes_eq first encrypted_prefix
    then ok encrypted
    else err (wire_frame (text "invalid wire frame prefix"))

ok_or {ℓ} : {A : Type ℓ} → Option A → OpenLvError → Result OpenLvError A
ok_or none e = err e
ok_or (some a) e = ok a

parse_recipient : Text → Result OpenLvError WireRecipient
unfolding nth_one ok_or from_char
parse_recipient payload = do
  value ← ok_or (nth_one payload) (wire_frame (text "invalid wire frame recipient"))
  ok_or (from_char value) (wire_frame (text "invalid wire frame recipient"))

-- `&payload[..1]` panics where byte 1 is inside a character.
pub parse_frame : Text → Result OpenLvError WireFrame
parse_frame payload =
    if ltb (length payload) 2
    then err (wire_frame (text "wire frame is too short"))
    else if slices_at_one payload
    then (do
      prefix ← parse_prefix (take 1 payload)
      recipient ← parse_recipient payload
      ok (record { prefix = prefix; recipient = recipient; ciphertext = drop 2 payload }))
    else panic

recipient_eq : WireRecipient → WireRecipient → Bool
recipient_eq host host = true
recipient_eq client client = true
recipient_eq _ _ = false

unfoldable pub is_recipient : WireFrame → Bool → Bool
unfolding recipient_eq for_role
is_recipient frame is_host = recipient_eq frame.recipient (for_role is_host)
