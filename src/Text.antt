-- ===== src/Text.antt =====
-- Texts and byte strings. A Rust `String` is its UTF-8 bytes, so `as_bytes` is the identity,
-- `len` is the length of the list, and `String::from_utf8` is a validity check.
pub mod Laws
pub mod Hex
use Prim.Native.Char.{code}
use Prim.Native.String
use Prim.Native.String.{String}
use openlv_rs.Prelude.{
  ℕ, zero, suc, ◌≡◌, Bool, true, false, ◌&&◌, ◌||◌, List, [], ◌∷◌, leb, ltb, ◌==◌, if◌then◌else◌,
  Option, none, some,
}

abbrev pub Bytes : Type 0
Bytes = List ℕ

abbrev pub Text : Type 0
Text = List ℕ

-- The bytes of an ASCII literal.
unfoldable pub text : String → Text
text String.[] = []
text (String.◌∷◌ c s) = code c ∷ text s

-- `==` on texts, slices and byte arrays.
unfoldable pub bytes_eq : Bytes → Bytes → Bool
bytes_eq [] [] = true
bytes_eq (x ∷ xs) (y ∷ ys) = x == y && bytes_eq xs ys
bytes_eq _ _ = false

unfoldable pub starts_with : Text → Text → Bool
starts_with [] value = true
starts_with (p ∷ prefix) (c ∷ value) = p == c && starts_with prefix value
starts_with (p ∷ prefix) [] = false

-- What the UTF-8 decoder still expects: bytes of a character of two, three or four bytes, with
-- the narrower ranges after 0xE0, 0xED, 0xF0 and 0xF4.
pub data Expect : Type 0 where
  start one two three after_e0 after_ed after_f0 after_f4 : Expect

abbrev pub between : ℕ → ℕ → ℕ → Bool
between lo hi b = leb lo b && leb b hi

abbrev pub lead : ℕ → Option Expect
lead b =
    if ltb b 128
    then some start
    else if between 194 223 b
    then some one
    else if b == 224
    then some after_e0
    else if b == 237
    then some after_ed
    else if between 225 239 b
    then some two
    else if b == 240
    then some after_f0
    else if between 241 243 b
    then some three
    else if b == 244
    then some after_f4
    else none

abbrev pub expect_step : Expect → ℕ → Option Expect
expect_step start b = lead b
expect_step one b = if between 128 191 b then some start else none
expect_step two b = if between 128 191 b then some one else none
expect_step three b = if between 128 191 b then some two else none
expect_step after_e0 b = if between 160 191 b then some one else none
expect_step after_ed b = if between 128 159 b then some one else none
expect_step after_f0 b = if between 144 191 b then some two else none
expect_step after_f4 b = if between 128 143 b then some two else none

unfoldable pub utf8_from : Expect → Bytes → Bool
utf8_from start [] = true
utf8_from _ [] = false
utf8_from e (b ∷ bs) = elim (expect_step e b) [ none ↦ false | some e' ↦ utf8_from e' bs ]

-- Whether `String::from_utf8` accepts the bytes.
unfoldable pub is_utf8 : Bytes → Bool
unfolding utf8_from
is_utf8 bs = utf8_from start bs
