-- ===== src/Url.antt =====
-- crates/openlv/src/url: the connection URL. The regular expressions, the URL-encoding of a query
-- and the Unicode lower case are not this repository's: a record of functions, with their
-- documented behaviour in a second record.
pub mod Ids
pub mod RoundTrip
pub mod Version
pub mod Sample
mod Tests
use openlv_rs.Prelude.{
  ℕ, zero, suc, ◌+◌, ◌*◌, ◌/◌, ◌%◌, ◌<◌, ◌≤◌, ◌≡◌, ◌≢◌, ◌↔◌, Bool, true, false, ◌&&◌, ◌||◌, not,
  List, [], ◌∷◌, ◌++◌, Option, none, some, leb, ltb, ◌==◌, length, all, All, map, if◌then◌else◌,
}
use openlv_rs.Text.{Text, Bytes, text, bytes_eq, starts_with}
use openlv_rs.Text.Hex.{is_ascii_digit, from_str_radix, lowercase, to_ascii_lowercase}
use openlv_rs.Errors.{OpenLvError, invalid_uri, Result, ok, err, panic, ◌>>=◌, ◌>>◌, guard}
use openlv_rs.Encryption.Handshake.{HandshakeKey, from_hex, handshake_key_eq}
use openlv_rs.Encryption.Hash.{PublicKeyHash}

-- crates/openlv/src/signaling/mod.rs
pub data SignalingProtocol : Type 0 where
  mqtt ntfy : SignalingProtocol
  unsupported : Text → SignalingProtocol

pub record Version1SessionUri : Type 0 where
  pub session_id : Text
  pub key_hash : PublicKeyHash
  pub shared_key : HandshakeKey
  pub signaling_protocol : SignalingProtocol
  pub signaling_server : Text

abbrev pub openlv_protocol_version : ℕ
openlv_protocol_version = 1

-- `[A-Za-z0-9_-]`
abbrev between : ℕ → ℕ → ℕ → Bool
between lo hi b = leb lo b && leb b hi

unfoldable pub is_url_safe : ℕ → Bool
is_url_safe b =
    between b'A' b'Z' b
    || (between b'a' b'z' b || (between b'0' b'9' b || (b == b'_' || b == b'-')))

abbrev pub url_safe_alphabet : Text
unfolding text
url_safe_alphabet = text "ABCDEFGHIJKLMNOPQRSTUVWXYZabcdefghijklmnopqrstuvwxyz0123456789-_"

abbrev pub byte_at : Text → ℕ → ℕ
byte_at [] i = 0
byte_at (b ∷ value) zero = b
byte_at (b ∷ value) (suc i) = byte_at value i

-- The 16 bytes are the random draw; the index is below the length of the alphabet.
alphabet_char : ℕ → ℕ
unfolding text
alphabet_char i = byte_at url_safe_alphabet i

id_char : ℕ → ℕ
unfolding text alphabet_char
id_char byte = alphabet_char (byte % length url_safe_alphabet)

pub generate_session_id : Bytes → Text
generate_session_id bytes = map id_char bytes

-- `[0-9a-f]`
abbrev pub is_lower_hex : ℕ → Bool
is_lower_hex b = between b'0' b'9' b || between b'a' b'f' b

abbrev pub is_not_newline : ℕ → Bool
is_not_newline b = not (b == 10)

unfoldable pub scheme : Text
unfolding text
scheme = text "openlv://"

-- What the pattern of `URI_REGEX` describes: the identifier, the version and the query of a URL.
abbrev pub uri_of : Text → Text → Text → Text
uri_of id version query = scheme ++ (id ++ (b'@' ∷ (version ++ (b'?' ∷ query))))

abbrev pub IsSessionId : Text → Type 0
IsSessionId id = (length id ≡ 16) × (all is_url_safe id ≡ true)

pub record UrlLibs : Type 0 where
  pub uri_captures : Text → Option (Text × Text × Text)
  pub hash_regex : Text → Bool
  pub shared_key_regex : Text → Bool
  pub parse_query : Text → List (Text × Text)
  pub serialize : List (Text × Text) → Text
  pub to_lowercase : Text → Text

pub record UrlLaws (u : UrlLibs) : Type 0 where
  pub captures_uri_of :
      (id version query : Text)
      → IsSessionId id
      → 1 ≤ length version
      → all is_ascii_digit version ≡ true
      → 1 ≤ length query
      → all is_not_newline query ≡ true
      → u.uri_captures (uri_of id version query) ≡ some (id, version, query)
  pub captures_IsSessionId :
      (url id version query : Text)
      → u.uri_captures url ≡ some (id, version, query)
      → IsSessionId id
  pub hash_regex_iff :
      (t : Text) → (u.hash_regex t ≡ true) ↔ ((length t ≡ 16) × (all is_lower_hex t ≡ true))
  pub shared_key_regex_iff :
      (t : Text) → (u.shared_key_regex t ≡ true) ↔ ((length t ≡ 32) × (all is_lower_hex t ≡ true))
  pub parse_serialize : (ps : List (Text × Text)) → u.parse_query (u.serialize ps) ≡ ps
  -- The encoding of a pair has a `=`, and a newline is written `%0A`.
  pub serialize_nonempty :
      (p : Text × Text) (ps : List (Text × Text)) → 1 ≤ length (u.serialize (p ∷ ps))
  pub serialize_one_line : (ps : List (Text × Text)) → all is_not_newline (u.serialize ps) ≡ true
  pub to_lowercase_ascii :
      (t : Text) → all (λ b. ltb b 128) t ≡ true → u.to_lowercase t ≡ to_ascii_lowercase t

-- `value.trim().is_empty()`: every character is white space, in UTF-8.
pub data Blank : Type 0 where
  start after_c2 after_e1 after_e19a after_e2 after_e280 after_e281 after_e3 after_e380 : Blank

abbrev blank_step : Blank → ℕ → Option Blank
blank_step start b =
    if between 9 13 b || b == 32
    then some start
    else if b == 0xc2
    then some after_c2
    else if b == 0xe1
    then some after_e1
    else if b == 0xe2
    then some after_e2
    else if b == 0xe3
    then some after_e3
    else none
blank_step after_c2 b = if b == 0x85 || b == 0xa0 then some start else none
blank_step after_e1 b = if b == 0x9a then some after_e19a else none
blank_step after_e19a b = if b == 0x80 then some start else none
blank_step after_e2 b =
    if b == 0x80 then some after_e280 else if b == 0x81 then some after_e281 else none
blank_step after_e280 b =
    if between 0x80 0x8a b || (b == 0xa8 || (b == 0xa9 || b == 0xaf)) then some start else none
blank_step after_e281 b = if b == 0x9f then some start else none
blank_step after_e3 b = if b == 0x80 then some after_e380 else none
blank_step after_e380 b = if b == 0x80 then some start else none

blank_from : Blank → Text → Bool
blank_from start [] = true
blank_from _ [] = false
blank_from e (b ∷ bs) = elim (blank_step e b) [ none ↦ false | some e' ↦ blank_from e' bs ]

is_blank : Text → Bool
unfolding blank_from
is_blank value = blank_from start value

-- crates/openlv/src/utils/mod.rs
until_question_mark : Text → Option Text
until_question_mark [] = none
until_question_mark (b ∷ url) =
    if b == b'?'
    then some []
    else elim (until_question_mark url) [ none ↦ none | some before ↦ some (b ∷ before) ]

pub redact_url : Text → Text
redact_url url = elim (until_question_mark url) [
  | none ↦ url
  | some before ↦ before ++ text "?[redacted]"
]

-- The decimal digits of a `u8`.
abbrev decimal : ℕ → Text
decimal n =
    if ltb n 10
    then (n + 48) ∷ []
    else if ltb n 100
    then (n / 10 + 48) ∷ ((n % 10 + 48) ∷ [])
    else (n / 100 + 48) ∷ ((n / 10 % 10 + 48) ∷ ((n % 10 + 48) ∷ []))

-- `get` of the map that the pairs are collected into: the last pair of a key counts.
pub query_get : Text → List (Text × Text) → Option Text
query_get key [] = none
query_get key ((k, v) ∷ pairs) = elim (query_get key pairs) [
  | some later ↦ some later
  | none ↦ if bytes_eq k key then some v else none
]

abbrev pub ok_or {ℓ} : {A : Type ℓ} → Option A → Text → Result OpenLvError A
ok_or none reason = err (invalid_uri reason)
ok_or (some a) reason = ok a

abbrev pub unwrap_or : Option Text → Text → Text
unwrap_or none d = d
unwrap_or (some a) d = a

unfoldable pub protocol_to_string : SignalingProtocol → Text
protocol_to_string mqtt = text "mqtt"
protocol_to_string ntfy = text "ntfy"
protocol_to_string (unsupported value) = value

module _ (u : UrlLibs) where
  pub protocol_from : Text → SignalingProtocol
  protocol_from value =
      let lower = u.to_lowercase value in
      if bytes_eq lower (text "mqtt")
      then mqtt
      else if bytes_eq lower (text "ntfy")
      then ntfy
      else unsupported lower

  protocol_or_default : Option Text → SignalingProtocol
  protocol_or_default none = mqtt
  protocol_or_default (some value) = protocol_from value

  -- The part of `from_url` behind the version: the parameters of the query.
  pub from_query : Text → List (Text × Text) → Result OpenLvError Version1SessionUri
  unfolding protocol_or_default
  from_query session_id params = do
    h ← ok_or (query_get (text "h") params) (text "h parameter is required")
    guard (u.hash_regex h)
        (invalid_uri (text "invalid public key hash format: must be 16 hex characters"))
    k ← ok_or (query_get (text "k") params) (text "k parameter is required")
    guard (u.shared_key_regex k)
        (invalid_uri (text "invalid shared key format: must be 32 lowercase hex characters"))
    shared_key ← from_hex k
    ok (record {
      session_id = session_id;
      key_hash = record { hash = h };
      shared_key = shared_key;
      signaling_protocol = protocol_or_default (query_get (text "p") params);
      signaling_server = unwrap_or (query_get (text "s") params) [];
    })

  check_version : Text → Result OpenLvError (Unit {0})
  check_version value = do
    version ← ok_or (from_str_radix value 10) (text "invalid version")
    guard (version == openlv_protocol_version)
        (invalid_uri (text "invalid protocol version: expected 1, got " ++ decimal version))

  from_captures : Text × Text × Text → Result OpenLvError Version1SessionUri
  from_captures (session_id, version, query) = do
    check_version version
    from_query session_id (u.parse_query query)

  pub from_url : Text → Result OpenLvError Version1SessionUri
  from_url url = do
    guard (not (is_blank url)) (invalid_uri (text "URL cannot be empty"))
    guard (starts_with scheme url) (
        invalid_uri
          (text "invalid URL format: must start with 'openlv://', got: " ++ redact_url url))
    captures ← ok_or (u.uri_captures url) (text "invalid URL format: " ++ redact_url url)
    from_captures captures

  pub query_pairs : Version1SessionUri → List (Text × Text)
  query_pairs self =
      (text "h", self.key_hash.hash)
      ∷ ((text "k", self.shared_key.hex)
          ∷ ((text "p", protocol_to_string self.signaling_protocol)
              ∷ ((text "s", self.signaling_server) ∷ [])))

  pub to_url : Version1SessionUri → Text
  unfolding query_pairs
  to_url self =
      uri_of self.session_id (decimal openlv_protocol_version) (u.serialize (query_pairs self))
