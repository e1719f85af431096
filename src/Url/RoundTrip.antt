-- ===== src/Url/RoundTrip.antt =====
-- Laws of url/v1.rs: a URL survives printing and parsing, and what parsing accepts and refuses.
use openlv_rs.Prelude.{◌≡◌, refl, ◌≢◌, true, false, [], ◌∷◌, ◌++◌, some, arith, length, all}
use openlv_rs.Text.{Text, text, bytes_eq, starts_with}
use openlv_rs.Text.Laws.{bytes_eq_iff, bytes_eq_refl}
use openlv_rs.Text.Hex.{from_str_radix, to_digit, radix_from, to_ascii_lowercase}
use openlv_rs.Errors.{ok}
use openlv_rs.Encryption.Handshake.{from_hex}
use openlv_rs.Url.{
  SignalingProtocol, mqtt, ntfy, unsupported, Version1SessionUri, IsSessionId, is_lower_hex, scheme,
  blank_from, UrlLibs, UrlLaws, is_blank, query_get, protocol_to_string, protocol_from,
  protocol_or_default, from_query, check_version, from_captures, from_url, query_pairs, to_url,
}

module _ (u : UrlLibs) where
  -- A protocol that is printed as it would be read.
  abbrev pub IsNormal : SignalingProtocol → Type 0
  IsNormal mqtt = Unit
  IsNormal ntfy = Unit
  IsNormal (unsupported value) =
      (u.to_lowercase value ≡ value) × (value ≢ text "mqtt") × (value ≢ text "ntfy")

  pub record IsValidUri (self : Version1SessionUri) : Type 0 where
    pub session_id : IsSessionId self.session_id
    pub hash_length : length self.key_hash.hash ≡ 16
    pub hash_digits : all is_lower_hex self.key_hash.hash ≡ true
    pub key_length : length self.shared_key.hex ≡ 32
    pub key_digits : all is_lower_hex self.shared_key.hex ≡ true
    pub key_text : from_hex self.shared_key.hex ≡ ok self.shared_key
    pub protocol : IsNormal self.signaling_protocol

query_get-h :
    (u : UrlLibs) (self : Version1SessionUri)
    → query_get (text "h") (query_pairs u self) ≡ some self.key_hash.hash
unfolding query_pairs query_get text bytes_eq
query_get-h u self = refl

query_get-k :
    (u : UrlLibs) (self : Version1SessionUri)
    → query_get (text "k") (query_pairs u self) ≡ some self.shared_key.hex
unfolding query_pairs query_get text bytes_eq
query_get-k u self = refl

query_get-p :
    (u : UrlLibs) (self : Version1SessionUri)
    → query_get (text "p") (query_pairs u self) ≡ some (protocol_to_string self.signaling_protocol)
unfolding query_pairs query_get text bytes_eq
query_get-p u self = refl

query_get-s :
    (u : UrlLibs) (self : Version1SessionUri)
    → query_get (text "s") (query_pairs u self) ≡ some self.signaling_server
unfolding query_pairs query_get text bytes_eq
query_get-s u self = refl

not_blank : (t : Text) → is_blank (scheme ++ t) ≡ false
unfolding is_blank blank_from scheme text
not_blank t = refl

pub starts_with-scheme : (t : Text) → starts_with scheme (scheme ++ t) ≡ true
unfolding starts_with scheme text
starts_with-scheme t = refl

check_version-1 : (u : UrlLibs) → check_version u (b'1' ∷ []) ≡ ok tt
unfolding check_version from_str_radix radix_from to_digit
check_version-1 u = refl

module _ (u : UrlLibs) (laws : UrlLaws u) where
  lower-mqtt : u.to_lowercase (text "mqtt") ≡ text "mqtt"
  unfolding text to_ascii_lowercase
  lower-mqtt = laws.to_lowercase_ascii (text "mqtt") refl

  lower-ntfy : u.to_lowercase (text "ntfy") ≡ text "ntfy"
  unfolding text to_ascii_lowercase
  lower-ntfy = laws.to_lowercase_ascii (text "ntfy") refl

  ntfy-not_mqtt : bytes_eq (text "ntfy") (text "mqtt") ≡ false
  unfolding text bytes_eq
  ntfy-not_mqtt = refl

  pub protocol_from-to_string :
      (p : SignalingProtocol) → IsNormal u p → protocol_from u (protocol_to_string p) ≡ p
  unfolding protocol_from protocol_to_string
  protocol_from-to_string mqtt h = ground (arith, lower-mqtt, bytes_eq_refl (text "mqtt"))
  protocol_from-to_string ntfy h =
      ground (arith, lower-ntfy, ntfy-not_mqtt, bytes_eq_refl (text "ntfy"))
  protocol_from-to_string (unsupported value) (same, not_mqtt, not_ntfy) =
      rw same (ground (arith, bytes_eq_iff value (text "mqtt"), bytes_eq_iff value (text "ntfy")))

  from_query-pairs :
      (self : Version1SessionUri)
      → IsValidUri u self
      → from_query u self.session_id (query_pairs u self) ≡ ok self
  unfolding from_query protocol_or_default
  from_query-pairs self v =
      rw
        (
          query_get-h u self,
          query_get-k u self,
          query_get-p u self,
          query_get-s u self,
          (laws.hash_regex_iff self.key_hash.hash).1 (v.hash_length, v.hash_digits),
          (laws.shared_key_regex_iff self.shared_key.hex).1 (v.key_length, v.key_digits),
          v.key_text,
          protocol_from-to_string self.signaling_protocol v.protocol,
        )
        refl

  -- Under the laws of the pattern and of the query encoding, a valid connection URL is parsed back
  -- to the same parts, for every server text.
  pub from_url-to_url :
      (self : Version1SessionUri) → IsValidUri u self → from_url u (to_url u self) ≡ ok self
  unfolding from_url to_url from_captures
  from_url-to_url self v =
      let query = u.serialize (query_pairs u self) in
      let tail = self.session_id ++ (b'@' ∷ (b'1' ∷ (b'?' ∷ query))) in
      rw
        (
          not_blank tail,
          starts_with-scheme tail,
          laws.captures_uri_of self.session_id (b'1' ∷ []) query v.session_id (omega arith) refl
              (laws.serialize_nonempty (text "h", self.key_hash.hash) _)
              (laws.serialize_one_line (query_pairs u self)),
          check_version-1 u,
          laws.parse_serialize (query_pairs u self),
        )
        (from_query-pairs self v)
