-- ===== src/Url/Sample.antt =====
-- Concrete functions for the parameters of the connection URL, with their laws: a pattern read by
-- hand, and an encoding of a query that moves every byte past the newline and ends a text by 0.
use openlv_rs.Prelude.{
  ℕ, ◌+◌, ◌-◌, ◌≤◌, ◌≡◌, refl, true, ◌&&◌, List, [], ◌∷◌, ◌++◌, Option, none, some, arith, ◌==◌,
  length, take, drop, take-append_of_length, drop-append_of_length, all, if◌then◌else◌,
}
use openlv_rs.Text.{Text, starts_with}
use openlv_rs.Text.Hex.{is_ascii_digit, to_ascii_lowercase}
use openlv_rs.Url.{
  UrlLibs, UrlLaws, IsSessionId, is_url_safe, is_lower_hex, is_not_newline, uri_of, scheme,
}
use openlv_rs.Url.RoundTrip.{starts_with-scheme}

encode_text : Text → Text → Text
encode_text [] rest = 0 ∷ rest
encode_text (b ∷ t) rest = (b + 11) ∷ encode_text t rest

pub serialize : List (Text × Text) → Text
serialize [] = []
serialize ((k, v) ∷ ps) = encode_text k (encode_text v (serialize ps))

put_first : ℕ → List Text → List Text
put_first b [] = (b ∷ []) ∷ []
put_first b (t ∷ ts) = (b ∷ t) ∷ ts

pieces : Text → List Text
pieces [] = []
pieces (b ∷ t) = if b == 0 then [] ∷ pieces t else put_first (b - 11) (pieces t)

pairs : List Text → List (Text × Text)
pairs (k ∷ (v ∷ ts)) = (k, v) ∷ pairs ts
pairs _ = []

pub parse_query : Text → List (Text × Text)
parse_query t = pairs (pieces t)

pieces-encode_text : (t rest : Text) → pieces (encode_text t rest) ≡ t ∷ pieces rest
unfolding pieces encode_text put_first
pieces-encode_text [] rest = refl
pieces-encode_text (b ∷ t) rest = ground (arith, pieces-encode_text t rest)

parse_serialize : (ps : List (Text × Text)) → parse_query (serialize ps) ≡ ps
unfolding parse_query serialize pairs pieces
parse_serialize [] = refl
parse_serialize ((k, v) ∷ ps) =
    rw (pieces-encode_text k (encode_text v (serialize ps)), pieces-encode_text v (serialize ps))
      (ground (arith, parse_serialize ps))

encode_text-one_line :
    (t rest : Text)
    → all is_not_newline rest ≡ true
    → all is_not_newline (encode_text t rest) ≡ true
unfolding encode_text
encode_text-one_line [] rest h = ground arith
encode_text-one_line (b ∷ t) rest h = ground (arith, encode_text-one_line t rest h)

serialize-one_line : (ps : List (Text × Text)) → all is_not_newline (serialize ps) ≡ true
unfolding serialize
serialize-one_line [] = refl
serialize-one_line ((k, v) ∷ ps) =
    encode_text-one_line k _ (encode_text-one_line v _ (serialize-one_line ps))

encode_text-nonempty : (t rest : Text) → 1 ≤ length (encode_text t rest)
unfolding encode_text
encode_text-nonempty [] rest = omega arith
encode_text-nonempty (b ∷ t) rest = omega arith

-- The version up to the question mark, and the query behind it.
add_digit : ℕ → Option (Text × Text) → Option (Text × Text)
add_digit b none = none
add_digit b (some (version, query)) = some (b ∷ version, query)

split_query : Text → Option (Text × Text)
split_query [] = none
split_query (b ∷ t) = if b == b'?' then some ([], t) else add_digit b (split_query t)

behind_id : Text → Text → Option (Text × Text × Text)
behind_id id [] = none
behind_id id (b ∷ t) = elim (split_query t) [
  | none ↦ none
  | some (version, query) ↦ some (id, version, query)
]

captures_of : Text → Option (Text × Text × Text)
captures_of t =
    if length (take 16 t) == 16 && all is_url_safe (take 16 t)
    then behind_id (take 16 t) (drop 16 t)
    else none

pub uri_captures : Text → Option (Text × Text × Text)
uri_captures url = if starts_with scheme url then captures_of (drop 9 url) else none

split_query-append :
    (version query : Text)
    → all is_ascii_digit version ≡ true
    → split_query (version ++ b'?' ∷ query) ≡ some (version, query)
unfolding split_query add_digit
split_query-append [] query h = refl
split_query-append (b ∷ version) query h = ground (arith, split_query-append version query)

drop-scheme : (t : Text) → drop 9 (scheme ++ t) ≡ t
unfolding scheme
drop-scheme t = refl

behind_id-append :
    (id version query : Text)
    → all is_ascii_digit version ≡ true
    → behind_id id (b'@' ∷ (version ++ b'?' ∷ query)) ≡ some (id, version, query)
unfolding behind_id
behind_id-append id version query h = rw (split_query-append version query h, behind_id) refl

captures_uri_of :
    (id version query : Text)
    → IsSessionId id
    → all is_ascii_digit version ≡ true
    → uri_captures (uri_of id version query) ≡ some (id, version, query)
unfolding uri_captures captures_of behind_id
captures_uri_of id version query (n, safe) digits =
    let tail = id ++ (b'@' ∷ (version ++ (b'?' ∷ query))) in
    rw
      (
        starts_with-scheme tail,
        drop-scheme tail,
        take-append_of_length {0} 16 id (b'@' ∷ (version ++ (b'?' ∷ query))) n,
        drop-append_of_length {0} 16 id (b'@' ∷ (version ++ (b'?' ∷ query))) n,
        n,
        safe,
      )
      (behind_id-append id version query digits)

behind_id-eq-some :
    (id t id' version query : Text) → behind_id id t ≡ some (id', version, query) → id' ≡ id
unfolding behind_id
behind_id-eq-some id [] id' version query h = absurd (ground arith)
behind_id-eq-some id (b ∷ t) id' version query h = ground arith

captures_of-IsSessionId :
    (t id version query : Text) → captures_of t ≡ some (id, version, query) → IsSessionId id
unfolding captures_of
captures_of-IsSessionId t id version query h = (
  ground (arith, behind_id-eq-some (take 16 t) (drop 16 t) id version query),
  ground (arith, behind_id-eq-some (take 16 t) (drop 16 t) id version query),
)

captures-IsSessionId :
    (url id version query : Text) → uri_captures url ≡ some (id, version, query) → IsSessionId id
unfolding uri_captures
captures-IsSessionId url id version query h =
    captures_of-IsSessionId (drop 9 url) id version query (ground arith)

abbrev pub url_libs : UrlLibs
url_libs = record {
  uri_captures = uri_captures;
  hash_regex = λ t. length t == 16 && all is_lower_hex t;
  shared_key_regex = λ t. length t == 32 && all is_lower_hex t;
  parse_query = parse_query;
  serialize = serialize;
  to_lowercase = to_ascii_lowercase;
}

pub url_laws : UrlLaws url_libs
url_laws = record {
  captures_uri_of = λ id version query valid one digits some_query one_line.
      captures_uri_of id version query valid digits;
  captures_IsSessionId = captures-IsSessionId;
  hash_regex_iff = λ t. ((λ h. (ground arith, ground arith)), λ h. ground arith);
  shared_key_regex_iff = λ t. ((λ h. (ground arith, ground arith)), λ h. ground arith);
  parse_serialize = parse_serialize;
  serialize_nonempty =
      λ (k, v) ps. unfold serialize in (encode_text-nonempty k (encode_text v (serialize ps)));
  serialize_one_line = serialize-one_line;
  to_lowercase_ascii = λ t h. refl;
}
