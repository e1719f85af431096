-- ===== src/Jsonrpc.antt =====
-- crates/openlv/src/provider/jsonrpc/mod.rs: the answer to a JSON-RPC request. JSON is the crate
-- serde_json: a record of functions, with its documented behaviour in a second record.
pub mod Answers
pub mod Sample
mod Tests
use openlv_rs.Prelude.{
  ℕ, ◌≡◌, ◌≢◌, ◌↔◌, Bool, true, false, not, List, [], ◌∷◌, Option, none, some, if◌then◌else◌,
}
use openlv_rs.Text.{Text, text, bytes_eq}
use openlv_rs.Errors.{OpenLvError, request_failed, Result, ok, err, panic, ◌>>=◌, ◌>>◌, guard}

-- `get` and the index read a member of an object; the index gives null where there is none.
pub record Json (V : Type 0) : Type 0 where
  pub null : V
  pub string : Text → V
  pub negative : ℕ → V
  pub object : List (Text × V) → V
  pub get : V → Text → Option V
  pub equals : V → V → Bool

-- The value of a key in the pairs of a `json!` object.
unfoldable pub member : {V : Type 0} → Text → List (Text × V) → Option V
member key [] = none
member key ((k, v) ∷ ps) = let rest = member key ps in if bytes_eq k key then some v else rest

pub record JsonLaws {V : Type 0} (j : Json V) : Type 0 where
  pub equals_iff : (v w : V) → (j.equals v w ≡ true) ↔ (v ≡ w)
  pub null_not_string : (t : Text) → j.null ≢ j.string t
  pub get_object :
      (id code message : V) (key : Text)
      → let ps : List (Text × V) =
          (text "jsonrpc", j.string (text "2.0"))
          ∷ ((text "id", id)
              ∷ ((text "error", j.object ((text "code", code) ∷ ((text "message", message) ∷ [])))
                  ∷ [])) in
        j.get (j.object ps) key ≡ member key ps

pub data ExchangeError : Type 0 where
  session : OpenLvError → ExchangeError
  invalid_response : Text → ExchangeError

abbrev pub internal_error_code : ℕ
internal_error_code = 32603

module _ {V : Type 0} (j : Json V) where
  abbrev pub index : V → Text → V
  index v key = elim (j.get v key) [ none ↦ j.null | some member ↦ member ]

  unfoldable pub internal_error : V → V
  internal_error id = j.object (
      (text "jsonrpc", j.string (text "2.0"))
      ∷ ((text "id", id)
          ∷ ((
            text "error",
            j.object (
                (text "code", j.negative internal_error_code)
                ∷ ((text "message", j.string (text "Internal error")) ∷ [])),
          )
              ∷ [])))

  has_id : Option V → V → Bool
  has_id none id = false
  has_id (some v) id = j.equals v id

  unfoldable pub check_response : V → V → Result ExchangeError V
  unfolding has_id
  check_response id response = do
    guard (j.equals (index response (text "jsonrpc")) (j.string (text "2.0")))
        (invalid_response (text "`jsonrpc` is missing or not \"2.0\""))
    guard (has_id (j.get response (text "id")) id)
        (invalid_response (text "`id` is missing or differs from the request"))
    ok response

  unfoldable pub settle : V → Result OpenLvError V → Result ExchangeError V
  unfolding check_response internal_error
  settle id (ok response) = check_response id response
  settle id (err request_failed) = ok (internal_error id)
  settle id (err error) = err (session error)
  settle id panic = panic

  -- `send` is the session's.
  unfoldable pub exchange : (V → Result OpenLvError V) → V → Result ExchangeError V
  unfolding settle
  exchange send request = settle (index request (text "id")) (send request)
