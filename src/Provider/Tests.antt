-- ===== src/Provider/Tests.antt =====
-- A client that sends two requests in a batch; the peer answers up to three requests.
use openlv_rs.Prelude.{ℕ, suc, ◌≡◌, refl, List, [], ◌∷◌, ltb, if◌then◌else◌}
use openlv_rs.Text.{Text, text, bytes_eq}
use openlv_rs.Errors.{OpenLvError, session_closed, Result, ok, err}
use openlv_rs.Jsonrpc.{index, exchange, settle, check_response, ExchangeError}
use openlv_rs.Jsonrpc.Sample.{Value, leaf, object, json, json_laws}
use openlv_rs.Provider.{
  batch, TransportError, exchange_error, AlloyJson, exchange_on, dispatch_one, dispatch_all, call,
}
use openlv_rs.Provider.Batches.{AllAnswered, StopsAt, batch_lem}

abbrev alloy : AlloyJson Value Text Value
alloy = record {
  json = json;
  serialized = λ q. q;
  from_str = λ t. ok (object ((text "id", leaf t) ∷ []));
  from_value = λ v. ok v;
}

abbrev reply_to : Value → Value
reply_to request = object (
    (text "jsonrpc", json.string (text "2.0")) ∷ ((text "id", index json request (text "id")) ∷ []))

-- The state counts the requests.
abbrev send : Value → ℕ → Result OpenLvError Value × ℕ
send request n = (if ltb n 3 then ok (reply_to request) else err session_closed, suc n)

abbrev two : List Text
two = (7 ∷ []) ∷ ((8 ∷ []) ∷ [])

batch_lem_example :
    ((responses : List Value)
      → (call alloy send (batch two) 0).0 ≡ ok (batch responses)
      → AllAnswered alloy send two responses)
    × ((e : TransportError)
        → (call alloy send (batch two) 0).0 ≡ err e
        → StopsAt alloy send two 0 e (call alloy send (batch two) 0).1)
batch_lem_example = batch_lem alloy send json_laws two 0

-- The two are answered; of two more the second is refused.
two_answered : (call alloy send (batch two) 0).1 ≡ 2
unfolding call dispatch_all dispatch_one exchange_on exchange settle check_response text bytes_eq
two_answered = refl

second_refused :
    call alloy send (batch two) 2 ≡ (err (exchange_error (ExchangeError.session session_closed)), 4)
unfolding call dispatch_all dispatch_one exchange_on exchange settle check_response text bytes_eq
second_refused = refl
