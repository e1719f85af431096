-- ===== src/Jsonrpc/Tests.antt =====
-- A run of the exchange.
use openlv_rs.Prelude.{◌≡◌, ◌≢◌, [], ◌∷◌}
use openlv_rs.Text.{text}
use openlv_rs.Errors.{OpenLvError, request_failed, Result, ok, err}
use openlv_rs.Jsonrpc.{session, index, internal_error, exchange}
use openlv_rs.Jsonrpc.Sample.{Value, leaf, object, json, json_laws}
use openlv_rs.Jsonrpc.Answers.{IsResponse, exchange_lem}

abbrev request : Value
request = object ((text "id", leaf (7 ∷ [])) ∷ [])

exchange_lem_example :
    let id = index json request (text "id") in
    ((r : Value) → exchange json (λ v. err request_failed) request ≡ ok r → IsResponse json id r)
    × ((response : Value)
        → ◌≡◌ {A = Result OpenLvError Value} (err request_failed) (ok response)
        → IsResponse json id response
        → exchange json (λ v. err request_failed) request ≡ ok response)
    × (◌≡◌ {A = Result OpenLvError Value} (err request_failed) (err request_failed)
        → exchange json (λ v. err request_failed) request ≡ ok (internal_error json id))
    × ((e : OpenLvError)
        → e ≢ request_failed
        → ◌≡◌ {A = Result OpenLvError Value} (err request_failed) (err e)
        → exchange json (λ v. err request_failed) request ≡ err (session e))
exchange_lem_example = exchange_lem json json_laws (λ v. err request_failed) request
