-- ===== src/Jsonrpc/Answers.antt =====
-- What `exchange` answers.
use openlv_rs.Prelude.{◌≡◌, ◌≢◌, refl, true, some, inl, inr, Bool-cases, Option-cases}
use openlv_rs.Text.{Text, text, bytes_eq}
use openlv_rs.Errors.{OpenLvError, request_failed, Result, ok, err, panic, ok-injective}
use openlv_rs.Jsonrpc.{
  Json, JsonLaws, session, member, index, internal_error, has_id, check_response, settle, exchange,
}

module _ {V : Type 0} (j : Json V) where
  -- A JSON-RPC 2.0 response to the request with this id.
  pub record IsResponse (id response : V) : Type 0 where
    pub version : j.get response (text "jsonrpc") ≡ some (j.string (text "2.0"))
    pub same_id : j.get response (text "id") ≡ some id

  module _ (laws : JsonLaws j) where
    index-eq : (v w : V) (key : Text) → j.null ≢ w → index j v key ≡ w → j.get v key ≡ some w
    index-eq v w key n h = elim (Option-cases (j.get v key)) [
      | inl e ↦ absurd (n (rw (index, e) at h))
      | inr (x, e) ↦ let same : x ≡ w = rw (index, e) at h in rw same at e
    ]

    check_response-ok : (id response r : V) → check_response j id response ≡ ok r → IsResponse id r
    unfolding check_response has_id
    check_response-ok id response r h =
        let two = j.string (text "2.0") in
        elim (Bool-cases (j.equals (index j response (text "jsonrpc")) two)) [
          | inr a ↦ let bad = rw (check_response, a) at h in cc
          | inl a ↦ elim (Option-cases (j.get response (text "id"))) [
            | inl e ↦ let bad = rw (check_response, a, e) at h in cc
            | inr (v, e) ↦ elim (Bool-cases (j.equals v id)) [
              | inr b ↦ let bad = rw (check_response, a, e, b) at h in cc
              | inl b ↦
                  let done : response ≡ r = ok-injective (rw (check_response, a, e, b) at h) in
                  let same : v ≡ id = (laws.equals_iff v id).0 b in
                  rw (← done) (record {
                    version =
                        index-eq response two (text "jsonrpc") (laws.null_not_string (text "2.0"))
                          ((laws.equals_iff (index j response (text "jsonrpc")) two).0 a);
                    same_id = rw same at e;
                  })
            ]
          ]
        ]

    check_response-accepts :
        (id response : V) → IsResponse id response → check_response j id response ≡ ok response
    unfolding check_response has_id
    check_response-accepts id response i =
        let same : (v : V) → j.equals v v ≡ true = λ v. (laws.equals_iff v v).1 refl in
        rw (check_response, index, i.version, i.same_id, same (j.string (text "2.0")), same id) refl

    internal_error-IsResponse : (id : V) → IsResponse id (internal_error j id)
    unfolding internal_error member text bytes_eq
    internal_error-IsResponse id = record {
      version = laws.get_object id _ _ (text "jsonrpc");
      same_id = laws.get_object id _ _ (text "id");
    }

    answer_of-ok :
        (id : V) (outcome : Result OpenLvError V) (r : V)
        → settle j id outcome ≡ ok r
        → IsResponse id r
    unfolding settle
    answer_of-ok id (ok response) r h = check_response-ok id response r h
    answer_of-ok id (err request_failed) r h = rw (← ok-injective h) (internal_error-IsResponse id)
    answer_of-ok id (err e) r h = cc
    answer_of-ok id panic r h = cc

    other_errors :
        (id : V) (e : OpenLvError) → e ≢ request_failed → settle j id (err e) ≡ err (session e)
    unfolding settle
    other_errors id request_failed n = absurd (n refl)
    other_errors id e n = refl

    -- Under the laws of JSON: what `exchange` answers is a JSON-RPC 2.0 response with the id of the
    -- request (null where the request has none), whatever the session returned. A response like that
    -- passes through unchanged, a request that the peer failed to handle is answered with an
    -- internal error, and any other error of the session is passed on.
    pub exchange_lem :
        (send : V → Result OpenLvError V) (request : V)
        → let id = index j request (text "id") in
          ((r : V) → exchange j send request ≡ ok r → IsResponse id r)
          × ((response : V)
              → send request ≡ ok response
              → IsResponse id response
              → exchange j send request ≡ ok response)
          × (send request ≡ err request_failed → exchange j send request ≡ ok (internal_error j id))
          × ((e : OpenLvError)
              → e ≢ request_failed
              → send request ≡ err e
              → exchange j send request ≡ err (session e))
    unfolding exchange settle
    exchange_lem send request =
        let id = index j request (text "id") in
        (
          λ r h. answer_of-ok id (send request) r h,
          λ response e i. rw e (check_response-accepts id response i),
          λ e. rw e refl,
          λ e n h. rw h (other_errors id e n),
        )
