-- ===== src/Provider/Batches.antt =====
-- How a batch of requests is answered.
use openlv_rs.Prelude.{◌≡◌, ◌⊎◌, refl, ap, List, [], ◌∷◌, ◌++◌, inl, inr}
use openlv_rs.Text.{text}
use openlv_rs.Errors.{OpenLvError, Result, ok, err, panic, map_err-eq-ok, ok-injective}
use openlv_rs.Jsonrpc.{JsonLaws, index}
use openlv_rs.Jsonrpc.Answers.{IsResponse, exchange_lem}
use openlv_rs.Stateful.{continue_with}
use openlv_rs.Provider.{
  batch, TransportError, AlloyJson, exchange_on, dispatch_one, dispatch_all, call,
}

-- A step that goes on to a success was a success.
continue_with-ok :
    {E S A B : Type 0} (m : Result E A × S) (f : A → S → Result E B × S) {b : B} {s : S}
    → continue_with m f ≡ (ok b, s)
    → (a : A) × (m ≡ (ok a, m.1)) × (f a m.1 ≡ (ok b, s))
continue_with-ok (ok a, s) f h = (a, refl, h)
continue_with-ok (err e, s) f h = cc
continue_with-ok (panic, s) f h = cc

-- A step that goes on to a failure failed, or was a success with a rest that failed.
continue_with-err :
    {E S A B : Type 0} (m : Result E A × S) (f : A → S → Result E B × S) {e : E} {s : S}
    → continue_with m f ≡ (err e, s)
    → (m ≡ (err e, s)) ⊎ ((a : A) × (m ≡ (ok a, m.1)) × (f a m.1 ≡ (err e, s)))
continue_with-err (ok a, s) f h = inr (a, refl, h)
continue_with-err (err e, s) f h = inl (cc)
continue_with-err (panic, s) f h = cc

module _ {V Q R S : Type 0} (a : AlloyJson V Q R) (send : V → S → Result OpenLvError V × S) where
  -- The response is read from a JSON-RPC response to the request.
  pub record Answers (req : Q) (response : R) : Type 0 where
    pub request : V
    pub value : V
    pub request_read : a.from_str (a.serialized req) ≡ ok request
    pub is_response : IsResponse a.json (index a.json request (text "id")) value
    pub response_read : a.from_value value ≡ ok response

  -- One response for each request, in order.
  abbrev pub AllAnswered : List Q → List R → Type 0
  AllAnswered [] [] = Unit
  AllAnswered (req ∷ reqs) (response ∷ responses) =
      Answers req response × AllAnswered reqs responses
  AllAnswered _ _ = ⊥

  module _ (laws : JsonLaws a.json) where
    dispatch_one-Answers :
        (req : Q) (s : S) {response : R} {s' : S}
        → dispatch_one a send req s ≡ (ok response, s')
        → Answers req response
    unfolding dispatch_one exchange_on
    dispatch_one-Answers req s h =
        let (request, e1, h1) = continue_with-ok _ _ h in
        let (value, e2, h2) = continue_with-ok _ _ h1 in
        let read = map_err-eq-ok _ _ (ap (λ p. p.0) e1) in
        record {
          request = request;
          value = value;
          request_read = read;
          is_response =
              (exchange_lem a.json laws (λ v. (send v s).0) request).0 value
                (map_err-eq-ok _ _ (ap (λ p. p.0) e2));
          response_read = map_err-eq-ok _ _ (ap (λ p. p.0) h2);
        }

    dispatch_all-AllAnswered :
        (reqs : List Q) (s : S) {responses : List R} {s' : S}
        → dispatch_all a send reqs s ≡ (ok responses, s')
        → AllAnswered reqs responses
    unfolding dispatch_all
    dispatch_all-AllAnswered [] s h =
        let same : [] ≡ _ = ok-injective (ap (λ p. p.0) h) in rw (← same) tt
    dispatch_all-AllAnswered (req ∷ reqs) s h =
        let (response, e1, h1) = continue_with-ok (dispatch_one a send req s) _ h in
        let s1 = (dispatch_one a send req s).1 in
        let (others, e2, h2) = continue_with-ok (dispatch_all a send reqs s1) _ h1 in
        let same : response ∷ others ≡ _ = ok-injective (ap (λ p. p.0) h2) in
        rw (← same) ((dispatch_one-Answers req s e1, dispatch_all-AllAnswered reqs s1 e2))

  -- The first request that fails: those before it were answered, it left the state `s'`, and those
  -- after it were not dispatched.
  pub record StopsAt (reqs : List Q) (s : S) (e : TransportError) (s' : S) : Type 0 where
    pub before : List Q
    pub req : Q
    pub after : List Q
    pub responses : List R
    pub between : S
    pub split : reqs ≡ before ++ req ∷ after
    pub answered : dispatch_all a send before s ≡ (ok responses, between)
    pub refused : dispatch_one a send req between ≡ (err e, s')

  stops_later :
      (req : Q) (reqs : List Q) (s s' : S) (response : R) {e : TransportError} {last : S}
      → dispatch_one a send req s ≡ (ok response, s')
      → StopsAt reqs s' e last
      → StopsAt (req ∷ reqs) s e last
  unfolding dispatch_all
  stops_later req reqs s s' response first i = record {
    before = req ∷ i.before;
    req = i.req;
    after = i.after;
    responses = response ∷ i.responses;
    between = i.between;
    split = ap (λ rest. req ∷ rest) i.split;
    answered = rw (dispatch_all, first, i.answered) refl;
    refused = i.refused;
  }

  dispatch_all-StopsAt :
      (reqs : List Q) (s : S) {e : TransportError} {s' : S}
      → dispatch_all a send reqs s ≡ (err e, s')
      → StopsAt reqs s e s'
  unfolding dispatch_all
  dispatch_all-StopsAt [] s h = cc
  dispatch_all-StopsAt (req ∷ reqs) s h = elim (continue_with-err (dispatch_one a send req s) _ h) [
    | inl e ↦ record {
      before = [];
      req = req;
      after = reqs;
      responses = [];
      between = s;
      split = refl;
      answered = refl;
      refused = e;
    }
    | inr (response, first, rest) ↦
        let s' = (dispatch_one a send req s).1 in
        elim (continue_with-err (dispatch_all a send reqs s') _ rest) [
          | inl e ↦ stops_later req reqs s s' response first (dispatch_all-StopsAt reqs s' e)
          | inr (responses, _, done) ↦ cc
        ]
  ]

  module _ (laws : JsonLaws a.json) where
    -- Under the laws of JSON, whatever the session answers: a batch that succeeds has one response
    -- for each request, in order, each read from a JSON-RPC response with the id of its request. A
    -- batch that fails has a first request that fails with this error; the requests before it were
    -- answered, and those after it were not dispatched.
    pub batch_lem :
        (reqs : List Q) (s : S)
        → ((responses : List R)
            → (call a send (batch reqs) s).0 ≡ ok (batch responses)
            → AllAnswered reqs responses)
          × ((e : TransportError)
              → (call a send (batch reqs) s).0 ≡ err e
              → StopsAt reqs s e (call a send (batch reqs) s).1)
    unfolding call
    batch_lem reqs s =
        let s' = (call a send (batch reqs) s).1 in
        (
          λ responses h.
              let whole : call a send (batch reqs) s ≡ (ok (batch responses), s') =
                λ i. (h i, s') in
              let (rs, e1, h1) = continue_with-ok (dispatch_all a send reqs s) _ whole in
              let same : batch rs ≡ batch responses = ok-injective (ap (λ p. p.0) h1) in
              let listed : rs ≡ responses = cc in
              rw listed at (dispatch_all-AllAnswered laws reqs s e1),
          λ e h.
              let whole : call a send (batch reqs) s ≡ (err e, s') = λ i. (h i, s') in
              elim (continue_with-err (dispatch_all a send reqs s) _ whole) [
                | inl e1 ↦ dispatch_all-StopsAt reqs s e1
                | inr (rs, _, done) ↦ cc
              ],
        )
