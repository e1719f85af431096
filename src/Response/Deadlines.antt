-- ===== src/Response/Deadlines.antt =====
-- Laws of response/mod.rs: whose answer is returned, and when the wait ends.
use openlv_rs.Prelude.{
  ℕ, ◌+◌, ◌≤◌, Option, none, if◌then◌else◌, Bool-cases, leb, ◌<◌, ◌≡◌, refl, ◌⊎◌, inl, inr, Bool,
  true, false, List, [], ◌∷◌, ◌++◌, some, arith,
}
use openlv_rs.Text.{Text, bytes_eq}
use openlv_rs.Text.Laws.{bytes_eq_iff}
use openlv_rs.Errors.{OpenLvError, Result, ok, err, panic}
use openlv_rs.Transport.Message.{response, ack, failed}
use openlv_rs.Response.{
  Received, message, Round, Next, returned, waiting, deadline_after, timeout_reason, on_received,
  round, wait_loop, start_loop, receive_response,
}

-- A round of the list satisfies `P`.
pub data Some {V : Type 0} (P : Round V → Type 0) : List (Round V) → Type 0 where
  at : {r : Round V} {rounds : List (Round V)} → P r → Some P (r ∷ rounds)
  further : {r : Round V} {rounds : List (Round V)} → Some P rounds → Some P (r ∷ rounds)

module _ {V : Type 0} (latest : ℕ) (message_id : Text) (resp : ℕ) where
  abbrev pub Answers : V → Round V → Type 0
  Answers v r = r.received ≡ message (response message_id v)

  on_received-answer :
      (deadline : ℕ) (acked : Bool) (later : ℕ) (r : Received V) (v : V)
      → on_received latest message_id resp deadline acked later r ≡ returned (ok v)
      → r ≡ message (response message_id v)
  unfolding on_received
  on_received-answer deadline acked later (message (response id payload)) v h =
      ground (arith, bytes_eq_iff id message_id)
  on_received-answer deadline acked later (message (ack id)) v h = absurd (ground arith)
  on_received-answer deadline acked later (message (failed id)) v h = absurd (ground arith)
  on_received-answer deadline acked later (message m) v h = absurd (ground arith)
  on_received-answer deadline acked later r v h = absurd (ground arith)

  round-answer :
      (deadline : ℕ) (acked : Bool) (r : Round V) (v : V)
      → round latest message_id resp deadline acked r ≡ returned (ok v)
      → (r.now < deadline) × Answers v r
  unfolding round
  round-answer deadline acked r v h =
      (ground arith, on_received-answer deadline acked r.later r.received v (ground arith))

  round-cases :
      (n : Next V)
      → ((result : Result OpenLvError V) × (n ≡ returned result))
        ⊎ ((d : ℕ) × (a : Bool) × (n ≡ waiting d a))
  round-cases (returned result) = inl (result, refl)
  round-cases (waiting d a) = inr (d, a, refl)

  wait_loop-answer :
      (deadline : ℕ) (acked : Bool) (rounds : List (Round V)) (v : V)
      → wait_loop latest message_id resp deadline acked rounds ≡ some (ok v)
      → Some (Answers v) rounds
  unfolding wait_loop
  wait_loop-answer deadline acked [] v h = absurd (ground arith)
  wait_loop-answer deadline acked (r ∷ rounds) v h =
      elim (round-cases (round latest message_id resp deadline acked r)) [
        | inl (result, e) ↦ at (round-answer deadline acked r v (ground arith)).1
        | inr (d, a, e) ↦ further (wait_loop-answer d a rounds v (rw (e, wait_loop) at h))
      ]

  -- A payload is returned only if a response with the request's own id carried it.
  pub receive_response-answer :
      (ack_timeout_ms started : ℕ) (rounds : List (Round V)) (v : V)
      → receive_response latest message_id resp ack_timeout_ms started rounds ≡ some (ok v)
      → Some (Answers v) rounds
  unfolding receive_response
  receive_response-answer ack_timeout_ms started rounds v h =
      started-answer (deadline_after latest started ack_timeout_ms) h
    where
      started-answer :
          (d : Result OpenLvError ℕ)
          → start_loop latest message_id resp d rounds ≡ some (ok v)
          → Some (Answers v) rounds
      started-answer (ok deadline) e =
          wait_loop-answer deadline false rounds v (unfold start_loop in e)
      started-answer (err x) e = absurd (unfold start_loop in (ground arith))
      started-answer panic e = absurd (unfold start_loop in (ground arith))

  -- From the deadline on, a round ends the wait.
  round-late :
      (deadline : ℕ) (acked : Bool) (r : Round V)
      → deadline ≤ r.now
      → round latest message_id resp deadline acked r
        ≡ returned (err (OpenLvError.request_timeout (timeout_reason acked)))
  unfolding round
  round-late deadline acked r h = ground arith

  acked-round :
      (deadline : ℕ) (r : Received V) (later d : ℕ) (a : Bool)
      → on_received latest message_id resp deadline true later r ≡ waiting d a
      → (d ≡ deadline) × (a ≡ true)
  unfolding on_received
  acked-round deadline (message (ack id)) later d a h = ground arith
  acked-round deadline (message (response id payload)) later d a h = ground arith
  acked-round deadline (message (failed id)) later d a h = ground arith
  acked-round deadline (message m) later d a h = ground arith
  acked-round deadline r later d a h = ground arith

  -- Once the acknowledgement came, the wait ends with the first look at the clock behind the
  -- deadline, whatever else arrives.
  pub acked_wait_ends :
      (deadline : ℕ) (before : List (Round V)) (r : Round V) (after : List (Round V))
      → deadline ≤ r.now
      → (result : Result OpenLvError V) × (wait_loop latest message_id resp deadline true
            (before ++ r ∷ after)
          ≡ some result)
  unfolding wait_loop
  acked_wait_ends deadline [] r after late = (
    err (OpenLvError.request_timeout (timeout_reason true)),
    rw (round-late deadline true r late, wait_loop),
  )
  acked_wait_ends deadline (x ∷ before) r after late =
      elim (round-cases (round latest message_id resp deadline true x)) [
        | inl (result, e) ↦ (result, rw (e, wait_loop))
        | inr (d, a, e) ↦
            let (same, still) = kept d a e in
            let (result, done) = acked_wait_ends deadline before r after late in
            (result, rw (e, wait_loop) (rw (same, still) done))
      ]
    where
      kept :
          (d : ℕ) (a : Bool)
          → round latest message_id resp deadline true x ≡ waiting d a
          → (d ≡ deadline) × (a ≡ true)
      kept d a e = acked-round deadline x.received x.later d a (unfold round in (ground arith))

  -- Independently of the loop: the acknowledgement with the request's own id, and when it came for
  -- the first time.
  abbrev pub own_ack : Received V → Bool
  own_ack (message (ack id)) = bytes_eq id message_id
  own_ack _ = false

  abbrev pub first_ack : List (Round V) → Option ℕ
  first_ack [] = none
  first_ack (r ∷ rounds) =
      let rest = first_ack rounds in if own_ack r.received then some r.later else rest

  -- The deadline that stands after these rounds: the one of the acknowledgement until it came, from
  -- then on the one of the response.
  abbrev pub standing : ℕ → List (Round V) → ℕ
  standing deadline rounds = elim (first_ack rounds) [ none ↦ deadline | some t ↦ t + resp ]

  -- A message that is no acknowledgement of the request leaves the deadline as it is, and the
  -- acknowledgement sets it to the response timeout.
  unacked-round :
      (deadline : ℕ) (r : Received V) (later d : ℕ) (a : Bool)
      → on_received latest message_id resp deadline false later r ≡ waiting d a
      → ((own_ack r ≡ true) × (d ≡ later + resp) × (a ≡ true))
        ⊎ ((own_ack r ≡ false) × (d ≡ deadline) × (a ≡ false))
  unfolding on_received
  unacked-round deadline (message (ack id)) later d a h = ground arith
  unacked-round deadline (message (response id payload)) later d a h = ground arith
  unacked-round deadline (message (failed id)) later d a h = ground arith
  unacked-round deadline (message m) later d a h = ground arith
  unacked-round deadline r later d a h = ground arith

  unacked_wait_ends :
      (deadline : ℕ) (before : List (Round V)) (r : Round V) (after : List (Round V))
      → standing deadline before ≤ r.now
      → (result : Result OpenLvError V) × (wait_loop latest message_id resp deadline false
            (before ++ r ∷ after)
          ≡ some result)
  unfolding wait_loop
  unacked_wait_ends deadline [] r after late = (
    err (OpenLvError.request_timeout (timeout_reason false)),
    rw (round-late deadline false r late, wait_loop),
  )
  unacked_wait_ends deadline (x ∷ before) r after late =
      elim (round-cases (round latest message_id resp deadline false x)) [
        | inl (result, e) ↦ (result, rw (e, wait_loop))
        | inr (d, a, e) ↦ elim (kept d a e) [
          | inl (own, moved, acked) ↦
              let (result, done) =
                acked_wait_ends d before r after (rw moved (rw (own, standing) at late)) in
              (result, rw (e, wait_loop) (rw acked done))
          | inr (other, same, still) ↦
              let (result, done) =
                unacked_wait_ends deadline before r after (rw (other, standing) at late) in
              (result, rw (e, wait_loop) (rw (same, still) done))
        ]
      ]
    where
      kept :
          (d : ℕ) (a : Bool)
          → round latest message_id resp deadline false x ≡ waiting d a
          → ((own_ack x.received ≡ true) × (d ≡ x.later + resp) × (a ≡ true))
            ⊎ ((own_ack x.received ≡ false) × (d ≡ deadline) × (a ≡ false))
      kept d a e = unacked-round deadline x.received x.later d a (unfold round in (ground arith))

  -- Whatever arrives, however often and without a pause: the wait ends at the latest with the first
  -- look at the clock behind the standing deadline. That is the timeout of the acknowledgement,
  -- counted from the start, until an acknowledgement with the request's own id comes, and from the
  -- first of these on the timeout of the response, counted from its receipt. No other message and no
  -- second acknowledgement moves it.
  pub wait_ends :
      (ack_timeout_ms started : ℕ) (before : List (Round V)) (r : Round V) (after : List (Round V))
      → standing (started + ack_timeout_ms) before ≤ r.now
      → (result : Result OpenLvError V) × (receive_response latest message_id resp ack_timeout_ms
            started
            (before ++ r ∷ after)
          ≡ some result)
  unfolding receive_response start_loop
  wait_ends ack_timeout_ms started before r after late =
      elim (Bool-cases (leb (started + ack_timeout_ms) latest)) [
        | inl fits ↦
            let (result, done) = unacked_wait_ends (started + ack_timeout_ms) before r after late in
            (result, rw (fits, start_loop) done)
        | inr e ↦ (err OpenLvError.invalid_request_timeout, rw (e, start_loop) refl)
      ]
