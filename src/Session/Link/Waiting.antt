-- ===== src/Session/Link/Waiting.antt =====
-- The wait for the link in session/mod.rs.
use openlv_rs.Prelude.{
  ◌≡◌, refl, List, [], ◌∷◌, ◌++◌, Option, none, some, inl, inr, Option-cases, Bool-cases, ◌≢◌, ◌∙◌,
}
use openlv_rs.Errors.{OpenLvError, Result, ok}
use openlv_rs.Transport.Webrtc.{TransportState, is_connected}
use openlv_rs.Transport.Webrtc.Waiting.{StateEvent, state_seen, lagged, channel_closed}
use openlv_rs.Session.{Session, SessionState, set_status}
use openlv_rs.Session.Link.{
  check_now, link_round, link_loop, wait_at, wait_for_link, failed_to_connect,
}

module _ {V P D C : Type 0} where
  check_now-ok :
      (now : TransportState) (otherwise : Option (Result OpenLvError (Unit {0})))
      (s : Session V P D C)
      → otherwise ≢ some (ok tt)
      → (check_now now otherwise s).0 ≡ some (ok tt)
      → (check_now now otherwise s).1.status ≡ SessionState.connected
  unfolding check_now set_status
  check_now-ok now otherwise s n h = elim (Bool-cases (is_connected now)) [
    | inl c ↦ rw c refl
    | inr c ↦ absurd (n (rw c at h))
  ]

  link_round-ok :
      (seen : StateEvent) (now : TransportState) (s : Session V P D C)
      → (link_round seen now s).0 ≡ some (ok tt)
      → (link_round seen now s).1.status ≡ SessionState.connected
  unfolding link_round set_status failed_to_connect
  link_round-ok (state_seen TransportState.connected) now s h = refl
  link_round-ok (state_seen TransportState.error) now s h = cc
  link_round-ok channel_closed now s h = check_now-ok now _ s (λ e. cc) h
  link_round-ok (state_seen t) now s h = check_now-ok now none s (λ e. cc) h
  link_round-ok lagged now s h = check_now-ok now none s (λ e. cc) h

  link_loop-ok :
      (rounds : List (StateEvent × TransportState)) (s : Session V P D C)
      → (link_loop rounds s).0 ≡ some (ok tt)
      → (link_loop rounds s).1.status ≡ SessionState.connected
  unfolding link_loop
  link_loop-ok [] s h = cc
  link_loop-ok ((seen, now) ∷ rounds) s h = elim (Option-cases (link_round seen now s).0) [
    | inl e ↦
        rw (e, link_loop) (link_loop-ok rounds (link_round seen now s).1 (rw (e, link_loop) at h))
    | inr (result, e) ↦ rw (e, link_loop) (link_round-ok seen now s (e ∙ (rw (e, link_loop) at h)))
  ]

  link_loop-ends :
      (before after : List (StateEvent × TransportState)) (now : TransportState)
      (s : Session V P D C)
      → (result : Result OpenLvError (Unit {0})) × ((link_loop
            (before ++ (state_seen TransportState.connected, now) ∷ after)
            s).0
          ≡ some result)
  unfolding link_loop link_round
  link_loop-ends [] after now s = (ok tt, refl)
  link_loop-ends ((seen, at) ∷ before) after now s = elim (Option-cases (link_round seen at s).0) [
    | inl e ↦
        let (result, done) = link_loop-ends before after now (link_round seen at s).1 in
        (result, rw (e, link_loop) done)
    | inr (result, e) ↦ (result, rw (e, link_loop) refl)
  ]

  wait_at-ok :
      (status : SessionState) (rounds : List (StateEvent × TransportState)) (s : Session V P D C)
      → s.status ≡ status
      → (wait_at status rounds s).0 ≡ some (ok tt)
      → (wait_at status rounds s).1.status ≡ SessionState.connected
  unfolding wait_at failed_to_connect set_status
  wait_at-ok SessionState.connected rounds s e h = e
  wait_at-ok SessionState.disconnected rounds s e h = cc
  wait_at-ok status rounds s e h = elim (Bool-cases (is_connected s.transport.state)) [
    | inl c ↦ rw c refl
    | inr c ↦ rw c (link_loop-ok rounds s (rw c at h))
  ]

  wait_at-ends :
      (status : SessionState) (before after : List (StateEvent × TransportState))
      (now : TransportState) (s : Session V P D C)
      → (result : Result OpenLvError (Unit {0})) × ((wait_at status
            (before ++ (state_seen TransportState.connected, now) ∷ after)
            s).0
          ≡ some result)
  unfolding wait_at
  wait_at-ends SessionState.connected before after now s = (ok tt, refl)
  wait_at-ends SessionState.disconnected before after now s = (failed_to_connect s, refl)
  wait_at-ends status before after now s = elim (Bool-cases (is_connected s.transport.state)) [
    | inl c ↦ (ok tt, rw c refl)
    | inr c ↦ let (result, done) = link_loop-ends before after now s in (result, rw c done)
  ]

  -- A wait that succeeds leaves the session connected, and a wait that sees the transport connected
  -- ends, whatever it saw before.
  pub wait_for_link_lem :
      (before after : List (StateEvent × TransportState)) (now : TransportState)
      (s : Session V P D C)
      → (((wait_for_link (before ++ (state_seen TransportState.connected, now) ∷ after) s).0
            ≡ some (ok tt))
          → (wait_for_link
              (before ++ (state_seen TransportState.connected, now) ∷ after)
              s).1.status
            ≡ SessionState.connected)
        × ((result : Result OpenLvError (Unit {0})) × ((wait_for_link
                (before ++ (state_seen TransportState.connected, now) ∷ after)
                s).0
              ≡ some result))
  unfolding wait_for_link
  wait_for_link_lem before after now s =
      (wait_at-ok s.status _ s refl, wait_at-ends s.status before after now s)
