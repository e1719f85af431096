-- ===== src/Session/Link.antt =====
-- The wait for the link in session/mod.rs, on what the subscription of the
-- transport's states gives, with the state after each receipt.
pub mod Waiting
use openlv_rs.Prelude.{List, [], ◌∷◌, Option, none, some, if◌then◌else◌}
use openlv_rs.Text.{text}
use openlv_rs.Errors.{OpenLvError, session, Result, ok, err}
use openlv_rs.Transport.Webrtc.Waiting.{StateEvent, state_seen, channel_closed}
use openlv_rs.Transport.Webrtc.{TransportState, is_connected}
use openlv_rs.Session.{Session, SessionState, or_else, set_status, set_transport_error}

module _ {V P D C : Type 0} where
  failed_to_connect : Session V P D C → Result OpenLvError (Unit {0})
  failed_to_connect s = err (session (or_else s.error (text "session failed to connect")))

  -- `if self.transport.state() == Connected { … return Ok(()) }`
  check_now :
      TransportState
      → Option (Result OpenLvError (Unit {0}))
      → Session V P D C
      → Option (Result OpenLvError (Unit {0})) × Session V P D C
  check_now now otherwise s =
      if is_connected now
      then (some (ok tt), set_status SessionState.connected s)
      else (otherwise, s)

  -- One round of the loop of `wait_for_link`: `none` where it goes on. `now` is the state of the
  -- transport after the receipt.
  link_round :
      StateEvent
      → TransportState
      → Session V P D C
      → Option (Result OpenLvError (Unit {0})) × Session V P D C
  link_round (state_seen TransportState.connected) now s =
      (some (ok tt), set_status SessionState.connected s)
  link_round (state_seen TransportState.error) now s =
      let s' = set_status SessionState.disconnected (set_transport_error s) in
      (some (failed_to_connect s'), s')
  link_round channel_closed now s =
      check_now now (some (err (session (text "transport state channel closed")))) s
  link_round seen now s = check_now now none s

  -- `none`: the rounds are over and the loop still waits.
  link_loop :
      List (StateEvent × TransportState)
      → Session V P D C
      → Option (Result OpenLvError (Unit {0})) × Session V P D C
  link_loop [] s = (none, s)
  link_loop ((seen, now) ∷ rounds) s =
      let (outcome, s') = link_round seen now s in
      elim outcome [ some result ↦ (some result, s') | none ↦ link_loop rounds s' ]

  wait_at :
      SessionState
      → List (StateEvent × TransportState)
      → Session V P D C
      → Option (Result OpenLvError (Unit {0})) × Session V P D C
  wait_at SessionState.connected rounds s = (some (ok tt), s)
  wait_at SessionState.disconnected rounds s = (some (failed_to_connect s), s)
  wait_at status rounds s =
      if is_connected s.transport.state
      then (some (ok tt), set_status SessionState.connected s)
      else link_loop rounds s

  pub wait_for_link :
      List (StateEvent × TransportState)
      → Session V P D C
      → Option (Result OpenLvError (Unit {0})) × Session V P D C
  wait_for_link rounds s = wait_at s.status rounds s
