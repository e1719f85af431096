-- ===== src/Session/Running.antt =====
-- Connecting and closing a session in session/mod.rs: the session with its signaling layer, the
-- events of the transport that the first connect takes, and the result that all closes share.
pub mod Closing
pub mod Loops
pub mod Relay
pub mod Sample
mod Tests
use openlv_rs.Prelude.{Bool, true, false, Option, none, some, if◌then◌else◌}
use openlv_rs.Text.{Text, text}
use openlv_rs.Errors.{OpenLvError, session, Result, ok, err, panic}
use openlv_rs.Stateful.{M, continue_with, ◌>>=◌, ◌>>◌, lift, modify, pure}
use openlv_rs.Layer.State.{Layer, Platform}
use openlv_rs.Layer.Sending as Signaling
use openlv_rs.Control.{SessionControl, spawn}
use openlv_rs.Control as Control
use openlv_rs.Transport.Message.{close as close_message}
use openlv_rs.Transport.Webrtc.{Rtc}
use openlv_rs.Transport.Webrtc as Webrtc
use openlv_rs.Session.{
  Session, SessionState, SessionPlatform, set_status, send_session_message, on_transport,
}

pub record Running (V P D C : Type 0) : Type 0 where
  pub session : Session V P D C
  pub signaling : Layer V
  pub transport_events : Bool
  pub close_result : Option (Result OpenLvError (Unit {0}))

-- `Result::and`
abbrev both :
    Result OpenLvError (Unit {0}) → Result OpenLvError (Unit {0}) → Result OpenLvError (Unit {0})
both (ok done) r = r
both (err e) r = err e
both panic r = panic

module _ {V P D C : Type 0} where
  -- The session reads the fields of its signaling layer.
  abbrev with_signaling : Layer V → Running V P D C → Running V P D C
  with_signaling l s = record s {
    signaling = l;
    session = record s.session {
      signal_state = l.inner.state;
      relying_key = l.inner.relying_key;
      peer_capabilities = l.inner.peer_capabilities;
    };
  }

  abbrev on_session : (Session V P D C → Session V P D C) → Running V P D C → Running V P D C
  on_session f s = record s { session = f s.session }

  abbrev on_signaling : M (Layer V) (Unit {0}) → M (Running V P D C) (Unit {0})
  on_signaling call s = let (r, l) = call s.signaling in (r, with_signaling l s)

  abbrev with_control : SessionControl → Running V P D C → Running V P D C
  with_control control s = on_session (λ x. record x { control = control }) s

  -- One task is spawned.
  pub spawn_loop : M (Running V P D C) (Unit {0})
  spawn_loop s =
      let (r, control) = spawn s.session.control in
      continue_with (r, with_control control s) λ id. pure tt

  pub start_event_loops : M (Running V P D C) (Unit {0})
  unfolding spawn_loop
  start_event_loops = do spawn_loop; spawn_loop; spawn_loop; spawn_loop

  take_transport_events : M (Running V P D C) (Unit {0})
  take_transport_events s =
      if s.transport_events
      then (ok tt, record s { transport_events = false })
      else (err (session (text "session already connected")), s)

  -- The operation of `connect`, and `run_operation` around it: a closed session refuses.
  pub connect_operation : Platform V → M (Running V P D C) (Unit {0})
  unfolding take_transport_events start_event_loops
  connect_operation platform = do
    take_transport_events
    modify (on_session (set_status SessionState.signaling))
    start_event_loops
    on_signaling (Signaling.setup platform)

  pub connect : Platform V → M (Running V P D C) (Unit {0})
  unfolding spawn_loop connect_operation
  connect platform = do spawn_loop; connect_operation platform

  -- A call whose error is kept for the end; a panic ends the method at once.
  abbrev keep_going :
      Result OpenLvError (Unit {0}) × Running V P D C
      → (Result OpenLvError (Unit {0}) → M (Running V P D C) (Unit {0}))
      → Result OpenLvError (Unit {0}) × Running V P D C
  keep_going (ok done, s) f = f (ok tt) s
  keep_going (err e, s) f = f (err e) s
  keep_going (panic, s) f = (panic, s)

  module _ {S : Type 0} (rtc : Rtc P D S C) (p : SessionPlatform V) (platform : Platform V) where
    say_goodbye : M (Running V P D C) (Unit {0})
    say_goodbye s =
        let (r, x) = send_session_message rtc p close_message s.session in
        (r, record s { session = x })

    tear_down_transport : M (Running V P D C) (Unit {0})
    tear_down_transport s =
        let (r, x) = on_transport rtc p (Webrtc.teardown rtc) s.session in
        (r, record s { session = x })

    finish_close : Result OpenLvError (Unit {0}) → M (Running V P D C) (Unit {0})
    finish_close r s =
        (r, record (on_session (set_status SessionState.disconnected) s) { close_result = some r })

    end_signaling : Result OpenLvError (Unit {0}) → M (Running V P D C) (Unit {0})
    unfolding finish_close
    end_signaling transport_result s =
        keep_going (on_signaling (Signaling.teardown platform) s)
          λ signaling_result. finish_close (both transport_result signaling_result)

    end_transport : M (Running V P D C) (Unit {0})
    unfolding tear_down_transport end_signaling
    end_transport s =
        keep_going (tear_down_transport (with_control (Control.wait_for_tasks s.session.control) s))
          end_signaling

    -- The closure that `get_or_init` runs once; the failure of the close message is only logged.
    pub tear_down : M (Running V P D C) (Unit {0})
    unfolding say_goodbye end_transport
    tear_down s = keep_going (say_goodbye s) λ goodbye. end_transport

    -- `get_or_init`
    once : Option (Result OpenLvError (Unit {0})) → M (Running V P D C) (Unit {0})
    unfolding tear_down
    once none s = tear_down s
    once (some r) s = (r, s)

    pub close : M (Running V P D C) (Unit {0})
    unfolding once
    close s = once s.close_result (with_control (Control.close s.session.control) s)
