-- ===== src/Session/Handle.antt =====
-- The methods of `Session` in session/mod.rs that read the session or run one operation on it with
-- its defaults. A subscription is a receiver of the broadcast channel and is not part of the state.
pub mod Refusal
use openlv_rs.Prelude.{ℕ, Bool, List, Option, none, some}
use openlv_rs.Errors.{OpenLvError, Result, ok, err, panic}
use openlv_rs.Control.{SessionControl, spawn}
use openlv_rs.Control as Control
use openlv_rs.Response.{Round}
use openlv_rs.Transport.Webrtc.{Rtc, TransportState}
use openlv_rs.Transport.Webrtc.Waiting.{StateEvent}
use openlv_rs.Session.{Session, SessionStateObject, SessionPlatform, info_of}
use openlv_rs.Session.Link as Link
use openlv_rs.Session.Sending.{RequestTimes, send_with_timeouts}

abbrev pub default_ack_timeout_ms : ℕ
default_ack_timeout_ms = 10000

abbrev pub default_response_timeout_ms : ℕ
default_response_timeout_ms = 3600000

module _ {V P D C : Type 0} where
  unfoldable pub state : Session V P D C → SessionStateObject
  state s = record {
    status = s.status;
    signaling = some s.signal_state;
    peer_info = info_of s.peer_capabilities;
    error = s.error;
  }

  unfoldable pub is_host : Session V P D C → Bool
  is_host s = s.is_host

  -- Whether `closed().await` returns without waiting.
  unfoldable pub is_closed : Session V P D C → Bool
  is_closed s = Control.is_shut_down s.control

  -- `run_operation` around the wait: a closed session refuses.
  run_wait :
      Result OpenLvError ℕ × SessionControl
      → List (StateEvent × TransportState)
      → Session V P D C
      → Option (Result OpenLvError (Unit {0})) × Session V P D C
  run_wait (ok id, control) rounds s = Link.wait_for_link rounds (record s { control = control })
  run_wait (err e, control) rounds s = (some (err e), record s { control = control })
  run_wait (panic, control) rounds s = (some panic, record s { control = control })

  unfoldable pub wait_for_link :
      List (StateEvent × TransportState)
      → Session V P D C
      → Option (Result OpenLvError (Unit {0})) × Session V P D C
  unfolding run_wait
  wait_for_link rounds s = run_wait (spawn s.control) rounds s

  -- The timeouts of `t` are the defaults, whatever they were.
  unfoldable pub send :
      {S : Type 0}
      → Rtc P D S C
      → SessionPlatform V
      → RequestTimes
      → List (Round V)
      → V
      → Session V P D C
      → Option (Result OpenLvError V) × Session V P D C
  send rtc p t rounds message s =
      send_with_timeouts rtc p
        (record t {
          ack_timeout_ms = default_ack_timeout_ms;
          response_timeout_ms = default_response_timeout_ms;
        })
        rounds message s

  -- `SessionInner::drop`
  unfoldable pub drop : Session V P D C → Session V P D C
  drop s = record s { control = Control.close s.control }
