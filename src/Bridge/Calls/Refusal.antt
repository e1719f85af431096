-- ===== src/Bridge/Calls/Refusal.antt =====
-- What the exported methods answer on a closed session.
use openlv_rs.Prelude.{◌≡◌, refl, true, List, none, some, inl, inr, Bool-cases}
use openlv_rs.Text.{Text}
use openlv_rs.Errors.{OpenLvError, session_closed, ok, err}
use openlv_rs.Transport.Webrtc.{Rtc, TransportState}
use openlv_rs.Transport.Webrtc.Waiting.{StateEvent}
use openlv_rs.Response.{Round}
use openlv_rs.Session.{SessionPlatform}
use openlv_rs.Session.Sending.{RequestTimes}
use openlv_rs.Session.Handle.Refusal.{wait_for_link-closed, send_with_timeouts-closed, send-closed}
use openlv_rs.Control as Control
use openlv_rs.Bridge.{bridge_error_from}
use openlv_rs.Bridge.Requests.{Next}
use openlv_rs.Bridge.Requests as Pending
use openlv_rs.Bridge.States.{JsonText}
use openlv_rs.Bridge.Exported.{Exported, on_runtime, lower, parse_with, next_request}
use openlv_rs.Bridge.Calls.{next_request_json, wait_for_link, send, send_with_timeouts}

module _ {V P D C : Type 0} (s : Exported V P D C) where
  next_request-stopped :
      Pending.next s.requests ≡ (Next.stopped, s.requests) → next_request s ≡ (Next.stopped, s)
  unfolding next_request
  next_request-stopped h = elim (Bool-cases (Control.is_shut_down s.inner.session.control)) [
    | inl e ↦ rw e refl
    | inr e ↦ rw (e, h) refl
  ]

  pub next_request_json-stopped :
      (w : JsonText V)
      → Pending.next s.requests ≡ (Next.stopped, s.requests)
      → next_request_json w s ≡ (some none, s)
  unfolding next_request_json
  next_request_json-stopped w h = rw (next_request-stopped h) refl

  module _ (closed : s.inner.session.control.closed ≡ true) (display : OpenLvError → Text)
      (panicked : Text) where
    pub exported_wait-closed :
        (rounds : List (StateEvent × TransportState))
        → wait_for_link display panicked rounds s
          ≡ (some (err (bridge_error_from display session_closed)), s)
    unfolding wait_for_link lower on_runtime
    exported_wait-closed rounds = rw (wait_for_link-closed s.inner.session closed rounds) refl

    module _ {S : Type 0} (w : JsonText V) (rtc : Rtc P D S C) (p : SessionPlatform V)
        (t : RequestTimes) (rounds : List (Round V)) (message : Text) {m : V}
        (parsed : w.from_str message ≡ ok m) where
      pub exported_send-closed :
          send display panicked w rtc p t rounds message s
          ≡ (some (err (bridge_error_from display session_closed)), s)
      unfolding send parse_with lower on_runtime
      exported_send-closed = rw (parsed, send-closed s.inner.session closed rtc p t rounds m) refl

      pub exported_send_with_timeouts-closed :
          send_with_timeouts display panicked w rtc p t rounds message s
          ≡ (some (err (bridge_error_from display session_closed)), s)
      unfolding send_with_timeouts parse_with lower on_runtime
      exported_send_with_timeouts-closed =
          rw (parsed, send_with_timeouts-closed s.inner.session closed rtc p t rounds m) refl
