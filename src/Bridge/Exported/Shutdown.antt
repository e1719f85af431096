-- ===== src/Bridge/Exported/Shutdown.antt =====
-- The shutdown of an exported session.
use openlv_rs.Prelude.{ℕ, ◌≡◌, ◌≢◌, refl, Bool, List, none, some}
use openlv_rs.Text.{Text}
use openlv_rs.Errors.{OpenLvError, session_closed, Result, ok, err, panic}
use openlv_rs.Layer.State.{Platform}
use openlv_rs.Transport.Webrtc.{Rtc}
use openlv_rs.Transport.Webrtc.{TransportState}
use openlv_rs.Transport.Webrtc.Waiting.{StateEvent}
use openlv_rs.Response.{Round}
use openlv_rs.Session.Sending.{RequestTimes}
use openlv_rs.Bridge.States.{JsonText}
use openlv_rs.Bridge.Calls.{next_request_json, wait_for_link, send, send_with_timeouts}
use openlv_rs.Bridge.Calls.Refusal.{
  next_request_json-stopped, exported_wait-closed, exported_send-closed,
  exported_send_with_timeouts-closed,
}
use openlv_rs.Session.{SessionPlatform}
use openlv_rs.Session.Running.{Running}
use openlv_rs.Session.Running as Running
use openlv_rs.Session.Running.Closing.{close_is_final}
use openlv_rs.Bridge.{bridge_error_from}
use openlv_rs.Bridge.Requests.{Requests, Next, handle, awaited, next, no_longer_pending}
use openlv_rs.Bridge.Requests as Pending
use openlv_rs.Bridge.Requests.Reach.{here}
use openlv_rs.Bridge.Requests.Ending.{stop_ends_all}
use openlv_rs.Bridge.Exported.{Exported, lower, on_runtime, shutdown, connect, respond}

module _ {V P D S C : Type 0} (display : OpenLvError → Text) (panicked : Text) (rtc : Rtc P D S C)
    (p : SessionPlatform V) (platform : Platform V) where
  stop_again : (r : Requests) → Pending.stop (Pending.stop r) ≡ Pending.stop r
  unfolding Pending.stop
  stop_again r = refl

  -- The first shutdown whose close does not panic: no request of the peer waits for a native answer
  -- any more and new ones are refused, an answer is refused and changes nothing, a second shutdown
  -- gives the same result and changes nothing, the native handler is told that no request comes, and
  -- a later connect, a wait for the link and a request that is JSON are refused as closed and change
  -- nothing.
  pub shutdown_is_final :
      (w : JsonText V) (s : Exported V P D C)
      → s.inner.close_result ≡ none
      → (Running.close rtc p platform s.inner).0 ≢ panic
      → let s' = (shutdown display panicked rtc p platform s).1 in
        let closed = bridge_error_from display session_closed in
        ((channel : ℕ)
          → (result : Result OpenLvError V) × (awaited w.from_str channel s'.requests
              ≡ some result))
        × ((delivered : Bool) (message : Text)
            → (handle delivered message s'.requests).0 ≡ err session_closed)
        × ((id : ℕ) (response : Text) → respond id response s' ≡ (err no_longer_pending, s'))
        × (shutdown display panicked rtc p platform s' ≡ shutdown display panicked rtc p platform s)
        × (connect display panicked rtc p platform s' ≡ (err closed, s'))
        × (next_request_json w s' ≡ (some none, s'))
        × ((rounds : List (StateEvent × TransportState))
            → wait_for_link display panicked rounds s' ≡ (some (err closed), s'))
        × ((t : RequestTimes) (rounds : List (Round V)) (message : Text) (m : V)
            → w.from_str message ≡ ok m
            → (send display panicked w rtc p t rounds message s' ≡ (some (err closed), s'))
              × (send_with_timeouts display panicked w rtc p t rounds message s'
                  ≡ (some (err closed), s')))
  unfolding shutdown connect respond lower on_runtime
  shutdown_is_final w s fresh n =
      let (waits, refuses, replies, stopped) = stop_ends_all w.from_str s.requests here in
      let (closed, again, refused) = close_is_final rtc p platform s.inner fresh n in
      let s' = (shutdown display panicked rtc p platform s).1 in
      (
        waits,
        refuses,
        λ id response. rw (respond, replies id (ok response)) refl,
        rw (shutdown, again, stop_again s.requests) refl,
        rw (connect, refused) refl,
        next_request_json-stopped s' w stopped,
        λ rounds. exported_wait-closed s' closed.closed display panicked rounds,
        λ t rounds message m parsed. (
          exported_send-closed s' closed.closed display panicked w rtc p t rounds message parsed,
          exported_send_with_timeouts-closed s' closed.closed display panicked w rtc p t rounds
              message parsed,
        ),
      )
