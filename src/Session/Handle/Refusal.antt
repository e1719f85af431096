-- ===== src/Session/Handle/Refusal.antt =====
-- What a closed session does with the calls of its owner.
use openlv_rs.Prelude.{◌≡◌, refl, true, List, some}
use openlv_rs.Errors.{session_closed, err}
use openlv_rs.Control.{SessionControl, spawn}
use openlv_rs.Response.{Round}
use openlv_rs.Transport.Webrtc.{Rtc, TransportState}
use openlv_rs.Transport.Webrtc.Waiting.{StateEvent}
use openlv_rs.Session.{Session, SessionPlatform}
use openlv_rs.Session.Sending.{RequestTimes, send_with_timeouts}
use openlv_rs.Session.Handle.{wait_for_link, send}

pub spawn-closed : (c : SessionControl) → c.closed ≡ true → spawn c ≡ (err session_closed, c)
unfolding spawn
spawn-closed c h = rw h refl

module _ {V P D C : Type 0} (s : Session V P D C) (closed : s.control.closed ≡ true) where
  pub wait_for_link-closed :
      (rounds : List (StateEvent × TransportState))
      → wait_for_link rounds s ≡ (some (err session_closed), s)
  unfolding wait_for_link
  wait_for_link-closed rounds = rw (spawn-closed s.control closed) refl

  pub send_with_timeouts-closed :
      {S : Type 0} (rtc : Rtc P D S C) (p : SessionPlatform V) (t : RequestTimes)
      (rounds : List (Round V)) (message : V)
      → send_with_timeouts rtc p t rounds message s ≡ (some (err session_closed), s)
  unfolding send_with_timeouts
  send_with_timeouts-closed rtc p t rounds message = rw (spawn-closed s.control closed) refl

  pub send-closed :
      {S : Type 0} (rtc : Rtc P D S C) (p : SessionPlatform V) (t : RequestTimes)
      (rounds : List (Round V)) (message : V)
      → send rtc p t rounds message s ≡ (some (err session_closed), s)
  unfolding send
  send-closed rtc p t rounds message = send_with_timeouts-closed rtc p _ rounds message
