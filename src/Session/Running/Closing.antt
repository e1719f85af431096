-- ===== src/Session/Running/Closing.antt =====
-- The close of a session: once, shared by all that call it, and for good.
use openlv_rs.Prelude.{◌≡◌, ◌≢◌, refl, ap, ◌∙◌, true, [], Option, none, some, arith}
use openlv_rs.Errors.{OpenLvError, session_closed, Result, ok, err, panic}
use openlv_rs.Layer.State.{Platform}
use openlv_rs.Layer.Sending as Signaling
use openlv_rs.Control.{SessionControl, spawn}
use openlv_rs.Control as Control
use openlv_rs.Transport.Message.{close as close_message}
use openlv_rs.Transport.Webrtc.{Rtc}
use openlv_rs.Session.{SessionState, SessionPlatform, set_status, on_transport}
use openlv_rs.Session.Requests.{send_session_message-control}
use openlv_rs.Session.Running.{
  Running, spawn_loop, connect, keep_going, with_control, say_goodbye, tear_down_transport,
  finish_close, tear_down, close, both, end_signaling, end_transport, on_signaling, once,
}

-- The session is closed for good, with the result that all calls of `close` give.
pub record IsClosed {V P D C : Type 0} (r : Result OpenLvError (Unit {0})) (s : Running V P D C)
    : Type 0 where
  pub closed : s.session.control.closed ≡ true
  pub shared : s.close_result ≡ some r
  pub idle : s.session.control.tasks ≡ []
  pub status : s.session.status ≡ SessionState.disconnected

-- What holds before the rest of `keep_going` gives what holds at its end, unless it panics.
keep_going-keeps :
    {V P D C : Type 0} (Before : Running V P D C → Type 0)
    (After : Result OpenLvError (Unit {0}) × Running V P D C → Type 0)
    (m : Result OpenLvError (Unit {0}) × Running V P D C)
    (f : Result OpenLvError (Unit {0})
      → Running V P D C
      → Result OpenLvError (Unit {0}) × Running V P D C)
    → Before m.1
    → ((r : Result OpenLvError (Unit {0})) → Before m.1 → (f r m.1).0 ≢ panic → After (f r m.1))
    → (keep_going m f).0 ≢ panic
    → After (keep_going m f)
keep_going-keeps Before After (ok done, s) f b k n = k (ok tt) b n
keep_going-keeps Before After (err e, s) f b k n = k (err e) b n
keep_going-keeps Before After (panic, s) f b k n = absurd (n refl)

abbrev Ended : SessionControl → Type 0
Ended c = (c.closed ≡ true) × (c.tasks ≡ [])

wait_for_tasks-Ended : (c : SessionControl) → c.closed ≡ true → Ended (Control.wait_for_tasks c)
unfolding Control.wait_for_tasks
wait_for_tasks-Ended c h = (h, refl)

close-closed : (c : SessionControl) → (Control.close c).closed ≡ true
unfolding Control.close
close-closed c = ground arith

module _ {V P D S C : Type 0} (rtc : Rtc P D S C) (p : SessionPlatform V)
    (platform : Platform V) where
  once-some :
      (r : Result OpenLvError (Unit {0})) (s : Running V P D C)
      (o : Option (Result OpenLvError (Unit {0})))
      → o ≡ some r
      → once rtc p platform o s ≡ (r, s)
  unfolding once
  once-some r s o e = rw e refl

  once-none :
      (s : Running V P D C) (o : Option (Result OpenLvError (Unit {0})))
      → o ≡ none
      → once rtc p platform o s ≡ tear_down rtc p platform s
  unfolding once
  once-none s o e = rw e refl

  close_again :
      (r : Result OpenLvError (Unit {0})) (s : Running V P D C)
      → IsClosed r s
      → close rtc p platform s ≡ (r, s)
  unfolding close
  close_again r s i =
      let same : Control.close s.session.control ≡ s.session.control =
        unfold Control.close in (rw i.closed refl) in
      once-some r (with_control (Control.close s.session.control) s) s.close_result i.shared
      ∙ ap (λ c. (r, with_control c s)) same

  connect_closed :
      (r : Result OpenLvError (Unit {0})) (s : Running V P D C)
      → IsClosed r s
      → connect platform s ≡ (err session_closed, s)
  unfolding connect spawn_loop
  connect_closed r s i =
      let same : spawn s.session.control ≡ (err session_closed, s.session.control) =
        unfold spawn in (rw i.closed refl) in
      rw (connect, spawn_loop, same) refl

  finish_close-IsClosed :
      (r : Result OpenLvError (Unit {0})) (s : Running V P D C)
      → Ended s.session.control
      → IsClosed r (finish_close rtc p platform r s).1
  unfolding finish_close set_status
  finish_close-IsClosed r s (c, t) = record { closed = c; shared = refl; idle = t; status = refl }

  abbrev After : Result OpenLvError (Unit {0}) × Running V P D C → Type 0
  After out = IsClosed out.0 out.1

  end_signaling-IsClosed :
      (r : Result OpenLvError (Unit {0})) (s : Running V P D C)
      → Ended s.session.control
      → (end_signaling rtc p platform r s).0 ≢ panic
      → After (end_signaling rtc p platform r s)
  unfolding end_signaling
  end_signaling-IsClosed r s e n =
      keep_going-keeps (λ s'. Ended s'.session.control) After
        (on_signaling (Signaling.teardown platform) s)
        (λ r'. finish_close rtc p platform (both r r')) e
        (λ r' e' n'.
          finish_close-IsClosed (both r r') (on_signaling (Signaling.teardown platform) s).1 e')
        n

  end_transport-IsClosed :
      (s : Running V P D C)
      → s.session.control.closed ≡ true
      → (end_transport rtc p platform s).0 ≢ panic
      → After (end_transport rtc p platform s)
  unfolding end_transport tear_down_transport on_transport
  end_transport-IsClosed s c n =
      let torn =
        tear_down_transport rtc p platform
          (with_control (Control.wait_for_tasks s.session.control) s) in
      keep_going-keeps (λ s'. Ended s'.session.control) After torn (end_signaling rtc p platform)
        (wait_for_tasks-Ended s.session.control c) (λ r e n'. end_signaling-IsClosed r torn.1 e n')
        n

  tear_down-IsClosed :
      (s : Running V P D C)
      → s.session.control.closed ≡ true
      → (tear_down rtc p platform s).0 ≢ panic
      → After (tear_down rtc p platform s)
  unfolding tear_down say_goodbye
  tear_down-IsClosed s c n =
      let goodbye : (say_goodbye rtc p platform s).1.session.control ≡ s.session.control =
        send_session_message-control rtc p close_message s.session in
      keep_going-keeps (λ s'. s'.session.control.closed ≡ true) After (say_goodbye rtc p platform s)
        (λ r. end_transport rtc p platform) (rw goodbye c)
        (λ r c' n'. end_transport-IsClosed (say_goodbye rtc p platform s).1 c' n') n

  close-IsClosed :
      (s : Running V P D C)
      → s.close_result ≡ none
      → (close rtc p platform s).0 ≢ panic
      → After (close rtc p platform s)
  unfolding close
  close-IsClosed s fresh n =
      let s' = with_control (Control.close s.session.control) s in
      let same : close rtc p platform s ≡ tear_down rtc p platform s' =
        once-none s' s.close_result fresh in
      rw same (tear_down-IsClosed s' (close-closed s.session.control) (rw same at n))

  -- The first close that does not panic, whatever its calls return: the session is disconnected and
  -- runs no task, every later close gives the same result and changes nothing, and a later connect is
  -- refused and changes nothing.
  pub close_is_final :
      (s : Running V P D C)
      → s.close_result ≡ none
      → (close rtc p platform s).0 ≢ panic
      → let s' = (close rtc p platform s).1 in
        IsClosed (close rtc p platform s).0 s'
        × (close rtc p platform s' ≡ close rtc p platform s)
        × (connect platform s' ≡ (err session_closed, s'))
  close_is_final s fresh n =
      let i = close-IsClosed s fresh n in
      let (r, s') = close rtc p platform s in (i, close_again r s' i, connect_closed r s' i)
