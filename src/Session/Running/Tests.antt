-- ===== src/Session/Running/Tests.antt =====
-- A session that is closed before it met its peer.
use openlv_rs.Prelude.{◌≡◌, refl}
use openlv_rs.Errors.{session_closed, err}
use openlv_rs.Session.Running.{connect, close}
use openlv_rs.Session.Running.Closing.{IsClosed, close_is_final}
use openlv_rs.Session.Running.Sample.{rtc, session_platform, platform, waiting, ends}

close_is_final_example :
    let s' = (close rtc session_platform platform waiting).1 in
    IsClosed (close rtc session_platform platform waiting).0 s'
    × (close rtc session_platform platform s' ≡ close rtc session_platform platform waiting)
    × (connect platform s' ≡ (err session_closed, s'))
close_is_final_example = close_is_final rtc session_platform platform waiting refl ends
