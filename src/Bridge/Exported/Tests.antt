-- ===== src/Bridge/Exported/Tests.antt =====
-- An exported session that is shut down before it met its peer.
use openlv_rs.Prelude.{ℕ, ◌≡◌, refl, Bool, true, List, [], none, some, ◌==◌}
use openlv_rs.Text.{Text}
use openlv_rs.Errors.{OpenLvError, session_closed, Result, ok, err}
use openlv_rs.Session.Running.Sample.{rtc, session_platform, platform, waiting, ends}
use openlv_rs.Transport.Webrtc.{TransportState}
use openlv_rs.Transport.Webrtc.Waiting.{StateEvent}
use openlv_rs.Response.{Round}
use openlv_rs.Session.Sending.{RequestTimes}
use openlv_rs.Bridge.States.{JsonText}
use openlv_rs.Bridge.Calls.{next_request_json, wait_for_link, send, send_with_timeouts}
use openlv_rs.Bridge.{bridge_error_from}
use openlv_rs.Bridge.Requests.{new, handle, awaited, no_longer_pending}
use openlv_rs.Bridge.Exported.{Exported, shutdown, connect, respond}
use openlv_rs.Bridge.Exported.Shutdown.{shutdown_is_final}

abbrev display : OpenLvError → Text
display e = []

-- JSON of numbers, each of which writes nothing.
abbrev numbers : JsonText ℕ
numbers = record {
  json = record {
    null = 0;
    string = λ t. 1;
    negative = λ n. n;
    object = λ ps. 2;
    get = λ v key. none;
    equals = λ v v'. v == v';
  };
  number = λ n. n;
  to_string = λ v. [];
  from_str = λ t. ok 0;
}

-- One request of the peer waits.
abbrev asked : Exported ℕ ℕ ℕ ℕ
asked = record { inner = waiting; requests = (handle true [] new).1 }

shutdown_is_final_example :
    let s' = (shutdown display [] rtc session_platform platform asked).1 in
    let closed = bridge_error_from display session_closed in
    ((channel : ℕ)
      → (result : Result OpenLvError ℕ) × (awaited numbers.from_str channel s'.requests
          ≡ some result))
    × ((delivered : Bool) (message : Text)
        → (handle delivered message s'.requests).0 ≡ err session_closed)
    × ((id : ℕ) (response : Text) → respond id response s' ≡ (err no_longer_pending, s'))
    × (shutdown display [] rtc session_platform platform s'
        ≡ shutdown display [] rtc session_platform platform asked)
    × (connect display [] rtc session_platform platform s' ≡ (err closed, s'))
    × (next_request_json numbers s' ≡ (some none, s'))
    × ((rounds : List (StateEvent × TransportState))
        → wait_for_link display [] rounds s' ≡ (some (err closed), s'))
    × ((t : RequestTimes) (rounds : List (Round ℕ)) (message : Text) (m : ℕ)
        → numbers.from_str message ≡ ok m
        → (send display [] numbers rtc session_platform t rounds message s'
            ≡ (some (err closed), s'))
          × (send_with_timeouts display [] numbers rtc session_platform t rounds message s'
              ≡ (some (err closed), s')))
shutdown_is_final_example =
    shutdown_is_final display [] rtc session_platform platform numbers asked refl ends
