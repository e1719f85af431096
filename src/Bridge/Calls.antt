-- ===== src/Bridge/Calls.antt =====
-- The exported methods of crates/openlv-ffi/src/lib.rs that pass JSON to the session and back.
pub mod Refusal
use openlv_rs.Prelude.{Bool, List, [], ◌∷◌, Option, none, some}
use openlv_rs.Text.{Bytes, Text, text}
use openlv_rs.Errors.{OpenLvError, Result, ok, err, panic, ◌>>=◌}
use openlv_rs.Transport.Webrtc.{Rtc, TransportState}
use openlv_rs.Transport.Webrtc.Waiting.{StateEvent}
use openlv_rs.Response.{Round}
use openlv_rs.Session.{SessionPlatform}
use openlv_rs.Session.Sending.{RequestTimes}
use openlv_rs.Session.Sending as Sending
use openlv_rs.Session.Handle as Handle
use openlv_rs.Session.Running.{Running}
use openlv_rs.Url.{UrlLibs}
use openlv_rs.Url as Url
use openlv_rs.Url.Version.{SessionUri, version1}
use openlv_rs.Url.Version as Version
use openlv_rs.Bridge.{BridgeError}
use openlv_rs.Bridge.Requests.{Request, Next, stopped, waits, request}
use openlv_rs.Bridge.States.{JsonText, state_json}
use openlv_rs.Bridge.Exported.{
  Created, Exported, map_option, on_runtime, lower, parse_with, next_request,
}

module _ {V P D C K H : Type 0} (u : UrlLibs) where
  unfoldable pub uri : Created V P D C K H → Text
  uri s = Version.fmt u (version1 s.inner.uri)

generate_session_id : Bytes → Text
generate_session_id bytes = Url.generate_session_id bytes

unfoldable pub session_id : {V P D C K H : Type 0} → Created V P D C K H → Text
session_id s = s.inner.uri.session_id

-- The object of a request for the native handler.
request_json : {V : Type 0} → JsonText V → Request → Text
request_json w r =
    w.to_string (
      w.json.object ((text "id", w.number r.id) ∷ ((text "message", w.json.string r.message) ∷ [])))

-- `none` while the call waits; a closed session gives no request.
next_text : {V : Type 0} → JsonText V → Next → Option (Option Text)
unfolding request_json
next_text w stopped = some none
next_text w waits = none
next_text w (request r) = some (some (request_json w r))

module _ {V P D C : Type 0} where
  unfoldable pub state : JsonText V → Exported V P D C → Text
  state w s = state_json w (Handle.state s.inner.session)

  unfoldable pub is_host : Exported V P D C → Bool
  is_host s = Handle.is_host s.inner.session

  unfoldable pub next_request_json :
      JsonText V → Exported V P D C → Option (Option Text) × Exported V P D C
  unfolding next_text
  next_request_json w s = let (found, s') = next_request s in (next_text w found, s')

  module _ (display : OpenLvError → Text) (panicked : Text) where
    unfoldable pub wait_for_link :
        List (StateEvent × TransportState)
        → Exported V P D C
        → Option (Result BridgeError (Unit {0})) × Exported V P D C
    wait_for_link rounds s =
        let (r, session) = Handle.wait_for_link rounds s.inner.session in
        (
          map_option (λ result. on_runtime panicked (lower display result)) r,
          record s { inner = record s.inner { session = session } },
        )

    module _ {S : Type 0} (w : JsonText V) (rtc : Rtc P D S C) (p : SessionPlatform V)
        (t : RequestTimes) (rounds : List (Round V)) where
      -- The response as text.
      response_text : Result OpenLvError V → Result BridgeError Text
      response_text result =
          on_runtime panicked (lower display result >>= λ response. ok (w.to_string response))

      -- A message that is no JSON is not sent.
      send_parsed :
          Result BridgeError V
          → (V → Running V P D C → Option (Result OpenLvError V) × Running V P D C)
          → Exported V P D C
          → Option (Result BridgeError Text) × Exported V P D C
      unfolding response_text
      send_parsed (ok message) call s =
          let (r, inner) = call message s.inner in
          (map_option response_text r, record s { inner = inner })
      send_parsed (err e) call s = (some (err e), s)
      send_parsed panic call s = (some (on_runtime panicked panic), s)

      unfoldable pub send :
          Text → Exported V P D C → Option (Result BridgeError Text) × Exported V P D C
      unfolding send_parsed
      send message s =
          send_parsed (parse_with w.from_str message)
            (λ m inner.
              let (r, session) = Handle.send rtc p t rounds m inner.session in
              (r, record inner { session = session }))
            s

      -- The two timeouts are those of `t`.
      unfoldable pub send_with_timeouts :
          Text → Exported V P D C → Option (Result BridgeError Text) × Exported V P D C
      unfolding send_parsed
      send_with_timeouts message s =
          send_parsed (parse_with w.from_str message)
            (λ m inner.
              let (r, session) = Sending.send_with_timeouts rtc p t rounds m inner.session in
              (r, record inner { session = session }))
            s
