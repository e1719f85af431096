-- ===== src/Bridge.antt =====
-- crates/openlv-ffi/src/lib.rs: the session for other languages, without the runtime and the JSON.
pub mod States
pub mod Requests
pub mod Exported
pub mod Calls
mod Tests
use openlv_rs.Text.{Text, text}
use openlv_rs.Errors.{
  OpenLvError, invalid_uri, signaling, transport, session, session_closed, request_limit_reached,
  encryption, wire_frame, protocol_violation, unsupported_protocol, no_connection, request_timeout,
  request_failed, invalid_request_timeout, response_channel_closed, other, Result, ok, map_err,
  ◌>>=◌, ◌>>◌,
}
use openlv_rs.Message.{PeerInfo, validate_peer_info}
use openlv_rs.Layer.State.{SignalState}
use openlv_rs.Session.{SessionState}

-- The kind and the message.
pub data BridgeError : Type 0 where
  failure : Text → Text → BridgeError

unfoldable pub kind_of : OpenLvError → Text
kind_of (invalid_uri _) = text "invalid_uri"
kind_of (signaling _) = text "signaling"
kind_of (transport _) = text "transport"
kind_of (session _) = text "session"
kind_of session_closed = text "session_closed"
kind_of request_limit_reached = text "request_limit_reached"
kind_of request_failed = text "request_failed"
kind_of invalid_request_timeout = text "invalid_request_timeout"
kind_of response_channel_closed = text "response_channel_closed"
kind_of (encryption _) = text "encryption"
kind_of (wire_frame _) = text "wire_frame"
kind_of (protocol_violation _) = text "protocol_violation"
kind_of (unsupported_protocol _) = text "unsupported_protocol"
kind_of no_connection = text "no_connection"
kind_of (request_timeout _) = text "request_timeout"
kind_of (other _) = text "other"

-- `display` is the text of an error, which `thiserror` derives.
unfoldable pub bridge_error_from : (OpenLvError → Text) → OpenLvError → BridgeError
bridge_error_from display value = failure (kind_of value) (display value)

-- The fields are those of the session's `PeerInfo`.
unfoldable pub peer_info_try_from : PeerInfo → Result BridgeError PeerInfo
peer_info_try_from value =
    map_err (failure (text "session")) (do validate_peer_info value; ok value)

unfoldable pub status_name : SessionState → Text
status_name SessionState.created = text "created"
status_name SessionState.signaling = text "signaling"
status_name SessionState.ready = text "ready"
status_name SessionState.linking = text "linking"
status_name SessionState.connected = text "connected"
status_name SessionState.disconnected = text "disconnected"

unfoldable pub signaling_name : SignalState → Text
signaling_name SignalState.standby = text "standby"
signaling_name SignalState.connecting = text "connecting"
signaling_name SignalState.ready = text "ready"
signaling_name SignalState.handshake = text "handshake"
signaling_name SignalState.handshake_partial = text "handshake_partial"
signaling_name SignalState.encrypted = text "encrypted"
signaling_name SignalState.error = text "error"
