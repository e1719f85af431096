-- ===== src/Session.antt =====
-- crates/openlv/src/session/mod.rs: the session over the signaling layer, the transport and the
-- control. Each method is one step; the request handler is a function given from
-- outside, and a handler task shows the session at each of its awaits.
pub mod Selection
pub mod Requests
pub mod Link
pub mod Handle
pub mod Sending
pub mod Start
pub mod Running
mod Tests
use openlv_rs.Prelude.{
  ℕ, suc, ◌+◌, Bool, true, false, not, List, [], ◌∷◌, Option, none, some, if◌then◌else◌,
}
use openlv_rs.Text.{Bytes, Text, text, bytes_eq}
use openlv_rs.Errors.{OpenLvError, session, other, Result, ok, err, panic, map_err}
use openlv_rs.Message.{PeerInfo, PeerCapabilities}
use openlv_rs.Encryption.{Crypto}
use openlv_rs.Encryption.Asymmetric
use openlv_rs.Encryption.Asymmetric.{EncryptionKey, DecryptionKey}
use openlv_rs.Layer.State.{SignalState}
use openlv_rs.Control.{SessionControl, spawn, admit_handler, drop_permit}
use openlv_rs.Transport.Message.{
  SessionMessage, request, response, ack, failed, close, unknown, reply,
}
use openlv_rs.Transport.Webrtc.{Rtc, TransportLayer, TransportState, is_connected}
use openlv_rs.Transport.Webrtc as Webrtc
use openlv_rs.Stateful.{M, continue_with, ◌>>=◌, ◌>>◌, pure, lift, modify}

pub data SessionState : Type 0 where
  created signaling ready linking connected disconnected : SessionState

pub record SessionStateObject : Type 0 where
  pub status : SessionState
  pub signaling : Option SignalState
  pub peer_info : Option PeerInfo
  pub error : Option Text

-- The fields of `SessionInner`. Of the signaling layer the session reads its state, the peer's key
-- and the peer's capabilities. What others saw: the states, the responses and the observed
-- requests, newest first; `calls` counts the nonces drawn. `handlers` are the handler tasks that were
-- spawned and have not started: what they were given, beside the permit.
pub record Session (V P D C : Type 0) : Type 0 where
  pub is_host : Bool
  pub status : SessionState
  pub error : Option Text
  pub peer_closed : Bool
  pub signal_state : SignalState
  pub relying_key : Option EncryptionKey
  pub peer_capabilities : Option PeerCapabilities
  pub decryption_key : DecryptionKey
  pub transport : TransportLayer P D C
  pub control : SessionControl
  pub states : List SessionStateObject
  pub responses : List (SessionMessage V)
  pub requests : List V
  pub handlers : List (Text × V)
  pub calls : ℕ

-- The session at the awaits of a handler task: when the acknowledgement was sent and the handler is
-- called, when the answer was sent, and after its end.
pub record Handled (V P D C : Type 0) : Type 0 where
  pub acknowledged : Session V P D C
  pub answered : Session V P D C
  pub finished : Session V P D C

-- JSON, the ciphers and the random source.
pub record SessionPlatform (V : Type 0) : Type 0 where
  pub crypto : Crypto
  pub to_json : SessionMessage V → Result Text Text
  pub from_json : Text → Result Text (SessionMessage V)
  pub random_nonce : ℕ → Bytes

-- `contains` on a list of texts, and the first text of a list that is in another.
abbrev pub contains : List Text → Text → Bool
contains [] t = false
contains (x ∷ xs) t = if bytes_eq x t then true else contains xs t

abbrev pub find_in : List Text → List Text → Option Text
find_in [] supported = none
find_in (t ∷ preferred) supported =
    if contains supported t then some t else find_in preferred supported

pub select_transport_id : Bool → List Text → List Text → Option Text
select_transport_id is_host own_transports peer_transports =
    if is_host
    then find_in own_transports peer_transports
    else find_in peer_transports own_transports

abbrev pub info_of : Option PeerCapabilities → Option PeerInfo
info_of none = none
info_of (some c) = c.info

abbrev or_else : Option Text → Text → Text
or_else none d = d
or_else (some t) d = t

module _ {V P D C : Type 0} where
  unfoldable pub set_error : Text → Session V P D C → Session V P D C
  set_error reason s = record s { error = some reason }

  unfoldable pub clear_error : Session V P D C → Session V P D C
  clear_error s = record s { error = none }

  unfoldable pub set_transport_error : Session V P D C → Session V P D C
  unfolding set_error
  set_transport_error s =
      if s.peer_closed then s else set_error (text "peer-to-peer transport failed") s

  unfoldable pub set_status : SessionState → Session V P D C → Session V P D C
  set_status new_status s = record s {
    status = new_status;
    states =
        record {
          status = new_status;
          signaling = some s.signal_state;
          peer_info = info_of s.peer_capabilities;
          error = s.error;
        }
        ∷ s.states;
  }

  unfoldable pub send_response : SessionMessage V → Session V P D C → Session V P D C
  send_response m s = record s { responses = m ∷ s.responses }

  -- The receivers exist or not; without one the request is not kept.
  observe_request : Bool → V → Session V P D C → Session V P D C
  observe_request subscribed payload s =
      if subscribed then record s { requests = payload ∷ s.requests } else s

  -- The task is spawned with the identifier, the payload and the permit.
  with_control : Text → V → Result OpenLvError ℕ × SessionControl → M (Session V P D C) (Unit {0})
  with_control message_id payload (ok id, control) s =
      (ok tt, record s { control = control; handlers = (message_id, payload) ∷ s.handlers })
  with_control message_id payload (err e, control) s =
      (err e, record s { control = (drop_permit control).1 })
  with_control message_id payload (panic, control) s =
      (panic, record s { control = (drop_permit control).1 })

  -- The permit goes with the task; a task that is not spawned drops it.
  admitted :
      Bool
      → Text
      → V
      → Result OpenLvError (Unit {0}) × SessionControl
      → M (Session V P D C) (Unit {0})
  admitted subscribed message_id payload (ok done, control) s =
      with_control message_id payload (spawn control)
        (observe_request subscribed payload (record s { control = control }))
  admitted subscribed message_id payload (err e, control) s =
      (err e, record s { control = control })
  admitted subscribed message_id payload (panic, control) s =
      (panic, record s { control = control })

  pub dispatch_request : Bool → Text → V → M (Session V P D C) (Unit {0})
  unfolding admitted with_control observe_request
  dispatch_request subscribed message_id payload s =
      admitted subscribed message_id payload (admit_handler s.control) s

  -- The `match message` of `handle_session_frame`.
  pub handle_message : Bool → SessionMessage V → M (Session V P D C) (Unit {0})
  handle_message subscribed (request message_id payload) s =
      dispatch_request subscribed message_id payload s
  handle_message subscribed close s = (
    ok tt,
    set_status SessionState.disconnected
        (send_response close (clear_error (record s { peer_closed = true }))),
  )
  handle_message subscribed unknown s = (ok tt, s)
  handle_message subscribed (response id payload) s = (ok tt, send_response (response id payload) s)
  handle_message subscribed (ack id) s = (ok tt, send_response (ack id) s)
  handle_message subscribed (failed id) s = (ok tt, send_response (failed id) s)

  pub handle_session_frame : SessionPlatform V → Bool → Text → M (Session V P D C) (Unit {0})
  handle_session_frame p subscribed plaintext = do
    message ← lift (map_err other (p.from_json plaintext))
    handle_message subscribed message

  pub handle_transport_payload : SessionPlatform V → Bool → Text → M (Session V P D C) (Unit {0})
  handle_transport_payload p subscribed raw s =
      continue_with (Asymmetric.decrypt p.crypto s.decryption_key raw s.relying_key, s)
        (handle_session_frame p subscribed)

  -- One state of the transport, as `run_transport_state_loop` handles it.
  pub on_transport_state : TransportState → Session V P D C → Session V P D C
  on_transport_state TransportState.connected s = set_status SessionState.connected s
  on_transport_state TransportState.error s =
      set_status SessionState.disconnected (set_transport_error s)
  on_transport_state _ s = s

  select_transport : Session V P D C → Option Text
  select_transport s = elim s.peer_capabilities [
    | none ↦ none
    | some peer ↦ select_transport_id s.is_host (text "wrtc" ∷ []) peer.transports
  ]

  module _ {S : Type 0} (rtc : Rtc P D S C) (p : SessionPlatform V) where
    on_transport : M (TransportLayer P D C) (Unit {0}) → M (Session V P D C) (Unit {0})
    on_transport call s = let (r, t) = call s.transport in (r, record s { transport = t })

    seal_session : Text → M (Session V P D C) Text
    seal_session plaintext s = elim s.relying_key [
      | none ↦ (err (session (text "relying party public key not found")), s)
      | some key ↦ (
        Asymmetric.encrypt p.crypto s.decryption_key (p.random_nonce s.calls) plaintext key,
        record s { calls = suc s.calls },
      )
    ]

    pub send_session_message : SessionMessage V → M (Session V P D C) (Unit {0})
    send_session_message message = do
      plaintext ← lift (map_err other (p.to_json message))
      encrypted ← seal_session plaintext
      on_transport (Webrtc.send rtc encrypted)

    release : Session V P D C → Session V P D C
    release s = record s { control = (drop_permit s.control).1 }

    send_reply : Result OpenLvError (SessionMessage V) → Session V P D C → Session V P D C
    send_reply (ok message) s = (send_session_message message s).1
    send_reply _ s = s

    -- The acknowledgement, then the answer of the handler; their failures are logged, and the permit
    -- is dropped at the end.
    pub handle_remote_request :
        (V → Result OpenLvError V) → Text → V → Session V P D C → Handled V P D C
    handle_remote_request on_message message_id payload s =
        let acknowledged = (send_session_message (ack message_id) s).1 in
        let answered = send_reply (reply message_id (on_message payload)) acknowledged in
        record { acknowledged = acknowledged; answered = answered; finished = release answered }

    -- The task that was spawned last starts, and runs to its end.
    pub run_handler : (V → Result OpenLvError V) → Session V P D C → Session V P D C
    unfolding handle_remote_request
    run_handler on_message s = elim s.handlers [
      | [] ↦ s
      | (message_id, payload) ∷ rest ↦
          (handle_remote_request on_message message_id payload
            (record s { handlers = rest })).finished
    ]

    set_up_transport : Result OpenLvError (Unit {0}) × Session V P D C → Text → Session V P D C
    set_up_transport (ok done, s) reason = s
    set_up_transport (_, s) reason = set_status SessionState.disconnected (set_error reason s)

    -- One state of the signaling layer, as `run_signal_state_loop` handles it; `reason` is the
    -- text of an error of the transport's setup.
    pub on_signal_state : Text → SignalState → Session V P D C → Session V P D C
    on_signal_state reason SignalState.ready s = set_status SessionState.ready s
    on_signal_state reason SignalState.handshake s = set_status SessionState.linking s
    on_signal_state reason SignalState.handshake_partial s = set_status SessionState.linking s
    on_signal_state reason SignalState.encrypted s = elim (select_transport s) [
      | none ↦
          set_status SessionState.disconnected (set_error (text "no common transport with peer") s)
      | some id ↦ set_up_transport (on_transport (Webrtc.setup rtc) s) reason
    ]
    on_signal_state reason SignalState.error s =
        set_status SessionState.disconnected (set_error (text "signaling failed or timed out") s)
    on_signal_state reason _ s = s
