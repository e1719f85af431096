-- ===== src/Session/Sending/Tests.antt =====
-- A run of a request: sent over a linked session, acknowledged and answered.
use openlv_rs.Prelude.{ℕ, ◌≡◌, refl, true, false, [], ◌∷◌, none, some}
use openlv_rs.Text.{Text, text, bytes_eq}
use openlv_rs.Errors.{ok}
use openlv_rs.Sample.{repeat, crypto}
use openlv_rs.Encryption.{to_base64}
use openlv_rs.Encryption.Asymmetric
use openlv_rs.Encryption.Asymmetric.{EncryptionKey}
use openlv_rs.Layer.State.{SignalState}
use openlv_rs.Control.{spawn}
use openlv_rs.Transport.Message.{response, ack, close}
use openlv_rs.Transport.Webrtc.{Rtc, TransportState, TransportLayer}
use openlv_rs.Transport.Webrtc as Webrtc
use openlv_rs.Response.{Round, message, receive_response}
use openlv_rs.Response.Deadlines.{Some, Answers}
use openlv_rs.Session.{
  Session, SessionState, SessionPlatform, seal_session, on_transport, send_session_message,
}
use openlv_rs.Session.Sending.{
  RequestTimes, await_response, send_request, run_request, send_with_timeouts,
}
use openlv_rs.Session.Sending.Answers.{send_with_timeouts-answer}

abbrev rtc : Rtc ℕ ℕ ℕ ℕ
rtc = record {
  build = ok 0;
  create_data_channel = λ pc. (ok 0, pc);
  create_offer = λ pc. (ok 1, pc);
  create_answer = λ pc. (ok 2, pc);
  set_local_description = λ s pc. (ok tt, pc);
  set_remote_description = λ s pc. (ok tt, 1);
  has_remote_description = λ pc. false;
  add_ice_candidate = λ c pc. (ok tt, pc);
  close_connection = λ pc. ok tt;
  send_text = λ payload channel. (ok tt, channel);
  description_to_json = λ s. ok [];
  description_from_json = λ t. ok 3;
  candidate_from_json = λ t. ok 4;
}

abbrev platform : SessionPlatform ℕ
platform = record {
  crypto = crypto;
  to_json = λ m. ok [];
  from_json = λ t. ok close;
  random_nonce = λ calls. repeat 12 calls;
}

abbrev linked_session : Session ℕ ℕ ℕ ℕ
linked_session = record {
  is_host = true;
  status = SessionState.connected;
  error = none;
  peer_closed = false;
  signal_state = SignalState.encrypted;
  relying_key = some (record { public_key = repeat 32 66; serialized = repeat 32 66 });
  peer_capabilities = some (record { transports = text "wrtc" ∷ []; info = none });
  decryption_key = record {
    secret_key = repeat 32 67;
    public_key = repeat 32 67;
    serialized = repeat 32 67;
  };
  transport = record {
    is_host = true;
    state = TransportState.connected;
    peer_connection = some 1;
    data_channel = some 0;
    pending_candidates = [];
    unflushed = false;
    events = [];
    states = [];
  };
  control = record {
    closed = false;
    active_handlers = 3;
    tasks = [];
    shutdown = false;
    next_id = 0;
  };
  states = [];
  responses = [];
  requests = [];
  handlers = [];
  calls = 0;
}

abbrev mine : Text
mine = b'm' ∷ []

abbrev times : RequestTimes
times = record {
  message_id = mine;
  ack_timeout_ms = 100;
  response_timeout_ms = 3600;
  latest = 1000000;
  started = 0;
}

abbrev acknowledged : Round ℕ
acknowledged = record { now = 10; received = message (ack mine); later = 11 }

abbrev answered : Round ℕ
answered = record { now = 30; received = message (response mine 5); later = 31 }

answer_came :
    (send_with_timeouts rtc platform times (acknowledged ∷ (answered ∷ [])) 3 linked_session).0
    ≡ some (ok 5)
unfolding send_with_timeouts run_request send_request await_response send_session_message
    seal_session on_transport Asymmetric.encrypt to_base64 Webrtc.send receive_response bytes_eq
    spawn
answer_came = refl

send_with_timeouts-answer_example :
    (linked_session.control.closed ≡ false)
    × (linked_session.signal_state ≡ SignalState.encrypted)
    × ((key : EncryptionKey) × (linked_session.relying_key ≡ some key))
    × (linked_session.transport.state ≡ TransportState.connected)
    × Some (Answers 1000000 mine 3600 5) (acknowledged ∷ (answered ∷ []))
send_with_timeouts-answer_example =
    send_with_timeouts-answer rtc platform times (acknowledged ∷ (answered ∷ [])) 3 5 linked_session
      answer_came
