-- ===== src/Session/Sending/Exchange/Tests.antt =====
-- A request between two linked sessions, whose channel keeps the texts that it takes.
use openlv_rs.Prelude.{
  ℕ, ◌+◌, ◌≡◌, refl, Bool, true, false, List, [], ◌∷◌, ◌++◌, none, some, ◌==◌, if◌then◌else◌, arith,
}
use openlv_rs.Text.{Bytes, Text, is_utf8}
use openlv_rs.Errors.{OpenLvError, Result, ok, err}
use openlv_rs.Sample.{repeat, tag, crypto, crypto_laws}
use openlv_rs.Encryption.Asymmetric.{generate_key_pair}
use openlv_rs.Layer.State.{SignalState}
use openlv_rs.Transport.Message.{SessionMessage, request, response, ack, reply}
use openlv_rs.Transport.Webrtc.{Rtc, TransportState}
use openlv_rs.Response.{Round, message}
use openlv_rs.Response.Timely.{InTime}
use openlv_rs.Session.{
  Session, SessionState, SessionPlatform, handle_transport_payload, run_handler,
}
use openlv_rs.Session.Sending.{RequestTimes, send_with_timeouts}
use openlv_rs.Session.Sending.Exchange.{Written, ChannelLaws, DrawLaws, IsLinkedTo}
use openlv_rs.Session.Sending.Exchange.Steps.{texts}
use openlv_rs.Session.Sending.Exchange.Answered.{request_answered}

abbrev rtc : Rtc ℕ (List Text) ℕ ℕ
rtc = record {
  build = ok 0;
  create_data_channel = λ pc. (ok [], pc);
  create_offer = λ pc. (ok 1, pc);
  create_answer = λ pc. (ok 2, pc);
  set_local_description = λ s pc. (ok tt, pc);
  set_remote_description = λ s pc. (ok tt, 1);
  has_remote_description = λ pc. false;
  add_ice_candidate = λ c pc. (ok tt, pc);
  close_connection = λ pc. ok tt;
  send_text = λ payload channel. (ok tt, payload ∷ channel);
  description_to_json = λ s. ok [];
  description_from_json = λ t. ok 3;
  candidate_from_json = λ t. ok 4;
}

channel_laws : ChannelLaws rtc
channel_laws = record {
  sent_texts = λ channel. channel;
  takes = λ payload channel. refl;
  keeps = λ payload channel. refl;
}

abbrev mine : Text
mine = b'm' ∷ []

-- One letter for a message.
abbrev to_json : SessionMessage ℕ → Result Text Text
to_json (request id v) = ok (b'q' ∷ [])
to_json (ack id) = ok (b'a' ∷ [])
to_json (response id v) = ok (b'r' ∷ [])
to_json m = err []

abbrev from_json : Text → Result Text (SessionMessage ℕ)
from_json [] = err []
from_json (c ∷ cs) =
    if c == b'q'
    then ok (request mine 3)
    else if c == b'a'
    then ok (ack mine)
    else ok (response mine 5)

abbrev platform : SessionPlatform ℕ
platform = record {
  crypto = crypto;
  to_json = to_json;
  from_json = from_json;
  random_nonce = λ calls. repeat 12 calls;
}

draw_laws : DrawLaws platform
draw_laws = record { crypto = crypto_laws; nonce_length = λ calls. refl }

request-Written : Written platform (request mine 3)
unfolding is_utf8
request-Written = record {
  json = b'q' ∷ [];
  written = refl;
  read = refl;
  utf8 = refl;
  seals = λ key nonce. (tag ++ b'q' ∷ [], refl);
}

ack-Written : Written platform (ack mine)
unfolding is_utf8
ack-Written = record {
  json = b'a' ∷ [];
  written = refl;
  read = refl;
  utf8 = refl;
  seals = λ key nonce. (tag ++ b'a' ∷ [], refl);
}

response-Written : Written platform (response mine 5)
unfolding is_utf8
response-Written = record {
  json = b'r' ∷ [];
  written = refl;
  read = refl;
  utf8 = refl;
  seals = λ key nonce. (tag ++ b'r' ∷ [], refl);
}

abbrev linked : Bool → Bytes → Bytes → Session ℕ ℕ (List Text) ℕ
linked is_host own peer = record {
  is_host = is_host;
  status = SessionState.connected;
  error = none;
  peer_closed = false;
  signal_state = SignalState.encrypted;
  relying_key = some (generate_key_pair crypto peer).encryption_key;
  peer_capabilities = none;
  decryption_key = (generate_key_pair crypto own).decryption_key;
  transport = record {
    is_host = is_host;
    state = TransportState.connected;
    peer_connection = some 1;
    data_channel = some [];
    pending_candidates = [];
    unflushed = false;
    events = [];
    states = [];
  };
  control = record {
    closed = false;
    active_handlers = 3;
    tasks = [];
    shutdown = false;
    next_id = 0;
  };
  states = [];
  responses = [];
  requests = [];
  handlers = [];
  calls = 0;
}

abbrev dapp : Session ℕ ℕ (List Text) ℕ
dapp = linked true (repeat 32 66) (repeat 32 67)

abbrev wallet : Session ℕ ℕ (List Text) ℕ
wallet = linked false (repeat 32 67) (repeat 32 66)

linked-IsLinkedTo :
    (is_host : Bool) (own peer : Bytes) → IsLinkedTo platform own peer [] (linked is_host own peer)
linked-IsLinkedTo is_host own peer = record {
  own = refl;
  peer = refl;
  connected = refl;
  channel_open = refl;
}

abbrev times : RequestTimes
times = record {
  message_id = mine;
  ack_timeout_ms = 100;
  response_timeout_ms = 3600;
  latest = 1000000;
  started = 0;
}

abbrev first : Round ℕ
first = record { now = 10; received = message (ack mine); later = 11 }

abbrev second : Round ℕ
second = record { now = 30; received = message (response mine 5); later = 31 }

in_time : InTime 1000000 mine 100 3600 0 (response mine 5) first second
in_time = record {
  acked = refl;
  replied = refl;
  ack_clock = omega arith;
  ack_before = omega arith;
  answer_clock = omega arith;
  answer_before = omega arith;
}

replies : reply {V = ℕ} mine (ok 5) ≡ ok (response mine 5)
unfolding reply
replies = refl

-- The handler adds two.
abbrev on_message : ℕ → Result OpenLvError ℕ
on_message v = ok (v + 2)

request_answered_example :
    let call = send_with_timeouts rtc platform times (first ∷ (second ∷ [])) 3 dapp in
    (asked acked replied : Text) × (texts rtc channel_laws platform draw_laws call.1 ≡ asked ∷ [])
    × ((handle_transport_payload platform true asked wallet).0 ≡ ok tt)
    × (texts rtc channel_laws platform draw_laws (
          run_handler rtc platform on_message
            (handle_transport_payload platform true asked wallet).1)
        ≡ replied ∷ acked ∷ [])
    × ((handle_transport_payload platform true replied
          (handle_transport_payload platform true acked call.1).1).1.responses
        ≡ response mine 5 ∷ ack mine ∷ [])
    × (call.0 ≡ some (ok 5))
unfolding channel_laws
request_answered_example =
    request_answered rtc channel_laws platform draw_laws (repeat 32 66) (repeat 32 67) times 3
      on_message (response mine 5) first second true [] [] dapp wallet refl refl refl refl
      (omega arith) (linked-IsLinkedTo true (repeat 32 66) (repeat 32 67))
      (linked-IsLinkedTo false (repeat 32 67) (repeat 32 66)) request-Written ack-Written replies
      response-Written in_time
