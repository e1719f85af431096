-- ===== src/Session/Tests.antt =====
-- Runs of a session.
use openlv_rs.Prelude.{ℕ, ◌+◌, ◌≡◌, true, false, List, [], ◌∷◌, ◌++◌, none, some}
use openlv_rs.Text.{Text, text}
use openlv_rs.Errors.{OpenLvError, Result, ok, err}
use openlv_rs.Sample.{repeat, crypto}
use openlv_rs.Layer.State.{SignalState}
use openlv_rs.Transport.Message.{close}
use openlv_rs.Transport.Webrtc.{Rtc, TransportState}
use openlv_rs.Session.{
  Session, SessionState, SessionPlatform, contains, select_transport_id, dispatch_request,
  handle_message, handle_remote_request,
}
use openlv_rs.Session.Link.{wait_for_link}
use openlv_rs.Transport.Webrtc.Waiting.{StateEvent, state_seen, lagged}
use openlv_rs.Session.Selection.{select_transport_id_agrees}
use openlv_rs.Session.Requests.{request_returns_permit, later_states, close_is_graceful}
use openlv_rs.Session.Link.Waiting.{wait_for_link_lem}

abbrev wrtc : Text
wrtc = text "wrtc"

select_transport_id_agrees_example :
    (select_transport_id true (wrtc ∷ []) ([] ∷ (wrtc ∷ []))
      ≡ select_transport_id false ([] ∷ (wrtc ∷ [])) (wrtc ∷ []))
    × ((t : Text)
        → select_transport_id true (wrtc ∷ []) ([] ∷ (wrtc ∷ [])) ≡ some t
        → (contains (wrtc ∷ []) t ≡ true) × (contains ([] ∷ (wrtc ∷ [])) t ≡ true))
    × ((t : Text)
        → select_transport_id true (wrtc ∷ []) ([] ∷ (wrtc ∷ [])) ≡ none
        → contains (wrtc ∷ []) t ≡ true
        → contains ([] ∷ (wrtc ∷ [])) t ≡ false)
select_transport_id_agrees_example = select_transport_id_agrees (wrtc ∷ []) ([] ∷ (wrtc ∷ []))

abbrev rtc : Rtc ℕ ℕ ℕ ℕ
rtc = record {
  build = ok 0;
  create_data_channel = λ pc. (ok 0, pc);
  create_offer = λ pc. (ok 1, pc);
  create_answer = λ pc. (ok 2, pc);
  set_local_description = λ s pc. (ok tt, pc);
  set_remote_description = λ s pc. (ok tt, 1);
  has_remote_description = λ pc. false;
  add_ice_candidate = λ c pc. (ok tt, pc);
  close_connection = λ pc. ok tt;
  send_text = λ payload channel. (ok tt, channel);
  description_to_json = λ s. ok [];
  description_from_json = λ t. ok 3;
  candidate_from_json = λ t. ok 4;
}

abbrev platform : SessionPlatform ℕ
platform = record {
  crypto = crypto;
  to_json = λ m. ok [];
  from_json = λ t. ok close;
  random_nonce = λ calls. repeat 12 calls;
}

abbrev linking_session : Session ℕ ℕ ℕ ℕ
linking_session = record {
  is_host = true;
  status = SessionState.linking;
  error = none;
  peer_closed = false;
  signal_state = SignalState.encrypted;
  relying_key = some (record { public_key = repeat 32 66; serialized = repeat 32 66 });
  peer_capabilities = some (record { transports = wrtc ∷ []; info = none });
  decryption_key = record {
    secret_key = repeat 32 67;
    public_key = repeat 32 67;
    serialized = repeat 32 67;
  };
  transport = record {
    is_host = true;
    state = TransportState.ready;
    peer_connection = some 1;
    data_channel = some 0;
    pending_candidates = [];
    unflushed = false;
    events = [];
    states = [];
  };
  control = record {
    closed = false;
    active_handlers = 3;
    tasks = [];
    shutdown = false;
    next_id = 0;
  };
  states = [];
  responses = [];
  requests = [];
  handlers = [];
  calls = 0;
}

abbrev on_message : ℕ → Result OpenLvError ℕ
on_message v = ok (v + 1)

request_returns_permit_example :
    let handled =
      handle_remote_request rtc platform on_message [] 5
        (dispatch_request true [] 5 linking_session).1 in
    ((dispatch_request true [] 5 linking_session).0 ≡ ok tt
      → (handled.acknowledged.control.active_handlers ≡ 3 + 1)
        × (handled.answered.control.active_handlers ≡ 3 + 1)
        × (handled.finished.control.active_handlers ≡ 3))
    × ((e : OpenLvError)
        → (dispatch_request true [] 5 linking_session).0 ≡ err e
        → (dispatch_request true [] 5 linking_session).1.control ≡ linking_session.control)
request_returns_permit_example =
    request_returns_permit rtc platform true [] 5 on_message linking_session

close_is_graceful_example :
    ((handle_message false close linking_session).1.status ≡ SessionState.disconnected)
    × ((handle_message false close linking_session).1.responses ≡ close ∷ [])
    × ((later_states
          (TransportState.error ∷ [])
          (handle_message false close linking_session).1).error
        ≡ none)
close_is_graceful_example = close_is_graceful false linking_session (TransportState.error ∷ [])

abbrev rounds : List (StateEvent × TransportState)
rounds = (lagged, TransportState.ready) ∷ []

wait_for_link_lem_example :
    (((wait_for_link
          (rounds ++ (state_seen TransportState.connected, TransportState.connected) ∷ [])
          linking_session).0
        ≡ some (ok tt))
      → (wait_for_link
          (rounds ++ (state_seen TransportState.connected, TransportState.connected) ∷ [])
          linking_session).1.status
        ≡ SessionState.connected)
    × ((result : Result OpenLvError (Unit {0})) × ((wait_for_link
            (rounds ++ (state_seen TransportState.connected, TransportState.connected) ∷ [])
            linking_session).0
          ≡ some result))
wait_for_link_lem_example = wait_for_link_lem rounds [] TransportState.connected linking_session
