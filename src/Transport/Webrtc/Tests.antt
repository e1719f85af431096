-- ===== src/Transport/Webrtc/Tests.antt =====
-- Runs of the WebRTC layer, over a connection that is whether it has a remote description, and the
-- candidates that it took.
use openlv_rs.Prelude.{
  ℕ, ◌≡◌, refl, ◌≢◌, Bool, true, false, List, [], ◌∷◌, ◌++◌, some, length, inl, ◌==◌, if◌then◌else◌,
  arith,
}
use openlv_rs.Text.{Text, text}
use openlv_rs.Errors.{transport, ok, err}
use openlv_rs.Transport.Message.{TransportNegotiationMessage}
use openlv_rs.Transport.Webrtc.{
  Rtc, TransportLayer, TransportState, Holding, teardown, send, sent, handle,
  flush_pending_candidates,
}
use openlv_rs.Transport.Webrtc.Candidates.{flush_loses_rest}
use openlv_rs.Transport.Webrtc.Candidates.Order.{RtcLaws}
use openlv_rs.Transport.Webrtc.Channel.{teardown_silences}

abbrev Pc : Type 0
Pc = Bool × List ℕ

abbrev rtc : Rtc Pc ℕ ℕ ℕ
rtc = record {
  build = ok (false, []);
  create_data_channel = λ pc. (ok 0, pc);
  create_offer = λ pc. (ok 1, pc);
  create_answer = λ pc. (ok 2, pc);
  set_local_description = λ s pc. (ok tt, pc);
  set_remote_description = λ s pc. (ok tt, (true, pc.1));
  has_remote_description = λ pc. pc.0;
  add_ice_candidate = λ c pc. (ok tt, (pc.0, pc.1 ++ c ∷ []));
  close_connection = λ pc. err [];
  send_text = λ payload channel. (ok tt, channel);
  description_to_json = λ s. ok [];
  description_from_json = λ t. ok 3;
  candidate_from_json = λ t. ok (length t);
}

abbrev open_layer : TransportLayer Pc ℕ ℕ
open_layer = record {
  is_host = false;
  state = TransportState.connected;
  peer_connection = some (false, []);
  data_channel = some 0;
  pending_candidates = [];
  unflushed = false;
  events = [];
  states = [];
}

abbrev message_of : Text → Text → TransportNegotiationMessage
message_of message_type payload = record { message_type = message_type; payload = payload }

-- A candidate, the offer, and another candidate.
abbrev early : List TransportNegotiationMessage
early =
    message_of (text "candidate") (1 ∷ [])
    ∷ (message_of (text "offer") [] ∷ (message_of (text "candidate") (1 ∷ (2 ∷ [])) ∷ []))

abbrev fresh : Holding Pc ℕ ℕ
fresh = record { pc = (false, []); layer = open_layer }

-- A connection that refuses the candidate 7, and takes the others.
abbrev picky : Rtc Pc ℕ ℕ ℕ
picky = record rtc {
  add_ice_candidate =
      λ c pc. if c == 7 then (err (text "refused"), pc) else (ok tt, (pc.0, pc.1 ++ c ∷ []));
}

picky_laws : RtcLaws picky (λ pc. pc.1)
picky_laws = record {
  answer_quiet = λ pc. (refl, refl);
  local_quiet = λ s pc. (refl, refl);
  remote_taken = λ s pc. refl;
  remote_set = λ s pc h. refl;
  remote_failed = λ s pc. inl refl;
  add_taken = λ c pc h. ground arith;
  add_refused = λ c pc x h. ground arith;
  add_described = λ c pc. ground arith;
}

abbrev three_wait : Holding Pc ℕ ℕ
three_wait = record fresh { layer = record open_layer { pending_candidates = 1 ∷ (7 ∷ (2 ∷ [])) } }

flush_loses_rest_example :
    ((flush_pending_candidates picky three_wait).0 ≡ err (transport (text "refused")))
    × ((flush_pending_candidates picky three_wait).1.pc.1 ≡ 1 ∷ [])
    × ((flush_pending_candidates picky three_wait).1.layer.pending_candidates ≡ [])
flush_loses_rest_example =
    flush_loses_rest picky (λ pc. pc.1) picky_laws (1 ∷ []) (2 ∷ []) 7 (text "refused") three_wait
      refl ((λ pc. refl), tt) (λ pc. refl)

payload_sent : (send rtc [] open_layer).0 ≡ ok tt
unfolding send sent
payload_sent = refl

teardown_silences_example :
    ((send rtc [] (teardown rtc open_layer).1).0 ≢ ok tt)
    × (handle rtc (message_of [] []) (teardown rtc open_layer).1
        ≡ (err (transport (text "peer connection not found")), (teardown rtc open_layer).1))
    × (((teardown rtc open_layer).0 ≡ ok tt)
        → (teardown rtc open_layer).1.state ≡ TransportState.standby)
teardown_silences_example = teardown_silences rtc [] (message_of [] []) open_layer
