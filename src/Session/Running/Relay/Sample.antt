-- ===== src/Session/Running/Relay/Sample.antt =====
-- The JSON of a session for the tests, which knows one offer.
use openlv_rs.Prelude.{ℕ, [], ◌==◌, if◌then◌else◌}
use openlv_rs.Text.{text}
use openlv_rs.Errors.{ok, err}
use openlv_rs.Transport.Message.{TransportNegotiationMessage, request}
use openlv_rs.Session.Running.Relay.{ValueJson}

abbrev pub an_offer : TransportNegotiationMessage
an_offer = record { message_type = text "offer"; payload = text "sdp" }

-- The offer is the value 1, and a request is the value 2.
abbrev pub json : ValueJson ℕ
json = record {
  negotiation_to_value = λ n. ok 1;
  message_to_value = λ m. ok 2;
  negotiation_from_value = λ v. if v == 1 then ok an_offer else err [];
  message_from_value = λ v. ok (request [] 1);
}
