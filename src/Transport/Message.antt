-- ===== src/Transport/Message.antt =====
-- crates/openlv/src/transport/message/mod.rs. A JSON value is a type parameter.
use openlv_rs.Text.{Text}
use openlv_rs.Errors.{OpenLvError, Result, ok, err, panic}

pub record TransportNegotiationMessage : Type 0 where
  pub message_type : Text
  pub payload : Text

pub data SessionMessage (V : Type 0) : Type 0 where
  request : Text → V → SessionMessage V
  response : Text → V → SessionMessage V
  ack : Text → SessionMessage V
  failed : Text → SessionMessage V
  close : SessionMessage V
  unknown : SessionMessage V

-- The answer to a request. A handler that panics answers nothing, its task ends.
unfoldable pub reply :
    {V : Type 0} → Text → Result OpenLvError V → Result OpenLvError (SessionMessage V)
reply message_id (ok payload) = ok (response message_id payload)
reply message_id (err e) = ok (failed message_id)
reply message_id panic = panic
