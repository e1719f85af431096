-- ===== src/Provider.antt =====
-- crates/openlv/src/provider/alloy_1.rs, the transport of an Alloy client over a session;
-- alloy_2.rs beside it is the same code over the next version of Alloy. The session is a state and
-- its `send` a function on it; Alloy's request and response types are parameters.
pub mod Batches
mod Tests
use openlv_rs.Prelude.{List, [], ◌∷◌}
use openlv_rs.Text.{Text}
use openlv_rs.Errors.{OpenLvError, Result, ok, map_err}
use openlv_rs.Stateful.{continue_with}
use openlv_rs.Jsonrpc.{Json, ExchangeError, exchange}

-- The constructors of Alloy's `RequestPacket` and `ResponsePacket`.
pub data Packet (A : Type 0) : Type 0 where
  single : A → Packet A
  batch : List A → Packet A

-- What `TransportErrorKind::custom` is given.
pub data TransportError : Type 0 where
  json_error : Text → TransportError
  exchange_error : ExchangeError → TransportError

-- The text of a serialized request, JSON from a text, and a response from JSON.
pub record AlloyJson (V Q R : Type 0) : Type 0 where
  pub json : Json V
  pub serialized : Q → Text
  pub from_str : Text → Result Text V
  pub from_value : V → Result Text R

module _ {V Q R S : Type 0} (a : AlloyJson V Q R) (send : V → S → Result OpenLvError V × S) where
  -- `exchange` sends its request once.
  unfoldable pub exchange_on : V → S → Result TransportError V × S
  exchange_on request s =
      (map_err exchange_error (exchange a.json (λ v. (send v s).0) request), (send request s).1)

  unfoldable pub dispatch_one : Q → S → Result TransportError R × S
  unfolding exchange_on
  dispatch_one req s =
      continue_with (map_err json_error (a.from_str (a.serialized req)), s)
        λ request s1.
          continue_with (exchange_on request s1)
            λ response s2. (map_err json_error (a.from_value response), s2)

  -- The loop of a batch.
  unfoldable pub dispatch_all : List Q → S → Result TransportError (List R) × S
  dispatch_all [] s = (ok [], s)
  dispatch_all (request ∷ requests) s = continue_with (dispatch_one request s) λ response s1.
      continue_with (dispatch_all requests s1) λ responses s2. (ok (response ∷ responses), s2)

  unfoldable pub call : Packet Q → S → Result TransportError (Packet R) × S
  unfolding dispatch_all
  call (single request) s =
      continue_with (dispatch_one request s) λ response s1. (ok (single response), s1)
  call (batch requests) s =
      continue_with (dispatch_all requests s) λ responses s1. (ok (batch responses), s1)
