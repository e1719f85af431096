-- ===== src/Channel/Mqtt.antt =====
-- crates/openlv/src/signaling/mqtt/mod.rs. The client is the crate mqtt5: a record of functions.
use openlv_rs.Prelude.{Option, none, some, Bool, if◌then◌else◌}
use openlv_rs.Text.{Bytes, Text}
use openlv_rs.Errors.{OpenLvError, signaling, no_connection, Result, ok, err, map_err}
use openlv_rs.Stateful.{M, continue_with}

-- The client is a value of the crate; the channel of the model keeps it.
pub record MqttChannel (C H : Type 0) : Type 0 where
  pub server : Text
  pub topic : Text
  pub client : Option C
  pub handler : Option H

-- The crate during one call: a new client, the connection to a server, the subscription to a
-- topic, a published payload (topic, payload) and the end.
pub record MqttNetwork (C : Type 0) : Type 0 where
  pub new_client : C
  pub connect : C → Text → Result Text (Unit {0})
  pub subscribe_topic : C → Text → Result Text (Unit {0})
  pub publish_payload : C → Text → Text → Result Text (Unit {0})
  pub disconnect : C → Result Text (Unit {0})

disconnected : {C : Type 0} → MqttNetwork C → Option C → Result OpenLvError (Unit {0})
disconnected net none = ok tt
disconnected net (some client) = map_err signaling (net.disconnect client)

module _ {C H : Type 0} where
  unfoldable pub new : Text → Text → MqttChannel C H
  new server topic = record { server = server; topic = topic; client = none; handler = none }

  unfoldable pub setup : MqttNetwork C → M (MqttChannel C H) (Unit {0})
  setup net c =
      continue_with (map_err signaling (net.connect net.new_client c.server), c)
        λ done c.
          continue_with (map_err signaling (net.subscribe_topic net.new_client c.topic), c)
            λ done c. (ok tt, record c { client = some net.new_client })

  -- `take` leaves no client, whatever the end of the connection gives.
  unfoldable pub teardown : MqttNetwork C → M (MqttChannel C H) (Unit {0})
  unfolding disconnected
  teardown net c = (disconnected net c.client, record c { client = none })

  unfoldable pub publish : MqttNetwork C → Text → MqttChannel C H → Result OpenLvError (Unit {0})
  publish net payload c = elim c.client [
    | none ↦ err no_connection
    | some client ↦ map_err signaling (net.publish_payload client c.topic payload)
  ]

  unfoldable pub subscribe : H → M (MqttChannel C H) (Unit {0})
  subscribe handler c = (ok tt, record c { handler = some handler })

  -- The callback of the subscription: the handler that is called with its payload, if the thread has
  -- a runtime and a handler is stored; `lossy` reads bytes as UTF-8 with replacements.
  unfoldable pub on_message : (Bytes → Text) → Bool → Bytes → MqttChannel C H → Option (H × Text)
  on_message lossy has_runtime payload c = elim c.handler [
    | none ↦ none
    | some handler ↦ if has_runtime then some (handler, lossy payload) else none
  ]
