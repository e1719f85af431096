-- ===== src/Channel.antt =====
-- crates/openlv/src/signaling/mod.rs and channel.rs: the channels that carry the frames.
pub mod Ntfy
pub mod Mqtt
pub mod Lifecycle
mod Tests
use openlv_rs.Prelude.{Option, Bool, is_some}
use openlv_rs.Text.{Text}
use openlv_rs.Errors.{OpenLvError, unsupported_protocol, Result, ok, err, panic, ◌>>=◌}
use openlv_rs.Stateful.{M}
use openlv_rs.Url.{SignalingProtocol, unsupported}
use openlv_rs.Channel.Ntfy as Ntfy
use openlv_rs.Channel.Ntfy.{NtfyCaptures, NtfyChannel, NtfyNetwork}
use openlv_rs.Channel.Mqtt as Mqtt
use openlv_rs.Channel.Mqtt.{MqttChannel, MqttNetwork}

-- `Box<dyn SignalingChannel>`
pub data Channel (C H : Type 0) : Type 0 where
  mqtt : MqttChannel C H → Channel C H
  ntfy : NtfyChannel H → Channel C H

pub record Network (C : Type 0) : Type 0 where
  pub to_mqtt : MqttNetwork C
  pub to_ntfy : NtfyNetwork

module _ {C H : Type 0} where
  unfoldable pub create_signaling_channel :
      (Text → Option NtfyCaptures)
      → SignalingProtocol
      → Text
      → Text
      → Result OpenLvError (Channel C H)
  create_signaling_channel captures SignalingProtocol.mqtt topic server =
      ok (mqtt (Mqtt.new server topic))
  create_signaling_channel captures SignalingProtocol.ntfy topic server =
      Ntfy.new captures topic server >>= λ channel. ok (ntfy channel)
  create_signaling_channel captures (unsupported value) topic server =
      err (unsupported_protocol value)

  abbrev boxed :
      {S : Type 0}
      → (S → Channel C H)
      → Result OpenLvError (Unit {0}) × S
      → Result OpenLvError (Unit {0}) × Channel C H
  boxed box (r, s) = (r, box s)

  -- The methods of the trait.
  unfoldable pub setup : Network C → M (Channel C H) (Unit {0})
  setup net (mqtt c) = boxed mqtt (Mqtt.setup net.to_mqtt c)
  setup net (ntfy c) = boxed ntfy (Ntfy.setup net.to_ntfy c)

  unfoldable pub teardown : Network C → M (Channel C H) (Unit {0})
  teardown net (mqtt c) = boxed mqtt (Mqtt.teardown net.to_mqtt c)
  teardown net (ntfy c) = boxed ntfy (Ntfy.teardown c)

  unfoldable pub publish : Network C → Text → Channel C H → Result OpenLvError (Unit {0})
  publish net payload (mqtt c) = Mqtt.publish net.to_mqtt payload c
  publish net payload (ntfy c) = Ntfy.publish net.to_ntfy payload c

  unfoldable pub subscribe : H → M (Channel C H) (Unit {0})
  subscribe handler (mqtt c) = boxed mqtt (Mqtt.subscribe handler c)
  subscribe handler (ntfy c) = boxed ntfy (Ntfy.subscribe handler c)

  -- Whether a client is stored.
  abbrev pub has_client : Channel C H → Bool
  has_client (mqtt c) = is_some c.client
  has_client (ntfy c) = c.http_client
