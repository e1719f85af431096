-- ===== src/Channel/Lifecycle.antt =====
-- When a channel publishes: between a setup that succeeds and the teardown.
use openlv_rs.Prelude.{◌≡◌, refl, true, false, Option, arith, inl, inr, Option-cases}
use openlv_rs.Text.{Text, text}
use openlv_rs.Errors.{OpenLvError, signaling, no_connection, ok, err, Result-cases, ok-injective}
use openlv_rs.Url.{SignalingProtocol, unsupported}
use openlv_rs.Channel.Ntfy as Ntfy
use openlv_rs.Channel.Ntfy.{NtfyCaptures, Opening, opened, sender_dropped, timed_out}
use openlv_rs.Channel.Mqtt as Mqtt
use openlv_rs.Channel.{
  Channel, Network, mqtt, ntfy, create_signaling_channel, setup, teardown, publish, has_client,
}

module _ {C H : Type 0} where
  -- The error of a channel without a client.
  abbrev pub not_set_up : Channel C H → OpenLvError
  not_set_up (mqtt c) = no_connection
  not_set_up (ntfy c) = signaling (text "ntfy client not initialized")

  -- Nothing is published, whatever the network would answer.
  abbrev pub IsRefused : Channel C H → Type 0
  IsRefused c = (net : Network C) (payload : Text) → publish net payload c ≡ err (not_set_up c)

  IsRefused_lem : (c : Channel C H) → has_client c ≡ false → IsRefused c
  unfolding publish Mqtt.publish Ntfy.publish
  IsRefused_lem (mqtt c) h net payload = elim (Option-cases c.client) [
    | inl e ↦ rw e refl
    | inr (x, e) ↦ let bad = rw e at h in cc
  ]
  IsRefused_lem (ntfy c) h net payload = rw h refl

  created :
      (captures : Text → Option NtfyCaptures) (protocol : SignalingProtocol) (topic server : Text)
      (c : Channel C H)
      → create_signaling_channel captures protocol topic server ≡ ok c
      → has_client c ≡ false
  unfolding create_signaling_channel Mqtt.new Ntfy.new
  created captures SignalingProtocol.mqtt topic server c done = rw (← ok-injective done) refl
  created captures SignalingProtocol.ntfy topic server c done =
      elim (Result-cases (Ntfy.parse_ntfy_url captures server)) [
        | inl (info, e) ↦ ground arith
        | inr (inl (x, e)) ↦ let bad = rw e at done in cc
        | inr (inr e) ↦ let bad = rw e at done in cc
      ]
  created captures (unsupported value) topic server c done = cc

  torn_down : (net : Network C) (c : Channel C H) → has_client (teardown net c).1 ≡ false
  unfolding teardown Mqtt.teardown Ntfy.teardown
  torn_down net (mqtt c) = refl
  torn_down net (ntfy c) = refl

  failed :
      (net : Network C) (c : Channel C H) (e : OpenLvError)
      → has_client c ≡ false
      → (setup net c).0 ≡ err e
      → has_client (setup net c).1 ≡ false
  unfolding setup Mqtt.setup Ntfy.setup Ntfy.confirm_open
  failed net (mqtt c) e h done = ground arith
  failed net (ntfy c) e h done = ground arith

  set_up :
      (net : Network C) (c : Channel C H)
      → (setup net c).0 ≡ ok tt
      → has_client (setup net c).1 ≡ true
  unfolding setup Mqtt.setup Ntfy.setup Ntfy.confirm_open
  set_up net (mqtt c) done = ground arith
  set_up net (ntfy c) done = ground arith

  -- A new channel refuses to publish, whatever the network would answer, and so does one whose setup
  -- failed before it had a client, and every channel after its teardown, also where the teardown
  -- fails; a setup that succeeds leaves a client.
  pub publish_needs_setup :
      (net : Network C) (c : Channel C H)
      → ((captures : Text → Option NtfyCaptures) (protocol : SignalingProtocol)
            (topic server : Text)
          → create_signaling_channel captures protocol topic server ≡ ok c
          → IsRefused c)
        × ((e : OpenLvError)
            → has_client c ≡ false
            → (setup net c).0 ≡ err e
            → IsRefused (setup net c).1)
        × IsRefused (teardown net c).1
        × ((setup net c).0 ≡ ok tt → has_client (setup net c).1 ≡ true)
  publish_needs_setup net c = (
    λ captures protocol topic server done.
        IsRefused_lem c (created captures protocol topic server c done),
    λ e h done. IsRefused_lem (setup net c).1 (failed net c e h done),
    IsRefused_lem (teardown net c).1 (torn_down net c),
    set_up net c,
  )
