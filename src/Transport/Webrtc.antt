-- ===== src/Transport/Webrtc.antt =====
-- crates/openlv/src/transport/webrtc.rs. The peer connection and the data channel are other code
-- (the crate webrtc): two state types and a record of functions on them.
pub mod Candidates
pub mod Channel
pub mod Waiting
mod Tests
use openlv_rs.Prelude.{
  ℕ, Bool, true, false, not, List, [], ◌∷◌, ◌++◌, Option, none, some, if◌then◌else◌,
}
use openlv_rs.Text.{Bytes, Text, text, bytes_eq, is_utf8}
use openlv_rs.Errors.{OpenLvError, transport, other, Result, ok, err, panic, map_err}
use openlv_rs.Transport.Message.{TransportNegotiationMessage}
use openlv_rs.Stateful.{M, continue_with, ◌>>=◌, ◌>>◌, pure, lift, modify}

-- crates/openlv/src/transport/mod.rs
pub data TransportState : Type 0 where
  standby connecting ready connected error : TransportState

pub data TransportEvent : Type 0 where
  negotiation : TransportNegotiationMessage → TransportEvent
  message : Text → TransportEvent

-- The peer connection `P`, the data channel `D`, session descriptions `S` and candidates `C`. A
-- failing call gives its error text.
pub record Rtc (P D S C : Type 0) : Type 0 where
  pub build : Result Text P
  pub create_data_channel : P → Result Text D × P
  pub create_offer : P → Result Text S × P
  pub create_answer : P → Result Text S × P
  pub set_local_description : S → P → Result Text (Unit {0}) × P
  pub set_remote_description : S → P → Result Text (Unit {0}) × P
  pub has_remote_description : P → Bool
  pub add_ice_candidate : C → P → Result Text (Unit {0}) × P
  pub close_connection : P → Result Text (Unit {0})
  pub send_text : Text → D → Result Text (Unit {0}) × D
  pub description_to_json : S → Result Text Text
  pub description_from_json : Text → Result Text S
  pub candidate_from_json : Text → Result Text C

-- The fields that change, and what others saw: the events and the states, newest first.
pub record TransportLayer (P D C : Type 0) : Type 0 where
  pub is_host : Bool
  pub state : TransportState
  pub peer_connection : Option P
  pub data_channel : Option D
  pub pending_candidates : List C
  pub unflushed : Bool
  pub events : List TransportEvent
  pub states : List TransportState

-- A method that holds the connection: the connection as it is now, and the layer.
pub record Holding (P D C : Type 0) : Type 0 where
  pub pc : P
  pub layer : TransportLayer P D C

pub data DataChannelEvent : Type 0 where
  on_open on_buffered_amount_low on_close on_other : DataChannelEvent
  on_message : Bytes → DataChannelEvent

pub data RtcPeerConnectionState : Type 0 where
  failed closed going_on : RtcPeerConnectionState

abbrev pub is_connected : TransportState → Bool
is_connected connected = true
is_connected _ = false

module _ {P D S C : Type 0} (rtc : Rtc P D S C) where
  unfoldable pub set_state : TransportState → TransportLayer P D C → TransportLayer P D C
  set_state new_state l = record l { state = new_state; states = new_state ∷ l.states }

  abbrev pub emit : TransportEvent → TransportLayer P D C → TransportLayer P D C
  emit event l = record l { events = event ∷ l.events }

  abbrev pub on_layer :
      (TransportLayer P D C → TransportLayer P D C) → Holding P D C → Holding P D C
  on_layer f h = record h { layer = f h.layer }

  -- A call of the connection, its error mapped by `transport_error`.
  abbrev pub on_pc : {A : Type 0} → (P → Result Text A × P) → M (Holding P D C) A
  on_pc call h = let (r, pc) = call h.pc in (map_err transport r, record h { pc = pc })

  -- The handler methods of `TransportHandler`; the payload is `none` where its JSON fails.
  on_ice_candidate : Option Text → TransportLayer P D C → TransportLayer P D C
  on_ice_candidate none l = l
  on_ice_candidate (some payload) l =
      emit (negotiation (record { message_type = text "candidate"; payload = payload })) l

  on_connection_state_change : RtcPeerConnectionState → TransportLayer P D C → TransportLayer P D C
  on_connection_state_change failed l = set_state TransportState.error l
  on_connection_state_change closed l = set_state TransportState.error l
  on_connection_state_change going_on l = l

  -- One event of the loop of `store_and_poll_dc`.
  on_channel_event : DataChannelEvent → TransportLayer P D C → TransportLayer P D C
  on_channel_event on_open l = set_state TransportState.connected l
  on_channel_event (on_message data_bytes) l =
      if is_utf8 data_bytes then emit (message data_bytes) l else l
  on_channel_event on_buffered_amount_low l = record l { unflushed = false }
  on_channel_event on_close l = set_state TransportState.error (record l { unflushed = false })
  on_channel_event on_other l = l

  -- The loop ends with the close of the channel.
  pub poll_channel : List DataChannelEvent → TransportLayer P D C → TransportLayer P D C
  poll_channel [] l = l
  poll_channel (on_close ∷ events) l = on_channel_event on_close l
  poll_channel (event ∷ events) l = poll_channel events (on_channel_event event l)

  store_dc : D → TransportLayer P D C → TransportLayer P D C
  store_dc channel l = record l { data_channel = some channel }

  unfoldable pub negotiate_with : Text → S → M (Holding P D C) (Unit {0})
  negotiate_with message_type description = do
    payload ← lift (map_err other (rtc.description_to_json description))
    modify
        (on_layer (emit (negotiation (record { message_type = message_type; payload = payload }))))

  -- The part of `setup` that the host runs on the new connection.
  offer : M (Holding P D C) (Unit {0})
  offer = do
    channel ← on_pc rtc.create_data_channel
    modify (on_layer (store_dc channel))
    description ← on_pc rtc.create_offer
    on_pc (rtc.set_local_description description)
    negotiate_with (text "offer") description

  -- A connection that could not be made ready is dropped.
  finish_setup :
      Result OpenLvError (Unit {0}) × Holding P D C
      → Result OpenLvError (Unit {0}) × TransportLayer P D C
  finish_setup (ok done, h) =
      (ok tt, set_state TransportState.ready (record h.layer { peer_connection = some h.pc }))
  finish_setup (err e, h) = (err e, h.layer)
  finish_setup (panic, h) = (panic, h.layer)

  setup_with :
      Result Text P → TransportLayer P D C → Result OpenLvError (Unit {0}) × TransportLayer P D C
  setup_with (ok pc) l =
      finish_setup ((if l.is_host then offer else pure tt) (record { pc = pc; layer = l }))
  setup_with (err e) l = (err (transport e), l)
  setup_with panic l = (panic, l)

  pub setup : M (TransportLayer P D C) (Unit {0})
  setup l = setup_with rtc.build (set_state TransportState.connecting l)

  finish_teardown :
      Result OpenLvError (Unit {0})
      → TransportLayer P D C
      → Result OpenLvError (Unit {0}) × TransportLayer P D C
  finish_teardown (ok done) l = (ok tt, set_state TransportState.standby l)
  finish_teardown (err e) l = (err e, l)
  finish_teardown panic l = (panic, l)

  close_result : Option P → Result OpenLvError (Unit {0})
  close_result none = ok tt
  close_result (some pc) = map_err transport (rtc.close_connection pc)

  unfoldable pub teardown : M (TransportLayer P D C) (Unit {0})
  unfolding finish_teardown close_result
  teardown l =
      finish_teardown (close_result l.peer_connection)
        (record l { data_channel = none; peer_connection = none })

  -- What `send` does with the answer of the channel.
  sent :
      Result Text (Unit {0}) × D
      → TransportLayer P D C
      → Result OpenLvError (Unit {0}) × TransportLayer P D C
  sent (ok done, channel) l = (ok tt, record l { data_channel = some channel; unflushed = true })
  sent (err e, channel) l = (err (transport e), record l { data_channel = some channel })
  sent (panic, channel) l = (panic, record l { data_channel = some channel })

  unfoldable pub send : Text → M (TransportLayer P D C) (Unit {0})
  unfolding sent
  send payload l =
      if not (is_connected l.state)
      then (err (transport (text "transport not connected")), l)
      else elim l.data_channel [
        | none ↦ (err (transport (text "data channel not found")), l)
        | some channel ↦ sent (rtc.send_text payload channel) l
      ]

  -- The loop of `flush_pending_candidates`: it stops at the first failure.
  add_all : List C → M (Holding P D C) (Unit {0})
  add_all [] = pure tt
  add_all (candidate ∷ candidates) = do on_pc (rtc.add_ice_candidate candidate); add_all candidates

  pub flush_pending_candidates : M (Holding P D C) (Unit {0})
  flush_pending_candidates h =
      add_all h.layer.pending_candidates (on_layer (λ l. record l { pending_candidates = [] }) h)

  -- The answer to an offer.
  answering : M (Holding P D C) (Unit {0})
  answering = do
    answer ← on_pc rtc.create_answer
    on_pc (rtc.set_local_description answer)
    negotiate_with (text "answer") answer

  on_offer : Text → M (Holding P D C) (Unit {0})
  on_offer payload = do
    description ← lift (map_err other (rtc.description_from_json payload))
    on_pc (rtc.set_remote_description description)
    flush_pending_candidates
    answering

  on_answer : Text → M (Holding P D C) (Unit {0})
  on_answer payload = do
    description ← lift (map_err other (rtc.description_from_json payload))
    on_pc (rtc.set_remote_description description)
    flush_pending_candidates

  -- Before the remote description a candidate waits.
  add_or_wait : C → M (Holding P D C) (Unit {0})
  add_or_wait candidate h =
      if not (rtc.has_remote_description h.pc)
      then (
        ok tt,
        on_layer (λ l. record l { pending_candidates = l.pending_candidates ++ candidate ∷ [] }) h,
      )
      else on_pc (rtc.add_ice_candidate candidate) h

  on_candidate : Text → M (Holding P D C) (Unit {0})
  on_candidate [] = pure tt
  on_candidate (b ∷ payload) = do
    candidate ← lift (map_err other (rtc.candidate_from_json (b ∷ payload)))
    add_or_wait candidate

  -- The `match message` of `handle`.
  pub negotiate : TransportNegotiationMessage → M (Holding P D C) (Unit {0})
  negotiate m =
      if bytes_eq m.message_type (text "offer")
      then on_offer m.payload
      else if bytes_eq m.message_type (text "answer")
      then on_answer m.payload
      else if bytes_eq m.message_type (text "candidate")
      then on_candidate m.payload
      else pure tt

  put_back :
      Result OpenLvError (Unit {0}) × Holding P D C
      → Result OpenLvError (Unit {0}) × TransportLayer P D C
  put_back (r, h) = (r, record h.layer { peer_connection = some h.pc })

  pub handle : TransportNegotiationMessage → M (TransportLayer P D C) (Unit {0})
  handle m l = elim l.peer_connection [
    | none ↦ (err (transport (text "peer connection not found")), l)
    | some pc ↦ put_back (negotiate m (record { pc = pc; layer = l }))
  ]
