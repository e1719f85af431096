-- ===== src/Transport/Webrtc/Waiting.antt =====
-- The wait for a state of the transport in crates/openlv/src/transport/webrtc.rs, on what the
-- subscription of the states gives.
use openlv_rs.Prelude.{
  ◌≡◌, refl, Bool, true, false, List, [], ◌∷◌, ◌++◌, Option, none, some, if◌then◌else◌, inl, inr,
  Bool-cases,
}
use openlv_rs.Text.{text}
use openlv_rs.Errors.{OpenLvError, transport, Result, ok, err}
use openlv_rs.Transport.Webrtc.{TransportState}

-- What `recv()` gives on a subscription of the transport's states.
pub data StateEvent : Type 0 where
  state_seen : TransportState → StateEvent
  lagged channel_closed : StateEvent

-- The derived `==` of the states.
same_state : TransportState → TransportState → Bool
same_state TransportState.standby TransportState.standby = true
same_state TransportState.connecting TransportState.connecting = true
same_state TransportState.ready TransportState.ready = true
same_state TransportState.connected TransportState.connected = true
same_state TransportState.error TransportState.error = true
same_state a b = false

-- One round of the loop of `wait_for`: `none` where it goes on. `now` is the state of the
-- transport after the receipt.
wait_round : TransportState → StateEvent → TransportState → Option (Result OpenLvError (Unit {0}))
wait_round target (state_seen state) now =
    if same_state state target
    then some (ok tt)
    else (if same_state now target then some (ok tt) else none)
wait_round target channel_closed now =
    if same_state now target
    then some (ok tt)
    else some (err (transport (text "transport state channel closed")))
wait_round target lagged now = if same_state now target then some (ok tt) else none

wait_loop :
    TransportState → List (StateEvent × TransportState) → Option (Result OpenLvError (Unit {0}))
wait_loop target [] = none
wait_loop target ((seen, now) ∷ rounds) = elim (wait_round target seen now) [
  | some result ↦ some result
  | none ↦ wait_loop target rounds
]

-- `state` is the transport's state when the wait starts. `none`: the rounds are over and the loop
-- still waits.
wait_for :
    TransportState
    → TransportState
    → List (StateEvent × TransportState)
    → Option (Result OpenLvError (Unit {0}))
wait_for target state rounds =
    if same_state state target then some (ok tt) else wait_loop target rounds

same_state_refl : (s : TransportState) → same_state s s ≡ true
unfolding same_state
same_state_refl TransportState.standby = refl
same_state_refl TransportState.connecting = refl
same_state_refl TransportState.ready = refl
same_state_refl TransportState.connected = refl
same_state_refl TransportState.error = refl

has_closed : List (StateEvent × TransportState) → Bool
has_closed [] = false
has_closed ((channel_closed, now) ∷ rounds) = true
has_closed ((seen, now) ∷ rounds) = has_closed rounds

wait_loop-ok :
    (target now : TransportState) (before after : List (StateEvent × TransportState))
    → has_closed before ≡ false
    → wait_loop target (before ++ (state_seen target, now) ∷ after) ≡ some (ok tt)
unfolding wait_loop wait_round has_closed
wait_loop-ok target now [] after h = rw (same_state_refl target, wait_loop) refl
wait_loop-ok target now ((channel_closed, at) ∷ before) after h = cc
wait_loop-ok target now ((lagged, at) ∷ before) after h = elim (Bool-cases (same_state at target)) [
  | inl e ↦ rw (e, wait_loop) refl
  | inr e ↦ rw (e, wait_loop) (wait_loop-ok target now before after h)
]
wait_loop-ok target now ((state_seen s, at) ∷ before) after h =
    elim (Bool-cases (same_state s target)) [
      | inl e ↦ rw (e, wait_loop) refl
      | inr e ↦ elim (Bool-cases (same_state at target)) [
        | inl f ↦ rw (e, f, wait_loop) refl
        | inr f ↦ rw (e, f, wait_loop) (wait_loop-ok target now before after h)
      ]
    ]

-- A wait that sees its state before the channel closes succeeds, whatever it saw before.
wait_for-ok :
    (target state now : TransportState) (before after : List (StateEvent × TransportState))
    → has_closed before ≡ false
    → wait_for target state (before ++ (state_seen target, now) ∷ after) ≡ some (ok tt)
unfolding wait_for
wait_for-ok target state now before after h = elim (Bool-cases (same_state state target)) [
  | inl e ↦ rw e refl
  | inr e ↦ rw e (wait_loop-ok target now before after h)
]
