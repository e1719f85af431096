-- ===== src/Layer/Invariant.antt =====
-- What holds of the state of layer/mod.rs between two calls.
use openlv_rs.Prelude.{
  ◌≡◌, refl, inl, inr, Bool, true, false, Option, none, some, arith, is_some, Bool-cases,
  Option-cases,
}
use openlv_rs.Text.{Text}
use openlv_rs.Encryption.{Crypto}
use openlv_rs.Encryption.Asymmetric.{EncryptionKey}
use openlv_rs.Encryption.Hash.{hash_public_key}
use openlv_rs.Message.{PeerCapabilities}
use openlv_rs.Layer.State.{
  Repeating, store_peer_capabilities, SignalState, SignalingProperties, SignalingInner, new, enter,
  start_handshake_deadline,
}

-- The key that a client holds has the hash of the connection URL.
abbrev pub IsPinned : Crypto → Bool → Text → Option EncryptionKey → Type 0
IsPinned c is_host h none = Unit
IsPinned c true h (some key) = Unit
IsPinned c false h (some key) = hash_public_key c key ≡ h

abbrev pub needs_key : SignalState → Bool
needs_key SignalState.handshake_partial = true
needs_key SignalState.encrypted = true
needs_key _ = false

pub record IsConsistent {V : Type 0} (c : Crypto) (s : SignalingInner V) : Type 0 where
  pub pinned : IsPinned c s.properties.is_host s.properties.h s.relying_key
  pub keyed : needs_key s.state ≡ true → is_some s.relying_key ≡ true

-- A value that is there stays as it is.
abbrev pub Stays : {A : Type 0} → Option A → Option A → Type 0
Stays none o = Unit
Stays (some a) o = o ≡ some a

-- The state `s`, reached from `first`, is consistent; the properties are those of `first`, and what
-- is known of the peer there stays.
pub record Follows {V : Type 0} (c : Crypto) (first s : SignalingInner V) : Type 0 where
  pub consistent : IsConsistent c s
  pub properties : s.properties ≡ first.properties
  pub key_stays : Stays first.relying_key s.relying_key
  pub capabilities_stay : Stays first.peer_capabilities s.peer_capabilities

pub Stays-refl : {A : Type 0} (o : Option A) → Stays o o
Stays-refl none = tt
Stays-refl (some a) = refl

Stays-none : {A : Type 0} (o : Option A) (a : A) → Stays o none → Stays o (some a)
Stays-none none a h = tt
Stays-none (some b) a h = cc

module _ {V : Type 0} (c : Crypto) where
  pub new-IsConsistent :
      (properties : SignalingProperties) → IsConsistent c (new {V = V} properties).inner
  unfolding new
  new-IsConsistent properties = ground arith

  pub Follows-refl : (s : SignalingInner V) → IsConsistent c s → Follows c s s
  Follows-refl s i = record {
    consistent = i;
    properties = refl;
    key_stays = Stays-refl s.relying_key;
    capabilities_stay = Stays-refl s.peer_capabilities;
  }

  -- Entering a state, where the key that the state needs is there.
  enter-IsConsistent :
      (state : SignalState) (s : SignalingInner V)
      → (needs_key state ≡ true → is_some s.relying_key ≡ true)
      → IsConsistent c s
      → IsConsistent c (enter state s)
  unfolding enter
  enter-IsConsistent SignalState.standby s key i = ground arith
  enter-IsConsistent _ s key i = ground arith

  enter-keeps :
      (state : SignalState) (s : SignalingInner V)
      → ((enter state s).properties ≡ s.properties)
        × ((enter state s).relying_key ≡ s.relying_key)
        × ((enter state s).peer_capabilities ≡ s.peer_capabilities)
  unfolding enter
  enter-keeps SignalState.standby s = (refl, refl, refl)
  enter-keeps _ s = (refl, refl, refl)

  pub enter-Follows :
      (first : SignalingInner V) (state : SignalState) (s : SignalingInner V)
      → (needs_key state ≡ true → is_some s.relying_key ≡ true)
      → Follows c first s
      → Follows c first (enter state s)
  enter-Follows first state s key f =
      let (a, b, d) = enter-keeps state s in
      record {
        consistent = enter-IsConsistent state s key f.consistent;
        properties = rw a f.properties;
        key_stays = rw b f.key_stays;
        capabilities_stay = rw d f.capabilities_stay;
      }

  -- Starting and stopping tasks.
  pub tasks-Follows :
      (first s : SignalingInner V) (t : Option (Repeating V)) (d : Option (Unit {0}))
      → Follows c first s
      → Follows c first (record s { handshake_task = t; deadline_task = d })
  tasks-Follows first s t d f = record {
    consistent = record { pinned = f.consistent.pinned; keyed = f.consistent.keyed };
    properties = f.properties;
    key_stays = f.key_stays;
    capabilities_stay = f.capabilities_stay;
  }

  pub start_handshake_deadline-Follows :
      (first s : SignalingInner V)
      → Follows c first s
      → Follows c first (start_handshake_deadline s)
  unfolding start_handshake_deadline
  start_handshake_deadline-Follows first s f = elim (Bool-cases (is_some s.deadline_task)) [
    | inl armed ↦ rw armed f
    | inr idle ↦ rw idle (tasks-Follows first s s.handshake_task (some tt) f)
  ]

  -- The first key is stored, if it is the right one for a client.
  pub stored-Follows :
      (first s : SignalingInner V) (key : EncryptionKey)
      → s.relying_key ≡ none
      → IsPinned c s.properties.is_host s.properties.h (some key)
      → Follows c first s
      → Follows c first (record s { relying_key = some key })
  stored-Follows first s key fresh right f = record {
    consistent = record { pinned = right; keyed = λ _. refl };
    properties = f.properties;
    key_stays = Stays-none first.relying_key key (rw fresh at f.key_stays);
    capabilities_stay = f.capabilities_stay;
  }

  pub store_peer_capabilities-Follows :
      (first s : SignalingInner V) (given : PeerCapabilities)
      → Follows c first s
      → Follows c first (store_peer_capabilities given s)
  unfolding store_peer_capabilities
  store_peer_capabilities-Follows first s given f = elim (Option-cases s.peer_capabilities) [
    | inl fresh ↦
        rw (fresh, is_some)
          (record {
            consistent = record { pinned = f.consistent.pinned; keyed = f.consistent.keyed };
            properties = f.properties;
            key_stays = f.key_stays;
            capabilities_stay =
                Stays-none first.peer_capabilities given (rw fresh at f.capabilities_stay);
          })
    | inr (old, known) ↦ ground (arith, f)
  ]

  pub store_peer_capabilities-key :
      (given : PeerCapabilities) (s : SignalingInner V)
      → (store_peer_capabilities given s).relying_key ≡ s.relying_key
  unfolding store_peer_capabilities
  store_peer_capabilities-key given s = ground arith
