-- ===== src/Layer/Lifecycle.antt =====
-- Every life of a layer of layer/mod.rs: calls, received payloads and timers in any order.
use openlv_rs.Prelude.{◌≡◌, refl, false, Option, none, some, ◌∙◌}
use openlv_rs.Text.{Text}
use openlv_rs.Encryption.Asymmetric.{EncryptionKey}
use openlv_rs.Encryption.Hash.{hash_public_key}
use openlv_rs.Layer.State.{SignalingProperties, SignalingInner, Layer, Platform, Repeating, new}
use openlv_rs.Layer.Invariant.{
  IsConsistent, IsPinned, Follows, Follows-refl, new-IsConsistent, Stays, tasks-Follows,
}
use openlv_rs.Layer.Sending.{repeat_once, deadline_elapsed, setup, teardown, send}
use openlv_rs.Layer.Sending.Lifecycle.{
  repeat_once-Follows, deadline_elapsed-Follows, setup-Follows, teardown-Follows, send-Follows,
}
use openlv_rs.Layer.Receive.{handle_receive}
use openlv_rs.Layer.Receive.Arms.{handle_receive-Follows}

abbrev pub with_task : {V : Type 0} → Option (Repeating V) → Layer V → Layer V
with_task task l = record l { inner = record l.inner { handshake_task = task } }

-- One call of the layer, or one event of its surroundings. A method that arms the repeating task
-- awaits the first copy before it stores the handle, and other steps may run in between: for them the
-- handle is not there yet (`awaiting`), and it is stored behind any of them (`stored`).
pub data Step {V : Type 0} (p : Platform V) : Layer V → Layer V → Type 0 where
  set_up : (l : Layer V) → Step p l (setup p l).1
  torn_down : (l : Layer V) → Step p l (teardown p l).1
  sent : (v : V) (l : Layer V) → Step p l (send p v l).1
  received : (payload : Text) (l : Layer V) → Step p l (handle_receive p payload l).1
  repeated : (l : Layer V) → Step p l (repeat_once p l)
  expired : (l : Layer V) → Step p l (deadline_elapsed p l)
  awaiting : (l : Layer V) → Step p l (with_task none l)
  stored : (task : Repeating V) (l : Layer V) → Step p l (with_task (some task) l)

pub data Reach {V : Type 0} (p : Platform V) (l : Layer V) : Layer V → Type 0 where
  here : Reach p l l
  next : {l' l'' : Layer V} → Reach p l l' → Step p l' l'' → Reach p l l''

module _ {V : Type 0} {p : Platform V} where
  Step-Follows :
      (first : SignalingInner V) {l l' : Layer V}
      → Step p l l'
      → Follows p.crypto first l.inner
      → Follows p.crypto first l'.inner
  Step-Follows first (set_up l) f = setup-Follows p first l f
  Step-Follows first (torn_down l) f = teardown-Follows p first l f
  Step-Follows first (sent v l) f = send-Follows p first v l f
  Step-Follows first (received payload l) f = handle_receive-Follows p first payload l f
  Step-Follows first (repeated l) f = repeat_once-Follows p first l f
  Step-Follows first (expired l) f = deadline_elapsed-Follows p first l f
  Step-Follows first (awaiting l) f =
      tasks-Follows p.crypto first l.inner none l.inner.deadline_task f
  Step-Follows first (stored task l) f =
      tasks-Follows p.crypto first l.inner (some task) l.inner.deadline_task f

  Reach-Follows :
      {l l' : Layer V}
      → IsConsistent p.crypto l.inner
      → Reach p l l'
      → Follows p.crypto l.inner l'.inner
  Reach-Follows {l} i here = Follows-refl p.crypto l.inner i
  Reach-Follows {l} i (next r s) = Step-Follows l.inner s (Reach-Follows i r)

  -- Whatever a layer receives and is asked to do after it was made, a client never holds a peer key
  -- whose hash differs from the one of the connection URL.
  pub client_key_pinned :
      (properties : SignalingProperties) {l : Layer V} (key : EncryptionKey)
      → properties.is_host ≡ false
      → Reach p (new properties) l
      → l.inner.relying_key ≡ some key
      → hash_public_key p.crypto key ≡ properties.h
  client_key_pinned properties {l} key role r known =
      let f = Reach-Follows (new-IsConsistent p.crypto properties) r in
      of_pinned (f.properties ∙ new-properties) f.consistent.pinned
    where
      new-properties : (new {V = V} properties).inner.properties ≡ properties
      new-properties = unfold new in refl

      of_pinned :
          l.inner.properties ≡ properties
          → IsPinned p.crypto l.inner.properties.is_host l.inner.properties.h l.inner.relying_key
          → hash_public_key p.crypto key ≡ properties.h
      of_pinned e i = rw (e, role, known) at i

  -- From a consistent state with a known peer key on, that key, the peer's capabilities once they
  -- are known, and the properties of the layer never change.
  pub peer_never_changes :
      {l l' : Layer V} (key : EncryptionKey)
      → IsConsistent p.crypto l.inner
      → Reach p l l'
      → l.inner.relying_key ≡ some key
      → (l'.inner.relying_key ≡ some key)
        × Stays l.inner.peer_capabilities l'.inner.peer_capabilities
        × (l'.inner.properties ≡ l.inner.properties)
  peer_never_changes {l} {l'} key i r known =
      let f = Reach-Follows i r in (rw known at f.key_stays, f.capabilities_stay, f.properties)

  -- In every reachable layer, also where the handle of a repeating task is stored behind other steps,
  -- the states past the key exchange have a peer key, and the peer key of a client has the hash of the
  -- connection URL.
  pub Reach-IsConsistent :
      (properties : SignalingProperties) {l : Layer V}
      → Reach p (new properties) l
      → IsConsistent p.crypto l.inner
  Reach-IsConsistent properties r =
      (Reach-Follows (new-IsConsistent p.crypto properties) r).consistent
