-- ===== src/Layer/Sending/Lifecycle.antt =====
-- `setup`, `teardown`, `send` and the two timed tasks of layer/mod.rs keep the invariant.
use openlv_rs.Prelude.{
  ◌≡◌, refl, inl, inr, Bool, true, false, Option, none, some, arith, not, Bool-cases, if◌then◌else◌,
}
use openlv_rs.Errors.{ok}
use openlv_rs.Wire.{handshake, encrypted, host}
use openlv_rs.Layer.State.{
  SignalState, SignalingInner, Layer, Platform, Repeating, is_encrypted, set_state,
  stop_handshake_tasks, can_encrypt,
}
use openlv_rs.Layer.Monad.{continue_with-keeps}
use openlv_rs.Layer.Invariant.{Follows, enter-Follows, start_handshake_deadline-Follows}
use openlv_rs.Layer.Sending.{
  repeat_once, repeat_task, expire, deadline_elapsed, start_handshake, open_channel, choose_role,
  setup, teardown, send,
}
use openlv_rs.Layer.Sending.Effects.{send_repeating-Follows, send_message-Follows}

module _ {V : Type 0} (p : Platform V) (first : SignalingInner V) where
  abbrev Good : Layer V → Type 0
  Good l = Follows p.crypto first l.inner

  repeat_task-Follows :
      (task : Option (Repeating V)) (l : Layer V) → Good l → Good (repeat_task p task l)
  unfolding repeat_task
  repeat_task-Follows none l f = f
  repeat_task-Follows (some task) l f = send_message-Follows p first _ _ _ l f

  pub repeat_once-Follows : (l : Layer V) → Good l → Good (repeat_once p l)
  unfolding repeat_once
  repeat_once-Follows l f = repeat_task-Follows l.inner.handshake_task l f

  expire-Follows :
      (deadline : Option (Unit {0})) (l : Layer V) → Good l → Good (expire p deadline l)
  unfolding expire set_state
  expire-Follows none l f = f
  expire-Follows (some armed) l f = elim (Bool-cases (is_encrypted l.inner.state)) [
    | inl done ↦ rw done f
    | inr open_still ↦
        rw open_still (enter-Follows p.crypto first SignalState.error l.inner (λ h. cc) f)
  ]

  pub deadline_elapsed-Follows : (l : Layer V) → Good l → Good (deadline_elapsed p l)
  unfolding deadline_elapsed
  deadline_elapsed-Follows l f = expire-Follows l.inner.deadline_task l f

  pub send-Follows : (v : V) (l : Layer V) → Good l → Good (send p v l).1
  unfolding send
  send-Follows v l f = elim (Bool-cases (not (can_encrypt l.inner))) [
    | inl closed ↦ rw closed f
    | inr opened ↦ rw opened (send_message-Follows p first encrypted _ _ l f)
  ]

  pub teardown-Follows : (l : Layer V) → Good l → Good (teardown p l).1
  unfolding teardown stop_handshake_tasks
  teardown-Follows l f = record {
    consistent = record { pinned = f.consistent.pinned; keyed = f.consistent.keyed };
    properties = f.properties;
    key_stays = f.key_stays;
    capabilities_stay = f.capabilities_stay;
  }

  start_handshake-Follows : (l : Layer V) → Good l → Good (start_handshake p l).1
  unfolding start_handshake set_state
  start_handshake-Follows l f =
      let readied = enter-Follows p.crypto first SignalState.ready l.inner (λ h. cc) f in
      let entered = enter-Follows p.crypto first SignalState.handshake _ (λ h. cc) readied in
      send_repeating-Follows p first handshake host _ _
        (start_handshake_deadline-Follows p.crypto first _ entered)

  role-Follows :
      (l : Layer V) (key role : Bool)
      → can_encrypt l.inner ≡ key
      → Good l
      → Good
          ((if key
            then (ok tt, set_state SignalState.encrypted l)
            else if role
            then (ok tt, set_state SignalState.ready l)
            else start_handshake p l)).1
  unfolding set_state can_encrypt
  role-Follows l true role e f =
      enter-Follows p.crypto first SignalState.encrypted l.inner (λ _. e) f
  role-Follows l false true e f = enter-Follows p.crypto first SignalState.ready l.inner (λ h. cc) f
  role-Follows l false false e f = start_handshake-Follows l f

  choose_role-Follows : (l : Layer V) → Good l → Good (choose_role p l).1
  unfolding choose_role
  choose_role-Follows l f = role-Follows l (can_encrypt l.inner) l.inner.properties.is_host refl f

  open_channel-inner : (l : Layer V) → (open_channel p l).1.inner ≡ l.inner
  unfolding open_channel
  open_channel-inner l = ground arith

  pub setup-Follows : (l : Layer V) → Good l → Good (setup p l).1
  unfolding setup
  setup-Follows l f =
      continue_with-keeps Good (open_channel p opening) (λ _. choose_role p) opened
        (λ _ _. choose_role-Follows (open_channel p opening).1 opened)
    where
      opening : Layer V
      opening = set_state SignalState.connecting l

      connecting : Good opening
      connecting =
          unfold set_state in
          (enter-Follows p.crypto first SignalState.connecting l.inner (λ h. cc) f)

      opened : Good (open_channel p opening).1
      opened = rw (open_channel-inner opening) connecting
