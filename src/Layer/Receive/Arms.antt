-- ===== src/Layer/Receive/Arms.antt =====
-- Every arm of `handle_receive` of layer/mod.rs keeps the invariant.
use openlv_rs.Prelude.{
  ◌≡◌, refl, inl, inr, Bool, true, false, Option, none, some, arith, not, is_some, Bool-cases,
  if◌then◌else◌,
}
use openlv_rs.Text.{Text, bytes_eq}
use openlv_rs.Errors.{ok}
use openlv_rs.Wire.{WirePrefix, handshake, encrypted, host, client, WireFrame, parse_frame}
use openlv_rs.Message.{
  SignalingMessage, PubkeyPayload, PeerCapabilities, flash, pubkey, capabilities, app_data,
}
use openlv_rs.Encryption.Asymmetric.{EncryptionKey, from_ciphertext, parse_encryption_key}
use openlv_rs.Encryption.Hash.{validate_public_key_hash}
use openlv_rs.Encryption.Hash.Roles.{validate_public_key_hash_iff}
use openlv_rs.Layer.State.{
  SignalState, SignalingInner, Layer, Platform, set_state, store_relying_key,
  store_peer_capabilities, enter,
}
use openlv_rs.Layer.Monad.{M, continue_with-keeps, pure, modify}
use openlv_rs.Layer.Invariant.{
  IsPinned, Follows, enter-Follows, start_handshake_deadline-Follows, stored-Follows,
  store_peer_capabilities-Follows, store_peer_capabilities-key,
}
use openlv_rs.Layer.Opening.{open_message}
use openlv_rs.Layer.Sending.Effects.{send_repeating-Follows, send_message-Follows}
use openlv_rs.Layer.Receive.{
  on_flash, store_then, after_host_key, on_host_pubkey, after_client_key, on_client_pubkey,
  echo_capabilities, on_capabilities, dispatch, dispatch_opened, handle_receive,
}

module _ {V : Type 0} (p : Platform V) (first : SignalingInner V) where
  abbrev Good : Layer V → Type 0
  Good l = Follows p.crypto first l.inner

  on_flash-Follows : (l : Layer V) → Good l → Good (on_flash p l).1
  unfolding on_flash set_state
  on_flash-Follows l f =
      let entered : Follows p.crypto first (enter SignalState.handshake l.inner) =
        enter-Follows p.crypto first SignalState.handshake l.inner (λ e. cc) f in
      send_repeating-Follows p first handshake client _ _
        (start_handshake_deadline-Follows p.crypto first _ entered)

  store_then-Follows :
      (key : EncryptionKey) (next : M V (Unit {0})) (l : Layer V)
      → IsPinned p.crypto l.inner.properties.is_host l.inner.properties.h (some key)
      → ((l' : Layer V) → is_some l'.inner.relying_key ≡ true → Good l' → Good (next l').1)
      → Good l
      → Good (store_then p key next l).1
  unfolding store_then store_relying_key
  store_then-Follows key next l right keep f = elim (Bool-cases (is_some l.inner.relying_key)) [
    | inl known ↦ rw known f
    | inr fresh ↦ rw fresh (
        keep (record l { inner = record l.inner { relying_key = some key } }) refl
          (stored-Follows p.crypto first l.inner key (ground arith) right f))
  ]

  after_host_key-Follows :
      (l : Layer V) → is_some l.inner.relying_key ≡ true → Good l → Good (after_host_key p l).1
  unfolding after_host_key set_state
  after_host_key-Follows l key f =
      send_repeating-Follows p first encrypted host _ _
        (enter-Follows p.crypto first SignalState.handshake_partial l.inner (λ _. key) f)

  after_client_key-Follows :
      (l : Layer V) → is_some l.inner.relying_key ≡ true → Good l → Good (after_client_key p l).1
  unfolding after_client_key set_state
  after_client_key-Follows l key f =
      send_repeating-Follows p first encrypted client _ _
        (enter-Follows p.crypto first SignalState.handshake_partial l.inner (λ _. key) f)

  -- A key of a client is stored only behind the check of its hash.
  checked_key-Follows :
      (key : EncryptionKey) (l : Layer V) (valid : Bool)
      → l.inner.properties.is_host ≡ false
      → validate_public_key_hash p.crypto key l.inner.properties.h ≡ ok valid
      → Good l
      → Good
          ((if not valid
              then modify (set_state SignalState.error)
              else store_then p key (after_host_key p))
            l).1
  unfolding set_state
  checked_key-Follows key l false role e f =
      enter-Follows p.crypto first SignalState.error l.inner (λ h. cc) f
  checked_key-Follows key l true role e f =
      store_then-Follows key (after_host_key p) l
        (rw role ((validate_public_key_hash_iff p.crypto key l.inner.properties.h).0 e))
        after_host_key-Follows f

  on_host_pubkey-Follows :
      (payload : PubkeyPayload) (l : Layer V)
      → l.inner.properties.is_host ≡ false
      → Good l
      → Good (on_host_pubkey p payload l).1
  unfolding on_host_pubkey
  on_host_pubkey-Follows payload l role f =
      continue_with-keeps Good (parse_encryption_key p.crypto payload.public_key, l) _ f
        λ key _.
          continue_with-keeps Good (validate_public_key_hash p.crypto key l.inner.properties.h, l) _
            f λ valid e. checked_key-Follows key l valid role e f

  on_client_pubkey-Follows :
      (frame : WireFrame) (payload : PubkeyPayload) (l : Layer V)
      → l.inner.properties.is_host ≡ true
      → Good l
      → Good (on_client_pubkey p frame payload l).1
  unfolding on_client_pubkey
  on_client_pubkey-Follows frame payload l role f =
      continue_with-keeps Good (parse_encryption_key p.crypto payload.public_key, l) _ f
        λ key _.
          continue_with-keeps Good (from_ciphertext p.crypto frame.ciphertext, l) _ f
            λ sender _. sealed_by_key key (not (bytes_eq sender.public_key key.public_key))
    where
      sealed_by_key :
          (key : EncryptionKey) (differs : Bool)
          → Good ((if differs then pure tt else store_then p key (after_client_key p)) l).1
      sealed_by_key key true = f
      sealed_by_key key false =
          store_then-Follows key (after_client_key p) l (rw role tt) after_client_key-Follows f

  echo_capabilities-Follows : (l : Layer V) → Good l → Good (echo_capabilities p l).1
  unfolding echo_capabilities
  echo_capabilities-Follows l f = send_message-Follows p first encrypted host _ l f

  echo_if-Follows :
      (b : Bool) (l : Layer V) → Good l → Good (if b then echo_capabilities p l else (ok tt, l)).1
  echo_if-Follows true l f = echo_capabilities-Follows l f
  echo_if-Follows false l f = f

  on_capabilities-Follows :
      (payload : PeerCapabilities) (l : Layer V)
      → is_some l.inner.relying_key ≡ true
      → Good l
      → Good (on_capabilities p payload l).1
  unfolding on_capabilities set_state
  on_capabilities-Follows payload l key f =
      echo_if-Follows (not (enter SignalState.encrypted known).properties.is_host) _ (
        enter-Follows p.crypto first SignalState.encrypted known
          (λ _. rw (store_peer_capabilities-key p.crypto payload l.inner) key)
          (store_peer_capabilities-Follows p.crypto first l.inner payload f))
    where
      known : SignalingInner V
      known = store_peer_capabilities payload l.inner

  -- Every arm of the match keeps the invariant.
  dispatch-Follows :
      (frame : WireFrame) (prefix : WirePrefix) (message : SignalingMessage V) (state : SignalState)
      (is_host : Bool) (l : Layer V)
      → l.inner.state ≡ state
      → l.inner.properties.is_host ≡ is_host
      → Good l
      → Good (dispatch p frame prefix message state is_host l).1
  unfolding dispatch
  dispatch-Follows frame handshake (flash payload t) SignalState.ready true l e h f =
      on_flash-Follows l f
  dispatch-Follows frame handshake (pubkey payload t) SignalState.handshake false l e h f =
      on_host_pubkey-Follows payload l h f
  dispatch-Follows frame encrypted (pubkey payload t) SignalState.handshake true l e h f =
      on_client_pubkey-Follows frame payload l h f
  dispatch-Follows frame encrypted (capabilities payload t) SignalState.handshake_partial is_host l
        e h f =
      on_capabilities-Follows payload l (f.consistent.keyed (rw e refl)) f
  dispatch-Follows frame encrypted (capabilities payload t) SignalState.encrypted false l e h f =
      echo_capabilities-Follows l f
  dispatch-Follows frame encrypted (app_data payload t) SignalState.encrypted is_host l e h f = f
  dispatch-Follows frame prefix message state is_host l e h f = f

  dispatch_opened-Follows :
      (frame : WireFrame) (opened : Option (SignalingMessage V)) (l : Layer V)
      → Good l
      → Good (dispatch_opened p frame opened l).1
  unfolding dispatch_opened
  dispatch_opened-Follows frame none l f = f
  dispatch_opened-Follows frame (some message) l f =
      dispatch-Follows frame frame.prefix message l.inner.state l.inner.properties.is_host l refl
        refl f

  -- Whatever payload the channel delivers, receiving it keeps the invariant.
  pub handle_receive-Follows :
      (payload : Text) (l : Layer V) → Good l → Good (handle_receive p payload l).1
  unfolding handle_receive
  handle_receive-Follows payload l f =
      continue_with-keeps Good (parse_frame payload, l) _ f
        λ frame _.
          continue_with-keeps Good (open_message p l.inner frame, l) _ f
            λ opened _. dispatch_opened-Follows frame opened l f
