-- ===== src/Layer/Meeting/Exchange.antt =====
-- The whole handshake between two layers, and the first message behind it.
use openlv_rs.Prelude.{◌≡◌, refl, inr, true, ◌∷◌, none, some}
use openlv_rs.Text.{Text}
use openlv_rs.Wire.{encrypted, handshake, host, client, compose_frame, is_recipient, for_role}
use openlv_rs.Message.{SignalingMessage, app_data, validate}
use openlv_rs.Encryption.{Crypto}
use openlv_rs.Encryption.Asymmetric.{generate_key_pair}
use openlv_rs.Layer.State.{SignalState, Platform, Trace, can_encrypt, remote_recipient}
use openlv_rs.Layer.Sending.{send}
use openlv_rs.Layer.Receive.{dispatch, handle_receive}
use openlv_rs.Layer.Meeting.{Side, on_side, Pairing, Pair, newest, handshake_run}
use openlv_rs.Layer.Meeting.Laws.{SideLaws, PlatformLaws, PairingLaws}
use openlv_rs.Layer.Meeting.Delivery.{framed, with_frame, send_encrypted}
use openlv_rs.Layer.Meeting.Stages.{
  host_at, client_at, host_key, client_key, host_starts, client_starts, host_on_flash,
}
use openlv_rs.Layer.Meeting.Sealed.{contributory_back, receive_encrypted}
use openlv_rs.Layer.Meeting.Keys.{client_on_key, host_on_key}
use openlv_rs.Layer.Meeting.Advertised.{client_on_capabilities, host_on_capabilities}

-- Both sides are in the encrypted state, know each other's key and capabilities, and run no
-- handshake task any more.
pub record IsLinked {V : Type 0} (c : Crypto) (m : Pairing) (s : Pair V) : Type 0 where
  pub host_state : s.host.inner.state ≡ SignalState.encrypted
  pub client_state : s.client.inner.state ≡ SignalState.encrypted
  pub host_knows :
      s.host.inner.relying_key ≡ some (generate_key_pair c m.client_secret).encryption_key
  pub client_knows :
      s.client.inner.relying_key ≡ some (generate_key_pair c m.host_secret).encryption_key
  pub host_learns : s.host.inner.peer_capabilities ≡ some m.client_capabilities
  pub client_learns : s.client.inner.peer_capabilities ≡ some m.host_capabilities
  pub host_idle : s.host.inner.handshake_task ≡ none
  pub client_idle : s.client.inner.handshake_task ≡ none

module _ {V : Type 0} (p : Platform V) (laws : PlatformLaws p) (m : Pairing)
    (fine : PairingLaws p.crypto m) (host_side : Side) (host_works : SideLaws host_side)
    (client_side : Side) (client_works : SideLaws client_side) where
  handshake_run_lem :
      (t t' : Trace V) × (ct : Text) × (handshake_run p host_side client_side m ≡ record {
        host =
            host_at p laws m fine SignalState.encrypted
              (some (client_key p laws m fine))
              (some m.client_capabilities)
              none
              none
              t;
        client = with_frame (compose_frame encrypted host ct) (
            client_at p laws m fine SignalState.encrypted
              (some (host_key p laws m fine))
              (some m.host_capabilities)
              none
              none
              t');
      })
  unfolding handshake_run
  handshake_run_lem =
      let (t0, e0) = host_starts p laws m fine host_side host_works in
      let (task1, t1, ct1, time1, e1, o1, _) =
        client_starts p laws m fine client_side client_works in
      let (task2, t2, ct2, time2, e2, o2, _) =
        host_on_flash p laws m fine host_side host_works ct1 time1 t0 o1 in
      let (task3, t3, ct3, time3, e3, o3, _) =
        client_on_key p laws m fine client_side client_works ct2 time2 task1
          (framed (compose_frame handshake host ct1) t1) o2 in
      let (task4, t4, ct4, time4, e4, o4, _) =
        host_on_key p laws m fine host_side host_works ct3 time3 task2
          (framed (compose_frame handshake client ct2) t2) o3 in
      let (t5, ct5, time5, e5, o5) =
        client_on_capabilities p laws m fine client_side client_works ct4 time4 task3
          (framed (compose_frame encrypted host ct3) t3) o4 in
      let (t6, e6) =
        host_on_capabilities p laws m fine host_side host_works ct5 time5 task4
          (framed (compose_frame encrypted client ct4) t4) o5 in
      (t6, t5, ct5, rw (e0, e1, e2, e3, e4, e5, e6) refl)

  -- Under the laws of the primitives and of JSON, a host and a client that share the handshake key,
  -- with valid capabilities and keys that have a common secret, over working channels that lose no
  -- frame: the five frames of the handshake leave both in the encrypted state, each with the key and
  -- the capabilities of the other, and without a handshake task.
  pub handshake_completes : IsLinked p.crypto m (handshake_run p host_side client_side m)
  handshake_completes =
      let (t, t', ct, e) = handshake_run_lem in
      rw e (record {
        host_state = refl;
        client_state = refl;
        host_knows = refl;
        client_knows = refl;
        host_learns = refl;
        client_learns = refl;
        host_idle = refl;
        client_idle = refl;
      })

  host_sends :
      (v : V) (t t' : Trace V)
      → p.is_object v ≡ true
      → (handle_receive
          (on_side p client_side)
          (newest
            (send (on_side p host_side) v (
              host_at p laws m fine SignalState.encrypted
                (some (client_key p laws m fine))
                (some m.client_capabilities)
                none
                none
                t)).1)
          (client_at p laws m fine SignalState.encrypted
            (some (host_key p laws m fine))
            (some m.host_capabilities)
            none
            none
            t')).1.trace.messages
        ≡ v ∷ t'.messages
  unfolding send dispatch can_encrypt remote_recipient
  host_sends v t t' object =
      let l =
        host_at p laws m fine SignalState.encrypted (some (client_key p laws m fine))
          (some m.client_capabilities) none none t in
      let l' =
        client_at p laws m fine SignalState.encrypted (some (host_key p laws m fine))
          (some m.host_capabilities) none none t' in
      let msg : SignalingMessage V = app_data v (host_side.now_ms t.calls) in
      let (ct, done, opens, named) =
        send_encrypted p laws host_side host_works m.host_secret m.client_secret client msg l refl
          refl fine.contributory in
      let ran =
        receive_encrypted p laws m fine client_side client_works client ct msg l'
          (unfold is_recipient for_role in refl) (opens (some (host_key p laws m fine)) (inr refl))
          (unfold validate in (rw object refl)) in
      rw (done, ran) refl

  client_sends :
      (v : V) (t t' : Trace V)
      → p.is_object v ≡ true
      → (handle_receive
          (on_side p host_side)
          (newest
            (send (on_side p client_side) v (
              client_at p laws m fine SignalState.encrypted
                (some (host_key p laws m fine))
                (some m.host_capabilities)
                none
                none
                t')).1)
          (host_at p laws m fine SignalState.encrypted
            (some (client_key p laws m fine))
            (some m.client_capabilities)
            none
            none
            t)).1.trace.messages
        ≡ v ∷ t.messages
  unfolding send dispatch can_encrypt remote_recipient
  client_sends v t t' object =
      let l =
        host_at p laws m fine SignalState.encrypted (some (client_key p laws m fine))
          (some m.client_capabilities) none none t in
      let l' =
        client_at p laws m fine SignalState.encrypted (some (host_key p laws m fine))
          (some m.host_capabilities) none none t' in
      let msg : SignalingMessage V = app_data v (client_side.now_ms t'.calls) in
      let (ct, done, opens, named) =
        send_encrypted p laws client_side client_works m.client_secret m.host_secret host msg l'
          refl refl (contributory_back p laws m fine) in
      let ran =
        receive_encrypted p laws m fine host_side host_works host ct msg l
          (unfold is_recipient for_role in refl)
          (opens (some (client_key p laws m fine)) (inr refl))
          (unfold validate in (rw object refl)) in
      rw (done, ran) refl

  -- Under the laws of the primitives and of JSON, with valid capabilities, a common secret and
  -- working channels: after the handshake an object that one side sends is what the other side gives
  -- to its subscribers, next and once, in both directions.
  pub payload_delivered :
      (v : V)
      → p.is_object v ≡ true
      → let s = handshake_run p host_side client_side m in
        ((handle_receive
            (on_side p client_side)
            (newest (send (on_side p host_side) v s.host).1)
            s.client).1.trace.messages
          ≡ v ∷ s.client.trace.messages)
        × ((handle_receive
              (on_side p host_side)
              (newest (send (on_side p client_side) v s.client).1)
              s.host).1.trace.messages
            ≡ v ∷ s.host.trace.messages)
  payload_delivered v object =
      let (t, t', ct, e) = handshake_run_lem in
      rw e (
        host_sends v t (framed (compose_frame encrypted host ct) t') object,
        client_sends v t (framed (compose_frame encrypted host ct) t') object,
      )
