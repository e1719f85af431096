-- ===== src/Layer/Meeting/Lossy/Recovery.antt =====
-- The handshake where frames are lost.
use openlv_rs.Prelude.{ℕ, zero, suc, ◌≡◌, refl, ap, inr, [], none, some}
use openlv_rs.Text.{Text}
use openlv_rs.Wire.{encrypted, host, client, compose_frame, is_recipient, for_role}
use openlv_rs.Message.{SignalingMessage, capabilities, validate}
use openlv_rs.Layer.State.{SignalState, Platform, Trace, Repeating, capabilities_message}
use openlv_rs.Layer.Receive.{dispatch, handle_receive}
use openlv_rs.Layer.Meeting.{Side, on_side, Pairing, Pair, client_to_host, host_to_client}
use openlv_rs.Layer.Meeting.Laws.{SideLaws, PlatformLaws, PairingLaws}
use openlv_rs.Layer.Meeting.Delivery.{framed, with_frame, send_encrypted}
use openlv_rs.Layer.Meeting.Stages.{host_at, client_at, host_key, client_key}
use openlv_rs.Layer.Meeting.Sealed.{IsSealed, contributory_back, receive_encrypted}
use openlv_rs.Layer.Meeting.Advertised.{client_on_capabilities, host_on_capabilities}
use openlv_rs.Layer.Meeting.Exchange.{IsLinked}
use openlv_rs.Layer.Meeting.Lossy.{Losses, host_repeats, answer_again, lossy_from, lossy_run}
use openlv_rs.Layer.Meeting.Lossy.Repeats.{repeats-IsSealed}
use openlv_rs.Layer.Meeting.Lossy.Stages.{
  AfterCapabilities, flash_lost, host_key_lost, client_key_lost, host_capabilities_lost,
}

module _ {V : Type 0} (p : Platform V) (laws : PlatformLaws p) (m : Pairing)
    (fine : PairingLaws p.crypto m) where
  -- A client that is done answers repeated capabilities with its own.
  client_echoes :
      (side : Side) (works : SideLaws side) (ct : Text) (time : ℕ) (t : Trace V)
      → IsSealed p laws m fine m.host_secret m.client_secret ct
          (capabilities m.host_capabilities time)
      → (ct' : Text) × (time' : ℕ) × ((handle_receive
            (on_side p side)
            (compose_frame encrypted client ct)
            (client_at p laws m fine SignalState.encrypted
              (some (host_key p laws m fine))
              (some m.host_capabilities)
              none
              none
              t)).1
          ≡ with_frame (compose_frame encrypted host ct') (
              client_at p laws m fine SignalState.encrypted
                (some (host_key p laws m fine))
                (some m.host_capabilities)
                none
                none
                t))
        × IsSealed p laws m fine m.client_secret m.host_secret ct'
            (capabilities m.client_capabilities time')
  unfolding dispatch capabilities_message
  client_echoes side works ct time t (opened, from_host) =
      let l =
        client_at p laws m fine SignalState.encrypted (some (host_key p laws m fine))
          (some m.host_capabilities) none none t in
      let ran =
        receive_encrypted p laws m fine side works client ct (capabilities m.host_capabilities time)
          l (unfold is_recipient for_role in refl)
          (opened (some (host_key p laws m fine)) (inr refl))
          (unfold validate in fine.host_valid) in
      let time' = side.now_ms t.calls in
      let answer : SignalingMessage V = capabilities m.client_capabilities time' in
      let (ct', sent, opens, named) =
        send_encrypted p laws side works m.client_secret m.host_secret host answer l refl refl
          (contributory_back p laws m fine) in
      (ct', time', rw (ran, sent) refl, (opens, named))

  module _ (host_side : Side) (host_works : SideLaws host_side) (client_side : Side)
      (client_works : SideLaws client_side) where
    -- The host repeats its capabilities, and the client is done and has answered.
    abbrev Waiting : Repeating V → Text → Text → Trace V → Trace V → Pair V
    Waiting task ct ct' t t' = record {
      host = with_frame (compose_frame encrypted client ct) (
          host_at p laws m fine SignalState.handshake_partial (some (client_key p laws m fine)) none
            (some task) (some tt) t);
      client = with_frame (compose_frame encrypted host ct') (
          client_at p laws m fine SignalState.encrypted (some (host_key p laws m fine))
            (some m.host_capabilities) none none t');
    }

    -- A pair in that state whose last frames open.
    record IsWaiting (time : ℕ) (s : Pair V) : Type 0 where
      host_task : Repeating V
      host_ct : Text
      client_ct : Text
      host_trace : Trace V
      client_trace : Trace V
      answer_time : ℕ
      shape : s ≡ Waiting host_task host_ct client_ct host_trace client_trace
      is_task : host_task ≡ record {
        prefix = encrypted;
        recipient = client;
        message = capabilities m.host_capabilities time;
      }
      host_sealed :
          IsSealed p laws m fine m.host_secret m.client_secret host_ct
            (capabilities m.host_capabilities time)
      client_sealed :
          IsSealed p laws m fine m.client_secret m.host_secret client_ct
            (capabilities m.client_capabilities answer_time)

    -- The client's first answer to the capabilities of the host.
    first_answer :
        {s : Pair V} (i : AfterCapabilities p laws m fine s)
        → IsWaiting i.time (host_to_client p host_side client_side s)
    unfolding host_to_client
    first_answer {s} i =
        let (t, ct, time, answered, sealed) =
          client_on_capabilities p laws m fine client_side client_works i.ct i.time i.client_task
            i.client_trace i.sealed in
        record {
          host_task = i.host_task;
          is_task = i.is_task;
          host_ct = i.ct;
          client_ct = ct;
          host_trace = i.host_trace;
          client_trace = t;
          answer_time = time;
          shape = rw (i.shape, answered) refl;
          host_sealed = i.sealed;
          client_sealed = sealed;
        }

    answer_again-IsWaiting :
        (n time : ℕ) (s : Pair V)
        → IsWaiting time s
        → IsWaiting time (answer_again p host_side client_side n s)
    unfolding answer_again host_repeats host_to_client
    answer_again-IsWaiting zero time s w = w
    answer_again-IsWaiting (suc n) time s w =
        let i = answer_again-IsWaiting n time s w in
        let (t, ct, again, sealed) =
          repeats-IsSealed p laws m fine host_side host_works 1 m.host_secret m.client_secret client
            (capabilities m.host_capabilities time)
            (host_at p laws m fine SignalState.handshake_partial (some (client_key p laws m fine))
              none (some i.host_task) (some tt) i.host_trace)
            i.host_ct refl refl fine.contributory (ap some i.is_task) i.host_sealed in
        let t' = record (framed (compose_frame encrypted host i.client_ct) i.client_trace) {
          published = [];
        } in
        let (ct', time', echoed, sealed') =
          client_echoes client_side client_works ct time t' sealed in
        record {
          host_task = i.host_task;
          is_task = i.is_task;
          host_ct = ct;
          client_ct = ct';
          host_trace = t;
          client_trace = t';
          answer_time = time';
          shape = rw (i.shape, again, echoed) refl;
          host_sealed = sealed;
          client_sealed = sealed';
        }

    -- The state before the last frame arrives.
    lossy-IsWaiting :
        (losses : Losses)
        → (time : ℕ) × (s : Pair V) × IsWaiting time s
          × (lossy_run p host_side client_side losses m ≡ client_to_host p host_side client_side s)
    unfolding lossy_run lossy_from
    lossy-IsWaiting losses =
        let stage1 =
          flash_lost p laws m fine host_side host_works client_side client_works losses.flashes in
        let stage2 =
          host_key_lost p laws m fine host_side host_works client_side client_works losses.host_keys
            stage1 in
        let stage3 =
          client_key_lost p laws m fine host_side host_works client_side client_works
            losses.client_keys stage2 in
        let stage4 =
          host_capabilities_lost p laws m fine host_side host_works client_side client_works
            losses.host_capabilities stage3 in
        (
          stage4.time,
          answer_again p host_side client_side losses.answers _,
          answer_again-IsWaiting losses.answers stage4.time _ (first_answer stage4),
          refl,
        )

    -- Without the deadlines: whatever number of copies of each frame is lost before one arrives, the
    -- handshake leaves both sides encrypted.
    pub lossy_completes :
        (losses : Losses) → IsLinked p.crypto m (lossy_run p host_side client_side losses m)
    unfolding client_to_host
    lossy_completes losses =
        let (time, s, w, ends) = lossy-IsWaiting losses in
        let (t, done) =
          host_on_capabilities p laws m fine host_side host_works w.client_ct w.answer_time
            w.host_task (framed (compose_frame encrypted client w.host_ct) w.host_trace)
            w.client_sealed in
        rw (ends, w.shape, done)
          (record {
            host_state = refl;
            client_state = refl;
            host_knows = refl;
            client_knows = refl;
            host_learns = refl;
            client_learns = refl;
            host_idle = refl;
            client_idle = refl;
          })
