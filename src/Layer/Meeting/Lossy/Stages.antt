-- ===== src/Layer/Meeting/Lossy/Stages.antt =====
-- The stages of the handshake where copies of the last frame were lost.
use openlv_rs.Prelude.{ℕ, ◌≡◌, refl, ap, none, some}
use openlv_rs.Text.{Text}
use openlv_rs.Wire.{handshake, encrypted, host, client, compose_frame}
use openlv_rs.Message.{flash, pubkey, capabilities}
use openlv_rs.Layer.State.{SignalState, Platform, Trace, Repeating}
use openlv_rs.Layer.Meeting.{Side, Pairing, Pair, set_up_both, client_to_host, host_to_client}
use openlv_rs.Layer.Meeting.Laws.{SideLaws, PlatformLaws, PairingLaws}
use openlv_rs.Layer.Meeting.Delivery.{framed, with_frame}
use openlv_rs.Layer.Meeting.Stages.{
  host_at, client_at, host_key, client_key, Opens, host_starts, client_starts, host_on_flash,
}
use openlv_rs.Layer.Meeting.Sealed.{IsSealed, contributory_back}
use openlv_rs.Layer.Meeting.Keys.{client_on_key, host_on_key}
use openlv_rs.Layer.Meeting.Lossy.{host_repeats, client_repeats}
use openlv_rs.Layer.Meeting.Lossy.Repeats.{repeats_handshake, repeats-IsSealed}

module _ {V : Type 0} (p : Platform V) (laws : PlatformLaws p) (m : Pairing)
    (fine : PairingLaws p.crypto m) where
  -- The client's last flash is on its way.
  pub record AfterFlash (s : Pair V) : Type 0 where
    pub host_trace : Trace V
    pub client_trace : Trace V
    pub client_task : Repeating V
    pub ct : Text
    pub time : ℕ
    pub shape : s ≡ record {
      host = host_at p laws m fine SignalState.ready none none none none host_trace;
      client = with_frame (compose_frame handshake host ct) (
          client_at p laws m fine SignalState.handshake none none
            (some client_task)
            (some tt)
            client_trace);
    }
    pub opened : Opens p laws m fine ct (flash p.empty_object time)

  -- The host's key is on its way.
  pub record AfterHostKey (s : Pair V) : Type 0 where
    pub host_trace : Trace V
    pub client_trace : Trace V
    pub host_task : Repeating V
    pub client_task : Repeating V
    pub ct : Text
    pub time : ℕ
    pub shape : s ≡ record {
      host = with_frame (compose_frame handshake client ct) (
          host_at p laws m fine SignalState.handshake none none
            (some host_task)
            (some tt)
            host_trace);
      client =
          client_at p laws m fine SignalState.handshake none none
            (some client_task)
            (some tt)
            client_trace;
    }
    pub opened :
        Opens p laws m fine ct
          (pubkey (record { public_key = (host_key p laws m fine).serialized }) time)

  -- The client's key is on its way.
  pub record AfterClientKey (s : Pair V) : Type 0 where
    pub host_trace : Trace V
    pub client_trace : Trace V
    pub host_task : Repeating V
    pub client_task : Repeating V
    pub ct : Text
    pub time : ℕ
    pub shape : s ≡ record {
      host =
          host_at p laws m fine SignalState.handshake none none
            (some host_task)
            (some tt)
            host_trace;
      client = with_frame (compose_frame encrypted host ct) (
          client_at p laws m fine SignalState.handshake_partial
            (some (host_key p laws m fine))
            none
            (some client_task)
            (some tt)
            client_trace);
    }
    pub sealed :
        IsSealed p laws m fine m.client_secret m.host_secret ct
          (pubkey (record { public_key = (client_key p laws m fine).serialized }) time)

  -- The host's capabilities are on their way.
  pub record AfterCapabilities (s : Pair V) : Type 0 where
    pub host_trace : Trace V
    pub client_trace : Trace V
    pub host_task : Repeating V
    pub client_task : Repeating V
    pub ct : Text
    pub time : ℕ
    pub shape : s ≡ record {
      host = with_frame (compose_frame encrypted client ct) (
          host_at p laws m fine SignalState.handshake_partial
            (some (client_key p laws m fine))
            none
            (some host_task)
            (some tt)
            host_trace);
      client =
          client_at p laws m fine SignalState.handshake_partial
            (some (host_key p laws m fine))
            none
            (some client_task)
            (some tt)
            client_trace;
    }
    pub is_task : host_task ≡ record {
      prefix = encrypted;
      recipient = client;
      message = capabilities m.host_capabilities time;
    }
    pub sealed :
        IsSealed p laws m fine m.host_secret m.client_secret ct
          (capabilities m.host_capabilities time)

  module _ (host_side : Side) (host_works : SideLaws host_side) (client_side : Side)
      (client_works : SideLaws client_side) where
    pub flash_lost :
        (n : ℕ)
        → AfterFlash
            (client_repeats p host_side client_side n (set_up_both p host_side client_side m))
    unfolding client_repeats set_up_both
    flash_lost n =
        let (t0, e0) = host_starts p laws m fine host_side host_works in
        let (task, t, ct, time, e, opened, q) =
          client_starts p laws m fine client_side client_works in
        let (t', ct', again, opened') =
          repeats_handshake p laws m fine client_side client_works n host
            (flash p.empty_object time)
            (client_at p laws m fine SignalState.handshake none none (some task) (some tt) t) ct
            refl (ap some q) opened in
        record {
          host_trace = t0;
          client_trace = t';
          client_task = task;
          ct = ct';
          time = time;
          shape = rw (e0, e, again) refl;
          opened = opened';
        }

    pub host_key_lost :
        (n : ℕ) {s : Pair V}
        → AfterFlash s
        → AfterHostKey
            (host_repeats p host_side client_side n (client_to_host p host_side client_side s))
    unfolding host_repeats client_to_host
    host_key_lost n i =
        let (task, t, ct, time, e, opened, q) =
          host_on_flash p laws m fine host_side host_works i.ct i.time i.host_trace i.opened in
        let (t', ct', again, opened') =
          repeats_handshake p laws m fine host_side host_works n client _
            (host_at p laws m fine SignalState.handshake none none (some task) (some tt) t) ct refl
            (ap some q) opened in
        record {
          host_trace = t';
          client_trace = framed (compose_frame handshake host i.ct) i.client_trace;
          host_task = task;
          client_task = i.client_task;
          ct = ct';
          time = time;
          shape = rw (i.shape, e, again) refl;
          opened = opened';
        }

    pub client_key_lost :
        (n : ℕ) {s : Pair V}
        → AfterHostKey s
        → AfterClientKey
            (client_repeats p host_side client_side n (host_to_client p host_side client_side s))
    unfolding client_repeats host_to_client
    client_key_lost n i =
        let (task, t, ct, time, e, sealed, q) =
          client_on_key p laws m fine client_side client_works i.ct i.time i.client_task
            i.client_trace i.opened in
        let (t', ct', again, sealed') =
          repeats-IsSealed p laws m fine client_side client_works n m.client_secret m.host_secret
            host _
            (client_at p laws m fine SignalState.handshake_partial (some (host_key p laws m fine))
              none (some task) (some tt) t)
            ct refl refl (contributory_back p laws m fine) (ap some q) sealed in
        record {
          host_trace = framed (compose_frame handshake client i.ct) i.host_trace;
          client_trace = t';
          host_task = i.host_task;
          client_task = task;
          ct = ct';
          time = time;
          shape = rw (i.shape, e, again) refl;
          sealed = sealed';
        }

    pub host_capabilities_lost :
        (n : ℕ) {s : Pair V}
        → AfterClientKey s
        → AfterCapabilities
            (host_repeats p host_side client_side n (client_to_host p host_side client_side s))
    unfolding host_repeats client_to_host
    host_capabilities_lost n i =
        let (task, t, ct, time, e, sealed, q) =
          host_on_key p laws m fine host_side host_works i.ct i.time i.host_task i.host_trace
            i.sealed in
        let (t', ct', again, sealed') =
          repeats-IsSealed p laws m fine host_side host_works n m.host_secret m.client_secret client
            _
            (host_at p laws m fine SignalState.handshake_partial (some (client_key p laws m fine))
              none (some task) (some tt) t)
            ct refl refl fine.contributory (ap some q) sealed in
        record {
          host_trace = t';
          client_trace = framed (compose_frame encrypted host i.ct) i.client_trace;
          client_task = i.client_task;
          ct = ct';
          time = time;
          shape = rw (i.shape, e, again) refl;
          host_task = task;
          is_task = q;
          sealed = sealed';
        }
