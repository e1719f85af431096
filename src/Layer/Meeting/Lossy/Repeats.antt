-- ===== src/Layer/Meeting/Lossy/Repeats.antt =====
-- The frame that a repeating task sends last carries the same message as the first.
use openlv_rs.Prelude.{ℕ, zero, suc, ◌≡◌, refl, ap, ◌∙◌, true, [], some}
use openlv_rs.Text.{Bytes, Text}
use openlv_rs.Wire.{handshake, encrypted, WireRecipient, compose_frame}
use openlv_rs.Message.{SignalingMessage}
use openlv_rs.Encryption.Asymmetric.{generate_key_pair}
use openlv_rs.Layer.State.{Layer, Platform, Trace}
use openlv_rs.Layer.Sending.{repeat_once}
use openlv_rs.Layer.Sending.Effects.{repeat_once_lem}
use openlv_rs.Layer.Meeting.{Side, on_side, Pairing}
use openlv_rs.Layer.Meeting.Laws.{SideLaws, PlatformLaws, PairingLaws}
use openlv_rs.Layer.Meeting.Delivery.{framed, with_frame, send_handshake, send_encrypted}
use openlv_rs.Layer.Meeting.Stages.{Opens}
use openlv_rs.Layer.Meeting.Sealed.{IsSealed}
use openlv_rs.Layer.Meeting.Lossy.{repeats, lose}

abbrev pub with_trace : {V : Type 0} → Trace V → Layer V → Layer V
with_trace t l = record l { trace = t }

module _ {V : Type 0} (p : Platform V) (laws : PlatformLaws p) (m : Pairing)
    (fine : PairingLaws p.crypto m) (side : Side) (works : SideLaws side) where
  pub repeats_handshake :
      (n : ℕ) (r : WireRecipient) (msg : SignalingMessage V) (l : Layer V) (ct : Text)
      → l.inner.properties.handshake_key ≡ some m.handshake_key
      → l.inner.handshake_task ≡ some (record { prefix = handshake; recipient = r; message = msg })
      → Opens p laws m fine ct msg
      → (t' : Trace V) × (ct' : Text) × (repeats p side n
            (with_frame (compose_frame handshake r ct) l)
          ≡ with_frame (compose_frame handshake r ct') (with_trace t' l))
        × Opens p laws m fine ct' msg
  unfolding repeats
  repeats_handshake zero r msg l ct key task opened = (l.trace, ct, refl, opened)
  repeats_handshake (suc n) r msg l ct key task opened =
      let (t1, ct1, e, _) = repeats_handshake n r msg l ct key task opened in
      let t2 = record (framed (compose_frame handshake r ct1) t1) { published = [] } in
      let before = with_trace t2 l in
      let (ct2, sent, opens) = send_handshake p laws side works m.handshake_key r msg before key in
      (
        t2,
        ct2,
        ap (λ x. repeat_once (on_side p side) (lose x)) e
            ∙ (repeat_once_lem (on_side p side) before task ∙ ap (λ x. x.1) sent),
        opens,
      )

  pub repeats-IsSealed :
      (n : ℕ) (a b : Bytes) (r : WireRecipient) (msg : SignalingMessage V) (l : Layer V) (ct : Text)
      → l.inner.properties.decryption_key ≡ (generate_key_pair p.crypto a).decryption_key
      → l.inner.relying_key ≡ some (generate_key_pair p.crypto b).encryption_key
      → p.crypto.was_contributory (p.crypto.diffie_hellman a (p.crypto.x25519_public b)) ≡ true
      → l.inner.handshake_task ≡ some (record { prefix = encrypted; recipient = r; message = msg })
      → IsSealed p laws m fine a b ct msg
      → (t' : Trace V) × (ct' : Text) × (repeats p side n
            (with_frame (compose_frame encrypted r ct) l)
          ≡ with_frame (compose_frame encrypted r ct') (with_trace t' l))
        × IsSealed p laws m fine a b ct' msg
  unfolding repeats
  repeats-IsSealed zero a b r msg l ct own known good task sealed = (l.trace, ct, refl, sealed)
  repeats-IsSealed (suc n) a b r msg l ct own known good task sealed =
      let (t1, ct1, e, _) = repeats-IsSealed n a b r msg l ct own known good task sealed in
      let t2 = record (framed (compose_frame encrypted r ct1) t1) { published = [] } in
      let before = with_trace t2 l in
      let (ct2, sent, opens, named) =
        send_encrypted p laws side works a b r msg before own known good in
      (
        t2,
        ct2,
        ap (λ x. repeat_once (on_side p side) (lose x)) e
            ∙ (repeat_once_lem (on_side p side) before task ∙ ap (λ x. x.1) sent),
        (opens, named),
      )
