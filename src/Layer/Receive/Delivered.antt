-- ===== src/Layer/Receive/Delivered.antt =====
-- A frame that opens: `handle_receive` of layer/mod.rs runs the arm of its message.
use openlv_rs.Prelude.{◌≡◌, refl, true, some}
use openlv_rs.Text.{Text}
use openlv_rs.Errors.{ok}
use openlv_rs.Wire.{WirePrefix, WireRecipient, WireFrame, compose_frame, is_recipient}
use openlv_rs.Wire.Frames.{parse_frame-compose_frame}
use openlv_rs.Message.{SignalingMessage, validate}
use openlv_rs.Layer.State.{SignalingInner, Layer, Platform}
use openlv_rs.Layer.Opening.{unseal, open_message}
use openlv_rs.Layer.Receive.{dispatch, handle_receive}

module _ {V : Type 0} (p : Platform V) where
  pub open_message-eq-some :
      (s : SignalingInner V) (frame : WireFrame) (plain : Text) (m : SignalingMessage V)
      → is_recipient frame s.properties.is_host ≡ true
      → unseal p s frame ≡ ok plain
      → p.from_json plain ≡ ok m
      → validate p.is_object m ≡ ok tt
      → open_message p s frame ≡ ok (some m)
  unfolding open_message
  open_message-eq-some s frame plain m mine opened read valid = rw (mine, opened, read, valid) refl

  pub handle_receive-dispatch :
      (prefix : WirePrefix) (r : WireRecipient) (ct : Text) (m : SignalingMessage V) (l : Layer V)
      → open_message p l.inner (record { prefix = prefix; recipient = r; ciphertext = ct })
        ≡ ok (some m)
      → handle_receive p (compose_frame prefix r ct) l
        ≡ dispatch p
            (record { prefix = prefix; recipient = r; ciphertext = ct })
            prefix
            m
            l.inner.state
            l.inner.properties.is_host
            l
  unfolding handle_receive
  handle_receive-dispatch prefix r ct m l opened =
      rw (parse_frame-compose_frame prefix r ct, opened) refl
