-- ===== src/Layer/Sending/Effects.antt =====
-- What sending in layer/mod.rs leaves alone.
use openlv_rs.Prelude.{◌≡◌, refl, ap, Option, none, some, arith}
use openlv_rs.Text.{Text}
use openlv_rs.Errors.{map_err, other}
use openlv_rs.Wire.{WirePrefix, handshake, encrypted, WireRecipient}
use openlv_rs.Message.{SignalingMessage}
use openlv_rs.Layer.State.{SignalingInner, Layer, Platform, Repeating, stop_repeating}
use openlv_rs.Layer.Invariant.{Follows, tasks-Follows}
use openlv_rs.Layer.Monad.{continue_with-keeps, on_inner}
use openlv_rs.Layer.Sending.{seal, send_message, send_repeating, repeat_task, repeat_once}

module _ {V : Type 0} (p : Platform V) where
  seal-inner :
      (prefix : WirePrefix) (plaintext : Text) (l : Layer V)
      → (seal p prefix plaintext l).1.inner ≡ l.inner
  unfolding seal
  seal-inner handshake plaintext l = ground arith
  seal-inner encrypted plaintext l = ground arith

  -- Sending a message touches no field of the layer, whether it succeeds or fails.
  pub send_message-inner :
      (prefix : WirePrefix) (recipient : WireRecipient) (message : SignalingMessage V) (l : Layer V)
      → (send_message p prefix recipient message l).1.inner ≡ l.inner
  unfolding send_message
  send_message-inner prefix recipient message l =
      continue_with-keeps (λ l'. l'.inner ≡ l.inner) (map_err other (p.to_json message), l) _ refl
        λ plaintext _.
          continue_with-keeps (λ l'. l'.inner ≡ l.inner) (seal p prefix plaintext l) _
            (seal-inner prefix plaintext l) (λ ciphertext _. seal-inner prefix plaintext l)

  -- Starting to repeat changes the repeating task only.
  pub send_repeating-inner :
      (prefix : WirePrefix) (recipient : WireRecipient) (message : SignalingMessage V) (l : Layer V)
      → (t : Option (Repeating V)) × ((send_repeating p prefix recipient message l).1.inner
          ≡ record l.inner { handshake_task = t })
  unfolding send_repeating stop_repeating
  send_repeating-inner prefix recipient message l =
      continue_with-keeps
        (λ l'. (t : Option (Repeating V)) × (l'.inner ≡ record l.inner { handshake_task = t }))
        (send_message p prefix recipient message (on_inner stop_repeating l)) _ (none, sent)
        (λ _ _.
          (some task, ap (λ (s : SignalingInner V). record s { handshake_task = some task }) sent))
    where
      task : Repeating V
      task = record { prefix = prefix; recipient = recipient; message = message }

      sent :
          (send_message p prefix recipient message (on_inner stop_repeating l)).1.inner
          ≡ record l.inner { handshake_task = none }
      sent = send_message-inner prefix recipient message (on_inner stop_repeating l)

  -- Starting a repeated message.
  pub send_repeating-Follows :
      (first : SignalingInner V) (prefix : WirePrefix) (recipient : WireRecipient)
      (message : SignalingMessage V) (l : Layer V)
      → Follows p.crypto first l.inner
      → Follows p.crypto first (send_repeating p prefix recipient message l).1.inner
  send_repeating-Follows first prefix recipient message l f =
      let (t, e) = send_repeating-inner prefix recipient message l in
      rw e (tasks-Follows p.crypto first l.inner t l.inner.deadline_task f)

  pub send_message-Follows :
      (first : SignalingInner V) (prefix : WirePrefix) (recipient : WireRecipient)
      (message : SignalingMessage V) (l : Layer V)
      → Follows p.crypto first l.inner
      → Follows p.crypto first (send_message p prefix recipient message l).1.inner
  send_message-Follows first prefix recipient message l f =
      rw (send_message-inner prefix recipient message l) f

-- A round of the repeating task sends the task's message.
pub repeat_once_lem :
    {V : Type 0} (p : Platform V) (l : Layer V) {task : Repeating V}
    → l.inner.handshake_task ≡ some task
    → repeat_once p l ≡ (send_message p task.prefix task.recipient task.message l).1
unfolding repeat_once repeat_task
repeat_once_lem p l h = ap (λ task. repeat_task p task l) h
