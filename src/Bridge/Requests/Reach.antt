-- ===== src/Bridge/Requests/Reach.antt =====
-- Every life of the table of requests: calls, answers and cancellations in any order.
use openlv_rs.Prelude.{ℕ, Bool}
use openlv_rs.Text.{Text}
use openlv_rs.Bridge.Requests.{
  Requests, Answer, handle, drop_receiver, drop_pending, next, stop, reply,
}

-- `fail` is a `reply`.
pub data Step : Requests → Requests → Type 0 where
  handled :
      (delivered : Bool) (message : Text) (s : Requests) → Step s (handle delivered message s).1
  receiver_dropped : (channel : ℕ) (s : Requests) → Step s (drop_receiver channel s)
  pending_dropped : (id : ℕ) (s : Requests) → Step s (drop_pending id s)
  taken : (s : Requests) → Step s (next s).1
  stopped : (s : Requests) → Step s (stop s)
  replied : (id : ℕ) (answer : Answer) (s : Requests) → Step s (reply id answer s).1

pub data Reach (s : Requests) : Requests → Type 0 where
  here : Reach s s
  then : {s' s'' : Requests} → Reach s s' → Step s' s'' → Reach s s''
