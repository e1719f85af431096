-- ===== src/Bridge/Requests.antt =====
-- `Requests` of crates/openlv-ffi/src/lib.rs: the peer's requests that wait for a native handler.
-- The lock on the map makes each method one step. A call of `handle` is named by its number, which
-- also names its oneshot channel; its id is the number modulo 2^64.
pub mod Reach
pub mod Lookups
pub mod Tracking
pub mod Ending
pub mod Answering
use openlv_rs.Prelude.{
  ℕ, suc, ◌+◌, ◌%◌, ◌^◌, Bool, true, false, not, List, [], ◌∷◌, ◌++◌, Option, none, some, is_some,
  ◌==◌, if◌then◌else◌,
}
use openlv_rs.Text.{Text, text}
use openlv_rs.Errors.{OpenLvError, session_closed, other, Result, ok, err, panic, map_err, ◌>>=◌}
use openlv_rs.Bridge.{BridgeError, failure}

-- What the native handler gave.
abbrev pub Answer : Type 0
Answer = Result OpenLvError Text

pub record Request : Type 0 where
  pub id : ℕ
  pub message : Text

-- An entry of the map `pending`: the id, and the channel of the stored sender.
pub record Entry : Type 0 where
  pub id : ℕ
  pub channel : ℕ

-- `queue` holds what was sent and not yet received. `receivers` are the channels whose receiver
-- still lives, and `answers` what was sent on a channel, newest first.
pub record Requests : Type 0 where
  pub next_id : ℕ
  pub pending : List Entry
  pub queue : List Request
  pub stop : Bool
  pub calls : ℕ
  pub receivers : List ℕ
  pub answers : List (ℕ × Answer)

unfoldable pub new : Requests
new = record {
  next_id = 0;
  pending = [];
  queue = [];
  stop = false;
  calls = 0;
  receivers = [];
  answers = [];
}

-- `get`, `remove` and `insert` of the map.
abbrev pub find_entry : ℕ → List Entry → Option ℕ
find_entry id [] = none
find_entry id (e ∷ entries) = if e.id == id then some e.channel else find_entry id entries

abbrev pub remove : ℕ → List Entry → List Entry
remove id [] = []
remove id (e ∷ entries) = let rest = remove id entries in if e.id == id then rest else e ∷ rest

abbrev pub insert : ℕ → ℕ → List Entry → List Entry
insert id channel entries = record { id = id; channel = channel } ∷ remove id entries

abbrev pub is_member : ℕ → List ℕ → Bool
is_member c [] = false
is_member c (x ∷ xs) = if x == c then true else is_member c xs

abbrev pub without : ℕ → List ℕ → List ℕ
without c [] = []
without c (x ∷ xs) = let rest = without c xs in if x == c then rest else x ∷ rest

abbrev pub answer_of : ℕ → List (ℕ × Answer) → Option Answer
answer_of c [] = none
answer_of c ((x, answer) ∷ answers) = if x == c then some answer else answer_of c answers

abbrev pub holds_channel : ℕ → List Entry → Bool
holds_channel c [] = false
holds_channel c (e ∷ entries) = if e.channel == c then true else holds_channel c entries

-- `handle` up to the wait: `delivered` says whether the send into the queue succeeds. The result
-- is the id of the call.
unfoldable pub handle : Bool → Text → Requests → Result OpenLvError ℕ × Requests
handle delivered message s =
    let id = s.next_id in
    let s' = record s { next_id = (s.next_id + 1) % 2 ^ 64; calls = suc s.calls } in
    if s.stop
    then (err session_closed, s')
    else if delivered
    then (
      ok id,
      record s' {
        pending = insert id s.calls s.pending;
        receivers = s.calls ∷ s.receivers;
        queue = s.queue ++ record { id = id; message = message } ∷ [];
      },
    )
    else (err session_closed, record s' { pending = remove id (insert id s.calls s.pending) })

-- The end of the wait destroys the receiver of its channel, then `PendingRequest::drop` removes
-- the entry of the id.
unfoldable pub drop_receiver : ℕ → Requests → Requests
drop_receiver channel s = record s { receivers = without channel s.receivers }

unfoldable pub drop_pending : ℕ → Requests → Requests
drop_pending id s = record s { pending = remove id s.pending }

-- What `handle` returns: nothing while the sender of its channel is stored and no answer was sent.
unfoldable pub awaited :
    {V : Type 0} → (Text → Result Text V) → ℕ → Requests → Option (Result OpenLvError V)
awaited from_json channel s = elim (answer_of channel s.answers) [
  | some answer ↦ some (answer >>= λ reply. map_err other (from_json reply))
  | none ↦ if holds_channel channel s.pending then none else some (err session_closed)
]

pub data Next : Type 0 where
  stopped waits : Next
  request : Request → Next

-- The loop of `next` on the requests that were sent: one whose id is not pending is skipped. The
-- sender lives as long as `Requests`, so the queue is never closed.
unfoldable pub next_loop : Requests → List Request → Next × List Request
next_loop s [] = (waits, [])
next_loop s (r ∷ queue) =
    let rest = next_loop s queue in
    if is_some (find_entry r.id s.pending) then (request r, queue) else rest

unfoldable pub next : Requests → Next × Requests
unfolding next_loop
next s =
    if s.stop
    then (stopped, s)
    else (let (found, queue) = next_loop s s.queue in (found, record s { queue = queue }))

unfoldable pub stop : Requests → Requests
stop s = record s { stop = true; pending = [] }

unfoldable pub no_longer_pending : BridgeError
no_longer_pending = failure (text "session") (text "Request is no longer pending")

-- The sender is taken from the map; the send fails where its receiver is gone.
unfoldable pub reply : ℕ → Answer → Requests → Result BridgeError (Unit {0}) × Requests
unfolding no_longer_pending
reply id answer s = elim (find_entry id s.pending) [
  | none ↦ (err no_longer_pending, s)
  | some channel ↦
      let s' = record s { pending = remove id s.pending } in
      if is_member channel s.receivers
      then (ok tt, record s' { answers = (channel, answer) ∷ s.answers })
      else (err no_longer_pending, s')
]

unfoldable pub fail : ℕ → Requests → Result BridgeError (Unit {0}) × Requests
unfolding reply
fail id s = reply id (err (other (text "native request handler failed"))) s
