-- ===== src/Bridge/Requests/Tracking.antt =====
-- Which call a pending request belongs to, in every reachable state.
use openlv_rs.Prelude.{
  ℕ, suc, ◌+◌, ◌%◌, ◌^◌, ◌≤◌, ◌<◌, ◌≡◌, refl, Bool, List, ◌∷◌, none, some, arith, inl, inr,
  Option-cases, Bool-cases, ◌==◌, All,
}
use openlv_rs.Text.{Text}
use openlv_rs.Errors.{ok, err}
use openlv_rs.Bridge.Requests.{
  Requests, Entry, Answer, new, find_entry, remove, insert, is_member, answer_of, handle,
  drop_receiver, drop_pending, next, stop, reply, no_longer_pending,
}
use openlv_rs.Bridge.Requests.Reach.{
  Step, handled, receiver_dropped, pending_dropped, taken, stopped, replied, Reach, here, then,
}
use openlv_rs.Bridge.Requests.Lookups.{All-remove, All-map_lem, find_entry-All, answer_of-new}

abbrev pub IsEntry : ℕ → List (ℕ × Answer) → Entry → Type 0
IsEntry calls answers e =
    (e.id ≡ e.channel % 2 ^ 64) × (e.channel < calls) × (answer_of e.channel answers ≡ none)

-- The ids count the calls modulo 2^64, and the channel of a pending call has no answer.
pub record IsTracked (s : Requests) : Type 0 where
  pub ids : s.next_id ≡ s.calls % 2 ^ 64
  pub entries : All (IsEntry s.calls s.answers) s.pending
  pub answered : All (λ a. a.0 < s.calls) s.answers

new-IsTracked : IsTracked new
unfolding new
new-IsTracked = record { ids = refl; entries = tt; answered = tt }

later :
    (calls : ℕ) (answers : List (ℕ × Answer)) (es : List Entry)
    → All (IsEntry calls answers) es
    → All (IsEntry (suc calls) answers) es
later calls answers es = All-map_lem es (λ e (i, b, a). (i, omega (arith, b), a))

handle-IsTracked :
    (delivered : Bool) (message : Text) (s : Requests)
    → IsTracked s
    → IsTracked (handle delivered message s).1
unfolding handle
handle-IsTracked delivered message s i =
    let older = later s.calls s.answers s.pending i.entries in
    let answered' =
      All-map_lem {Q = λ a. a.0 < suc s.calls} s.answers (λ a b. omega (arith, b)) i.answered in
    let ids' : (s.next_id + 1) % 2 ^ 64 ≡ suc s.calls % 2 ^ 64 = omega (arith, i.ids) in
    let first : IsEntry (suc s.calls) s.answers (record { id = s.next_id; channel = s.calls }) =
      (i.ids, omega arith, answer_of-new s.calls s.answers i.answered) in
    let rest = All-remove s.next_id s.pending (λ e n p. p) older in
    elim (Bool-cases s.stop) [
      | inl h ↦ rw h (record { ids = ids'; entries = older; answered = answered' })
      | inr h ↦ elim (Bool-cases delivered) [
        | inl d ↦ rw (h, d) (record { ids = ids'; entries = (first, rest); answered = answered' })
        | inr d ↦
            rw (h, d)
              (record {
                ids = ids';
                entries =
                    All-remove s.next_id (insert s.next_id s.calls s.pending) (λ e n p. p)
                      (first, rest);
                answered = answered';
              })
      ]
    ]

next-IsTracked : (s : Requests) → IsTracked s → IsTracked (next s).1
unfolding next
next-IsTracked s i = elim (Bool-cases s.stop) [
  | inl h ↦ rw h (record { ids = i.ids; entries = i.entries; answered = i.answered })
  | inr h ↦ rw h (record { ids = i.ids; entries = i.entries; answered = i.answered })
]

answered_other :
    (id c : ℕ) (answer : Answer) (s : Requests)
    → IsTracked s
    → find_entry id s.pending ≡ some c
    → All (IsEntry s.calls ((c, answer) ∷ s.answers)) (remove id s.pending) × (c < s.calls)
answered_other id c answer s i found =
    let (e, named, at, (ids, below, free)) = find_entry-All id c s.pending i.entries found in
    (
      All-remove id s.pending
          (λ e' other_id (ids', below', free'). (
            ids',
            below',
            elim (Bool-cases (c == e'.channel)) [
              | inl h ↦ absurd (other_id (ground arith))
              | inr h ↦ rw h free'
            ],
          ))
          i.entries,
      omega (arith, below, at),
    )

pub reply-missing :
    (id : ℕ) (answer : Answer) (s : Requests)
    → find_entry id s.pending ≡ none
    → reply id answer s ≡ (err no_longer_pending, s)
unfolding reply
reply-missing id answer s h = rw (reply, h) refl

abbrev pub replied_to : ℕ → ℕ → Answer → Requests → Requests
replied_to id c answer s = record s {
  pending = remove id s.pending;
  answers = (c, answer) ∷ s.answers;
}

-- A reply that succeeds found the entry, and its receiver.
pub reply-eq-ok :
    (id : ℕ) (answer : Answer) (s : Requests)
    → (reply id answer s).0 ≡ ok tt
    → (c : ℕ) × (find_entry id s.pending ≡ some c)
      × ((reply id answer s).1 ≡ replied_to id c answer s)
unfolding reply
reply-eq-ok id answer s done = elim (Option-cases (find_entry id s.pending)) [
  | inl h ↦ let bad = rw (reply, h) at done in cc
  | inr (c, h) ↦ elim (Bool-cases (is_member c s.receivers)) [
    | inl m ↦ (c, h, rw (reply, h, m) refl)
    | inr m ↦ let bad = rw (reply, h, m) at done in cc
  ]
]

reply-IsTracked :
    (id : ℕ) (answer : Answer) (s : Requests) → IsTracked s → IsTracked (reply id answer s).1
unfolding reply
reply-IsTracked id answer s i = elim (Option-cases (find_entry id s.pending)) [
  | inl h ↦ rw (reply, h) (record { ids = i.ids; entries = i.entries; answered = i.answered })
  | inr (c, h) ↦
      let (others, below) = answered_other id c answer s i h in
      elim (Bool-cases (is_member c s.receivers)) [
        | inl m ↦
            rw (reply, h, m)
              (record { ids = i.ids; entries = others; answered = (below, i.answered) })
        | inr m ↦
            rw (reply, h, m)
              (record {
                ids = i.ids;
                entries = All-remove id s.pending (λ e n p. p) i.entries;
                answered = i.answered;
              })
      ]
]

Step-IsTracked : {s s' : Requests} → Step s s' → IsTracked s → IsTracked s'
Step-IsTracked (handled delivered message s) i = handle-IsTracked delivered message s i
Step-IsTracked (receiver_dropped channel s) i =
    unfold drop_receiver in (record { ids = i.ids; entries = i.entries; answered = i.answered })
Step-IsTracked (pending_dropped id s) i =
    unfold drop_pending in
    (record {
      ids = i.ids;
      entries = All-remove id s.pending (λ e n p. p) i.entries;
      answered = i.answered;
    })
Step-IsTracked (taken s) i = next-IsTracked s i
Step-IsTracked (stopped s) i =
    unfold stop in (record { ids = i.ids; entries = tt; answered = i.answered })
Step-IsTracked (replied id answer s) i = reply-IsTracked id answer s i

pub Reach-IsTracked : {s : Requests} → Reach new s → IsTracked s
Reach-IsTracked here = new-IsTracked
Reach-IsTracked (then r step) = Step-IsTracked step (Reach-IsTracked r)

pub own_ids :
    (s : Requests) → IsTracked s → s.calls ≤ 2 ^ 64 → All (λ e. e.id ≡ e.channel) s.pending
own_ids s i bound =
    All-map_lem s.pending (λ e (ids, below, free). omega (arith, ids, below, bound)) i.entries
