-- ===== src/Bridge/Requests/Answering.antt =====
-- The answers of the native handlers: each reaches the call that it is for, once.
use openlv_rs.Prelude.{
  ℕ, ◌^◌, ◌≤◌, ◌≡◌, ◌≢◌, refl, true, none, some, arith, inl, inr, Option-cases, Bool-cases, ◌==◌,
  ==_iff, All,
}
use openlv_rs.Text.{Text}
use openlv_rs.Errors.{Result, ok, err, other, map_err, ◌>>=◌}
use openlv_rs.Bridge.Requests.{
  Requests, Answer, new, find_entry, answer_of, awaited, reply, no_longer_pending,
}
use openlv_rs.Bridge.Requests.Reach.{Reach}
use openlv_rs.Bridge.Requests.Lookups.{
  find_entry-remove, find_entry-All, holds_channel-found, holds_channel-remove,
}
use openlv_rs.Bridge.Requests.Tracking.{
  IsTracked, reply-missing, replied_to, reply-eq-ok, Reach-IsTracked, own_ids,
}

-- The call of the entry with an id: its channel is the id, and it has no answer yet.
own_call :
    (id c : ℕ) (s : Requests)
    → IsTracked s
    → s.calls ≤ 2 ^ 64
    → find_entry id s.pending ≡ some c
    → (c ≡ id) × (answer_of c s.answers ≡ none)
own_call id c s i bound h =
    let (e, named, same, (ids, below, free)) = find_entry-All id c s.pending i.entries h in
    (omega (arith, named, same, ids, below, bound), rw same at free)

module _ {V : Type 0} (from_json : Text → Result Text V) where
  replied_to-awaited :
      (id c : ℕ) (answer : Answer) (s : Requests)
      → c ≢ id
      → All (λ e. e.id ≡ e.channel) s.pending
      → awaited from_json c (replied_to id id answer s) ≡ awaited from_json c s
  unfolding awaited
  replied_to-awaited id c answer s n own = elim (Bool-cases (id == c)) [
    | inl k ↦ absurd (n (ground arith))
    | inr k ↦ elim (Option-cases (answer_of c s.answers)) [
      | inl f ↦ rw (awaited, k, f, holds_channel-remove c id s.pending n own) refl
      | inr (a, f) ↦ rw (awaited, k, f) refl
    ]
  ]

  -- A reply that succeeds, in any reachable state after at most 2^64 calls: the call with that id
  -- was waiting, and now it returns what the answer stands for; the other calls wait or return as
  -- before; and a second answer for the id is refused and changes nothing.
  pub answered_once :
      (id : ℕ) (answer : Answer) {s : Requests}
      → Reach new s
      → s.calls ≤ 2 ^ 64
      → (reply id answer s).0 ≡ ok tt
      → let s' = (reply id answer s).1 in
        (awaited from_json id s ≡ none)
        × (awaited from_json id s' ≡ some (answer >>= λ text. map_err other (from_json text)))
        × ((c : ℕ) → c ≢ id → awaited from_json c s' ≡ awaited from_json c s)
        × ((again : Answer) → reply id again s' ≡ (err no_longer_pending, s'))
  unfolding awaited
  answered_once id answer {s} r bound done =
      let i = Reach-IsTracked r in
      let (c, h, e) = reply-eq-ok id answer s done in
      let (named, free) = own_call id c s i bound h in
      let here_same : (id == id) ≡ true = (==_iff id id).1 refl in
      let still = holds_channel-found id id s.pending (rw named at h) in
      rw (e, named)
        (
          rw (awaited, rw named at free, still) refl,
          rw (awaited, here_same) refl,
          λ c' n. replied_to-awaited id c' answer s n (own_ids s i bound),
          λ again.
              reply-missing id again (replied_to id id answer s) (find_entry-remove id s.pending),
        )
