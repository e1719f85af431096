-- ===== src/Bridge/Requests/Ending.antt =====
-- The end of the table of requests: after `stop` nobody waits.
use openlv_rs.Prelude.{ℕ, ◌≡◌, refl, Bool, true, [], some, inl, inr, Option-cases}
use openlv_rs.Text.{Text}
use openlv_rs.Errors.{OpenLvError, session_closed, Result, err, other, map_err, ◌>>=◌}
use openlv_rs.Bridge.Requests.{
  Requests, Answer, Next, answer_of, handle, drop_receiver, drop_pending, awaited, next, stop,
  reply, no_longer_pending,
}
use openlv_rs.Bridge.Requests.Reach.{
  Step, handled, receiver_dropped, pending_dropped, taken, replied, Reach, here, then,
}

pub record IsStopped (s : Requests) : Type 0 where
  pub is_stopped : s.stop ≡ true
  pub none_pending : s.pending ≡ []

Step-IsStopped : {s s' : Requests} → Step s s' → IsStopped s → IsStopped s'
Step-IsStopped (handled delivered message s) i =
    unfold handle in (rw i.is_stopped (record { is_stopped = refl; none_pending = i.none_pending }))
Step-IsStopped (receiver_dropped channel s) i =
    unfold drop_receiver in (record { is_stopped = i.is_stopped; none_pending = i.none_pending })
Step-IsStopped (pending_dropped id s) i =
    unfold drop_pending in
    (record { is_stopped = i.is_stopped; none_pending = rw i.none_pending refl })
Step-IsStopped (taken s) i =
    unfold next in (rw i.is_stopped (record { is_stopped = refl; none_pending = i.none_pending }))
Step-IsStopped (Step.stopped s) i =
    unfold stop in (record { is_stopped = refl; none_pending = refl })
Step-IsStopped (replied id answer s) i =
    unfold reply in (rw i.none_pending (record { is_stopped = i.is_stopped; none_pending = refl }))

Reach-IsStopped : {s s' : Requests} → Reach s s' → IsStopped s → IsStopped s'
Reach-IsStopped here i = i
Reach-IsStopped (then r step) i = Step-IsStopped step (Reach-IsStopped r i)

-- Once the table was stopped, whatever happens after: no call of `handle` waits any more, a new
-- call is refused with the closed session, an answer is refused, and `next` gives nothing.
pub stop_ends_all :
    {V : Type 0} (from_json : Text → Result Text V) (s : Requests) {s' : Requests}
    → Reach (stop s) s'
    → ((channel : ℕ)
        → (result : Result OpenLvError V) × (awaited from_json channel s' ≡ some result))
      × ((delivered : Bool) (message : Text) → (handle delivered message s').0 ≡ err session_closed)
      × ((id : ℕ) (answer : Answer) → reply id answer s' ≡ (err no_longer_pending, s'))
      × (next s' ≡ (Next.stopped, s'))
unfolding awaited handle reply next
stop_ends_all from_json s {s'} r =
    let i =
      Reach-IsStopped r (unfold stop in (record { is_stopped = refl; none_pending = refl })) in
    (
      λ channel. elim (Option-cases (answer_of channel s'.answers)) [
        | inl e ↦ (err session_closed, rw (awaited, e, i.none_pending) refl)
        | inr (answer, e) ↦
            (answer >>= λ text. map_err other (from_json text), rw (awaited, e) refl)
      ],
      λ delivered message. rw i.is_stopped refl,
      λ id answer. rw i.none_pending refl,
      rw i.is_stopped refl,
    )
