-- ===== src/Control/Admission.antt =====
-- Laws of control/mod.rs: the permits are counted, and nothing starts after close.
use openlv_rs.Prelude.{ℕ, suc, ◌≤◌, ◌<◌, ◌≡◌, refl, ◌↔◌, true, false, List, [], ◌∷◌, arith, map}
use openlv_rs.Errors.{OpenLvError, session_closed, request_limit_reached, ok, err}
use openlv_rs.Control.{
  SessionControl, Ending, new, spawn, close, wait_for_tasks, admit_handler, drop_permit,
  run_operation, Task, TaskState, abort, ended as ended_task, end_task,
}

-- The control and the permits that are held somewhere.
pub record Held : Type 0 where
  pub control : SessionControl
  pub permits : ℕ

-- A permit is dropped only by a holder.
pub data Step : Held → Held → Type 0 where
  spawned : (h : Held) → Step h (record h { control = (spawn h.control).1 })
  ended : (id : ℕ) (h : Held) → Step h (record h { control = end_task id h.control })
  closed : (h : Held) → Step h (record h { control = close h.control })
  waited : (h : Held) → Step h (record h { control = wait_for_tasks h.control })
  admitted :
      (h : Held)
      → (admit_handler h.control).0 ≡ ok tt
      → Step h (record { control = (admit_handler h.control).1; permits = suc h.permits })
  refused :
      (h : Held) (e : OpenLvError)
      → (admit_handler h.control).0 ≡ err e
      → Step h (record h { control = (admit_handler h.control).1 })
  dropped :
      (c : SessionControl) (n : ℕ)
      → Step
          (record { control = c; permits = suc n })
          (record { control = (drop_permit c).1; permits = n })

pub data Reach (h : Held) : Held → Type 0 where
  here : Reach h h
  next : {h' h'' : Held} → Reach h h' → Step h' h'' → Reach h h''

abbrev pub start : Held
start = record { control = new; permits = 0 }

pub record IsCounted (h : Held) : Type 0 where
  pub counted : h.control.active_handlers ≡ h.permits
  pub bounded : h.control.active_handlers ≤ 256
  pub announced : h.control.shutdown ≡ h.control.closed

Step-IsCounted : {h h' : Held} → Step h h' → IsCounted h → IsCounted h'
Step-IsCounted (spawned h) i = unfold spawn in (ground arith)
Step-IsCounted (ended id h) i = unfold end_task in (ground arith)
Step-IsCounted (closed h) i = unfold close in (ground arith)
Step-IsCounted (waited h) i = unfold wait_for_tasks in (ground arith)
Step-IsCounted (admitted h e) i = unfold admit_handler in (ground arith)
Step-IsCounted (refused h e k) i = unfold admit_handler in (ground arith)
Step-IsCounted (dropped c n) i = unfold drop_permit in (ground arith)

-- In every reachable state the counter is the number of permits held, at most 256, and the
-- shutdown channel says whether the session is closed.
pub Reach-IsCounted : {h : Held} → Reach start h → IsCounted h
Reach-IsCounted here = unfold new in (ground arith)
Reach-IsCounted (next r s) = Step-IsCounted s (Reach-IsCounted r)

-- In every reachable state, dropping a permit that is held never panics, and frees its place.
pub drop_permit_safe :
    {c : SessionControl} {n : ℕ}
    → Reach start (record { control = c; permits = suc n })
    → ((drop_permit c).0 ≡ ok tt) × ((drop_permit c).1.active_handlers ≡ n)
drop_permit_safe {c} {n} r =
    let i = Reach-IsCounted r in (unfold drop_permit in (ground (arith, i)))

-- A handler is admitted exactly when the session is open and fewer than 256 handlers run; a closed
-- session refuses it as closed, and an open one with 256 handlers by the limit.
pub admit_handler_iff :
    (s : SessionControl)
    → (((admit_handler s).0 ≡ ok tt) ↔ ((s.closed ≡ false) × (s.active_handlers < 256)))
      × (((admit_handler s).0 ≡ err session_closed) ↔ (s.closed ≡ true))
      × (((admit_handler s).0 ≡ err request_limit_reached)
          ↔ ((s.closed ≡ false) × (256 ≤ s.active_handlers)))
unfolding admit_handler
admit_handler_iff s = (
  (λ h. (ground arith, ground arith), λ h. ground arith),
  (λ h. ground arith, λ h. ground arith),
  (λ h. (ground arith, ground arith), λ h. ground arith),
)

-- The tasks that were not asked to end.
abbrev pub unasked : List Task → List Task
unasked [] = []
unasked (t ∷ tasks) = elim t.state [ TaskState.running ↦ t ∷ unasked tasks | _ ↦ unasked tasks ]

unasked-abort : (tasks : List Task) → unasked (map abort tasks) ≡ []
unasked-abort [] = refl
unasked-abort (t ∷ tasks) = ground (arith, unasked-abort tasks)

unasked-ended :
    (id : ℕ) (tasks : List Task) → unasked tasks ≡ [] → unasked (map (ended_task id) tasks) ≡ []
unasked-ended id [] h = refl
unasked-ended id (t ∷ tasks) h = ground (arith, unasked-ended id tasks)

-- The session is closed, its observers are told, and every task of it that has not ended was asked
-- to: the runtime destroys it at its next await.
pub record IsShut (c : SessionControl) : Type 0 where
  pub closed : c.closed ≡ true
  pub announced : c.shutdown ≡ true
  pub asked : unasked c.tasks ≡ []

close-IsShut : (c : SessionControl) → c.closed ≡ false → IsShut (close c)
unfolding close
close-IsShut c h = rw h (record { closed = refl; announced = refl; asked = unasked-abort c.tasks })

Step-IsShut : {h h' : Held} → Step h h' → IsShut h.control → IsShut h'.control
Step-IsShut (spawned h) i = unfold spawn in (ground arith)
Step-IsShut (ended id h) i =
    unfold end_task in
    (record {
      closed = i.closed;
      announced = i.announced;
      asked = unasked-ended id h.control.tasks i.asked;
    })
Step-IsShut (closed h) i = unfold close in (ground arith)
Step-IsShut (waited h) i =
    unfold wait_for_tasks in (record { closed = i.closed; announced = i.announced; asked = refl })
Step-IsShut (admitted h e) i = unfold admit_handler in (ground arith)
Step-IsShut (refused h e k) i = unfold admit_handler in (ground arith)
Step-IsShut (dropped c n) i = unfold drop_permit in (ground arith)

Reach-IsShut : {h h' : Held} → IsShut h.control → Reach h h' → IsShut h'.control
Reach-IsShut i here = i
Reach-IsShut i (next r s) = Step-IsShut s (Reach-IsShut i r)

-- A closed session that has no task gets none.
Step-taskless :
    {h h' : Held} → Step h h' → IsShut h.control → h.control.tasks ≡ [] → h'.control.tasks ≡ []
Step-taskless (spawned h) i e = unfold spawn in (ground arith)
Step-taskless (ended id h) i e = unfold end_task in (rw e refl)
Step-taskless (closed h) i e = unfold close in (ground arith)
Step-taskless (waited h) i e = unfold wait_for_tasks in refl
Step-taskless (admitted h _) i e = unfold admit_handler in (ground arith)
Step-taskless (refused h _ k) i e = unfold admit_handler in (ground arith)
Step-taskless (dropped c n) i e = unfold drop_permit in (ground arith)

Reach-taskless :
    {h h' : Held} → IsShut h.control → h.control.tasks ≡ [] → Reach h h' → h'.control.tasks ≡ []
Reach-taskless i e here = e
Reach-taskless i e (next r s) = Step-taskless s (Reach-IsShut i r) (Reach-taskless i e r)

-- After close, whatever happens next, every task that has not ended was asked to end, the observers
-- are told, and every spawn, operation and admission fails with "session is closed" and changes
-- nothing. Once a wait for the tasks has returned, no task is left, whatever happens after it.
pub IsShut-for_good :
    {A : Type 0} (c : SessionControl) (n : ℕ) {h h' : Held} (ending : Ending A)
    → c.closed ≡ false
    → Reach (record { control = close c; permits = n }) h
    → Reach (record h { control = wait_for_tasks h.control }) h'
    → IsShut h.control
      × (spawn h.control ≡ (err session_closed, h.control))
      × (run_operation h.control ending ≡ (err session_closed, h.control))
      × (admit_handler h.control ≡ (err session_closed, h.control))
      × IsShut h'.control
      × (h'.control.tasks ≡ [])
unfolding spawn run_operation admit_handler
IsShut-for_good c n {h} ending fresh r later =
    let i = Reach-IsShut (close-IsShut c fresh) r in
    let i' = Step-IsShut (waited h) i in
    (
      i,
      rw i.closed refl,
      rw i.closed refl,
      rw i.closed refl,
      Reach-IsShut i' later,
      Reach-taskless i' (unfold wait_for_tasks in refl) later,
    )
