-- ===== src/Control/Tests.antt =====
-- Runs of the control of a session.
use openlv_rs.Prelude.{ℕ, ◌<◌, ◌≤◌, ◌≡◌, refl, ◌↔◌, true, false, []}
use openlv_rs.Errors.{session_closed, request_limit_reached, ok, err}
use openlv_rs.Control.{
  Ending, destroyed, new, spawn, close, admit_handler, run_operation, wait_for_tasks,
}
use openlv_rs.Control.Admission.{
  Reach, here, next, admitted, start, IsCounted, IsShut, Reach-IsCounted, admit_handler_iff,
  IsShut-for_good,
}

first_admitted : (admit_handler new).0 ≡ ok tt
unfolding admit_handler new
first_admitted = refl

one_running : Reach start (record { control = (admit_handler new).1; permits = 1 })
one_running = next here (admitted start first_admitted)

Reach-IsCounted_example : IsCounted (record { control = (admit_handler new).1; permits = 1 })
Reach-IsCounted_example = Reach-IsCounted one_running

admit_handler_iff_example :
    (((admit_handler new).0 ≡ ok tt) ↔ ((new.closed ≡ false) × (new.active_handlers < 256)))
    × (((admit_handler new).0 ≡ err session_closed) ↔ (new.closed ≡ true))
    × (((admit_handler new).0 ≡ err request_limit_reached)
        ↔ ((new.closed ≡ false) × (256 ≤ new.active_handlers)))
admit_handler_iff_example = admit_handler_iff new

abbrev gone : Ending ℕ
gone = destroyed

fresh : (spawn new).1.closed ≡ false
unfolding new spawn
fresh = refl

IsShut-for_good_example :
    IsShut (close (spawn new).1)
    × (spawn (close (spawn new).1) ≡ (err session_closed, close (spawn new).1))
    × (run_operation (close (spawn new).1) gone ≡ (err session_closed, close (spawn new).1))
    × (admit_handler (close (spawn new).1) ≡ (err session_closed, close (spawn new).1))
    × IsShut (wait_for_tasks (close (spawn new).1))
    × ((wait_for_tasks (close (spawn new).1)).tasks ≡ [])
IsShut-for_good_example = IsShut-for_good (spawn new).1 0 gone fresh here here
