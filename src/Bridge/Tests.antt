-- ===== src/Bridge/Tests.antt =====
-- Runs of the table of requests: one call, its answer, and the end.
use openlv_rs.Prelude.{ℕ, ◌≡◌, ◌≢◌, refl, Bool, true, [], ◌∷◌, none, some, arith}
use openlv_rs.Text.{Text}
use openlv_rs.Errors.{OpenLvError, session_closed, Result, ok, err}
use openlv_rs.Bridge.Requests.{
  Requests, Answer, Next, new, handle, awaited, next, stop, reply, no_longer_pending,
}
use openlv_rs.Bridge.Requests.Reach.{handled, taken, Reach, here, then}
use openlv_rs.Bridge.Requests.Ending.{stop_ends_all}
use openlv_rs.Bridge.Requests.Answering.{answered_once}

-- JSON that is its own text.
abbrev from_json : Text → Result Text Text
from_json t = ok t

abbrev asked : Requests
asked = (next (handle true (b'a' ∷ []) new).1).1

asked-Reach : Reach new asked
asked-Reach =
    then (then here (handled true (b'a' ∷ []) new)) (taken (handle true (b'a' ∷ []) new).1)

answered_once_example :
    let s' = (reply 0 (ok (b'b' ∷ [])) asked).1 in
    (awaited from_json 0 asked ≡ none)
    × (awaited from_json 0 s' ≡ some (ok (b'b' ∷ [])))
    × ((c : ℕ) → c ≢ 0 → awaited from_json c s' ≡ awaited from_json c asked)
    × ((again : Answer) → reply 0 again s' ≡ (err no_longer_pending, s'))
unfolding reply handle next new
answered_once_example = answered_once from_json 0 (ok (b'b' ∷ [])) asked-Reach (omega arith) refl

abbrev ended : Requests
ended = (handle true (b'c' ∷ []) (stop asked)).1

stop_ends_all_example :
    ((channel : ℕ)
      → (result : Result OpenLvError Text) × (awaited from_json channel ended ≡ some result))
    × ((delivered : Bool) (message : Text)
        → (handle delivered message ended).0 ≡ err session_closed)
    × ((id : ℕ) (answer : Answer) → reply id answer ended ≡ (err no_longer_pending, ended))
    × (next ended ≡ (Next.stopped, ended))
stop_ends_all_example =
    stop_ends_all from_json asked (then here (handled true (b'c' ∷ []) (stop asked)))
