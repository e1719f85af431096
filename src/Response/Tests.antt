-- ===== src/Response/Tests.antt =====
-- Runs of the wait for a response.
use openlv_rs.Prelude.{ℕ, ◌≡◌, refl, [], ◌∷◌, ◌++◌, some, arith}
use openlv_rs.Text.{Text, bytes_eq}
use openlv_rs.Errors.{OpenLvError, Result, ok}
use openlv_rs.Transport.Message.{response, ack, unknown}
use openlv_rs.Response.{Round, message, start_loop, round, on_received, wait_loop, receive_response}
use openlv_rs.Response.Deadlines.{wait_ends}

abbrev mine : Text
mine = b'm' ∷ []

abbrev acknowledged : Round ℕ
acknowledged = record { now = 10; received = message (ack mine); later = 11 }

abbrev foreign : Round ℕ
foreign = record { now = 20; received = message (response [] 4); later = 21 }

abbrev answered : Round ℕ
answered = record { now = 30; received = message (response mine 5); later = 31 }

answered_run :
    receive_response 1000000 mine 3600 100 0 (acknowledged ∷ (foreign ∷ (answered ∷ [])))
    ≡ some (ok 5)
unfolding receive_response start_loop wait_loop round on_received bytes_eq
answered_run = refl

-- An acknowledgement of another request, long after.
abbrev foreign_ack : Round ℕ
foreign_ack = record { now = 3000; received = message (ack []); later = 3000 }

abbrev last_look : Round ℕ
last_look = record { now = 5000; received = message unknown; later = 5000 }

wait_ends_example :
    (result : Result OpenLvError ℕ) × (receive_response 1000000 mine 3600 100 0
        ((foreign ∷ (acknowledged ∷ (foreign_ack ∷ []))) ++ last_look ∷ [])
      ≡ some result)
unfolding bytes_eq
wait_ends_example =
    wait_ends 1000000 mine 3600 100 0 (foreign ∷ (acknowledged ∷ (foreign_ack ∷ []))) last_look []
      (ground arith)
