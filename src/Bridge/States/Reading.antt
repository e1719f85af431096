-- ===== src/Bridge/States/Reading.antt =====
-- The states that the calls of `next_state` give.
use openlv_rs.Prelude.{ℕ, zero, suc, ◌≡◌, refl, ap, ◌≤◌, List, [], ◌∷◌, some, arith, length, map}
use openlv_rs.Text.{Text}
use openlv_rs.Session.{SessionStateObject}
use openlv_rs.Bridge.States.{
  JsonText, StateRound, session_closed, lagged, channel_closed, received, state_json, next_state,
}

-- The states that come before the end.
pub received_states : List StateRound → List SessionStateObject
received_states [] = []
received_states (session_closed ∷ rounds) = []
received_states (received state ∷ rounds) = state ∷ received_states rounds
received_states (lagged ∷ rounds) = received_states rounds
received_states (channel_closed ∷ rounds) = []

module _ {V : Type 0} (w : JsonText V) where
  -- A native reader that asks again and again, until there is no state.
  pub states_read : ℕ → List StateRound → List Text
  states_read zero rounds = []
  states_read (suc n) rounds =
      let (result, rest) = next_state w rounds in
      elim result [ some (some state) ↦ state ∷ states_read n rest | _ ↦ [] ]

  -- Calls, as many as there are turns of the loop, read exactly the states that come before the
  -- session or its channel is closed, each once and in order; a lag loses no state that the receiver
  -- still gives.
  pub states_read_lem :
      (n : ℕ) (rounds : List StateRound)
      → length rounds ≤ n
      → states_read n rounds ≡ map (λ s. state_json w s) (received_states rounds)
  unfolding states_read received_states next_state
  states_read_lem zero [] h = refl
  states_read_lem zero (r ∷ rounds) h = elim h [ ]
  states_read_lem (suc n) [] h = refl
  states_read_lem (suc n) (session_closed ∷ rounds) h = refl
  states_read_lem (suc n) (channel_closed ∷ rounds) h = refl
  states_read_lem (suc n) (received state ∷ rounds) h =
      ap (λ states. state_json w state ∷ states) (states_read_lem n rounds (omega arith))
  states_read_lem (suc n) (lagged ∷ rounds) h = states_read_lem (suc n) rounds (omega arith)
