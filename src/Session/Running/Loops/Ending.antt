-- ===== src/Session/Running/Loops/Ending.antt =====
-- The ends of the loops of a session in session/mod.rs.
use openlv_rs.Prelude.{
  Bool, true, false, ◌&&◌, ◌||◌, ◌==◌, List, [], ◌∷◌, none, some, if◌then◌else◌,
}
use openlv_rs.Transport.Webrtc.{TransportState}
use openlv_rs.Session.Running.Loops.{
  Loop, index, Receipt, received, Turn, signal_states_gave, signal_messages_gave,
  transport_states_gave, transport_events_gave, other_step,
}

abbrev pub same_loop : Loop → Loop → Bool
same_loop k l = index k == index l

abbrev no_value : {A : Type 0} → Receipt A → Bool
no_value (received a) = false
no_value _ = true

module _ {V P D C : Type 0} where
  -- The turn is one of the loop.
  pub is_of : Loop → Turn V P D C → Bool
  is_of l (signal_states_gave _ _) = same_loop l Loop.signal_state
  is_of l (signal_messages_gave _) = same_loop l Loop.signal_message
  is_of l (transport_states_gave _) = same_loop l Loop.transport_state
  is_of l (transport_events_gave _ _ _ _) = same_loop l Loop.transport_event
  is_of l (other_step _) = false

  -- The turn gives its loop no value, but a lag or the end of the channel; or the transport failed.
  pub is_last : Turn V P D C → Bool
  is_last (signal_states_gave _ r) = no_value r
  is_last (signal_messages_gave r) = no_value r
  is_last (transport_states_gave (received TransportState.error)) = true
  is_last (transport_states_gave r) = no_value r
  is_last (transport_events_gave _ _ _ none) = true
  is_last (transport_events_gave _ _ _ (some _)) = false
  is_last (other_step _) = false

  pub ends : Loop → List (Turn V P D C) → Bool
  ends l [] = false
  ends l (t ∷ ts) = let rest = ends l ts in (is_of l t && is_last t) || rest

  -- The turns that are not of the loop.
  pub without : Loop → List (Turn V P D C) → List (Turn V P D C)
  without l [] = []
  without l (t ∷ ts) = let rest = without l ts in if is_of l t then rest else t ∷ rest
