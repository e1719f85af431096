-- ===== src/Session/Running/Loops.antt =====
-- The four loops that `start_event_loops` spawns in session/mod.rs, as tasks that take turns: what a
-- receiver gives is one turn of its loop, and the turns of different loops and the other steps of
-- the session come in any order.
pub mod Ending
mod Tests
use openlv_rs.Prelude.{ℕ, Bool, ◌||◌, ◌==◌, List, [], ◌∷◌, Option, none, some, if◌then◌else◌}
use openlv_rs.Text.{Text}
use openlv_rs.Layer.State.{Platform, SignalState}
use openlv_rs.Transport.Webrtc.{Rtc, TransportEvent, TransportState}
use openlv_rs.Session.{SessionPlatform, on_signal_state, on_transport_state}
use openlv_rs.Session.Running.{Running, on_session}
use openlv_rs.Session.Running.Relay.{ValueJson, on_signal_message, on_transport_event}

pub data Loop : Type 0 where
  signal_state signal_message transport_state transport_event : Loop

abbrev pub index : Loop → ℕ
index Loop.signal_state = 0
index Loop.signal_message = 1
index Loop.transport_state = 2
index Loop.transport_event = 3

-- The result of `recv` of a broadcast receiver: a value, or that values were lost, or the end.
pub data Receipt (A : Type 0) : Type 0 where
  received : A → Receipt A
  lagged channel_closed : Receipt A

-- A session and which of its loops have ended.
pub record Looping (V P D C : Type 0) : Type 0 where
  pub running : Running V P D C
  pub ended : Loop → Bool

module _ {V P D C : Type 0} where
  abbrev pub end_loop : Loop → Looping V P D C → Looping V P D C
  end_loop l s = record s { ended = λ k. (index k == index l) || s.ended k }

  abbrev pub handled : (Running V P D C → Running V P D C) → Looping V P D C → Looping V P D C
  handled f s = record s { running = f s.running }

  -- `while let Ok(a) = rx.recv().await { … }`: anything but a value ends the loop.
  abbrev while_received :
      {A : Type 0}
      → Loop
      → (A → Looping V P D C → Looping V P D C)
      → Receipt A
      → Looping V P D C
      → Looping V P D C
  while_received l f (received a) s = f a s
  while_received l f _ s = end_loop l s

  -- The loop returns at an error.
  handle_transport_state : TransportState → Looping V P D C → Looping V P D C
  handle_transport_state TransportState.error s =
      end_loop Loop.transport_state
        (handled (on_session (on_transport_state TransportState.error)) s)
  handle_transport_state state s = handled (on_session (on_transport_state state)) s

  unfoldable pub run_transport_state_loop :
      Receipt TransportState → Looping V P D C → Looping V P D C
  unfolding handle_transport_state
  run_transport_state_loop r s = while_received Loop.transport_state handle_transport_state r s

  module _ {S : Type 0} (rtc : Rtc P D S C) (p : SessionPlatform V) (json : ValueJson V) where
    -- The text is what an error of the transport's setup says.
    unfoldable pub run_signal_state_loop :
        Text → Receipt SignalState → Looping V P D C → Looping V P D C
    run_signal_state_loop reason r s =
        while_received Loop.signal_state
          (λ state. handled (on_session (on_signal_state rtc p reason state))) r s

    unfoldable pub run_signal_message_loop : Receipt V → Looping V P D C → Looping V P D C
    run_signal_message_loop r s =
        while_received Loop.signal_message
          (λ payload. handled (on_session (on_signal_message rtc p json payload))) r s

    -- An mpsc receiver loses nothing. The text is the identifier that is drawn.
    unfoldable pub run_transport_event_loop :
        Platform V → Bool → Text → Option TransportEvent → Looping V P D C → Looping V P D C
    run_transport_event_loop platform subscribed message_id none s = end_loop Loop.transport_event s
    run_transport_event_loop platform subscribed message_id (some event) s =
        handled (on_transport_event rtc p json platform subscribed message_id event) s

-- What happens next: a receipt of one of the loops, or another step of the session.
pub data Turn (V P D C : Type 0) : Type 0 where
  signal_states_gave : Text → Receipt SignalState → Turn V P D C
  signal_messages_gave : Receipt V → Turn V P D C
  transport_states_gave : Receipt TransportState → Turn V P D C
  transport_events_gave : Platform V → Bool → Text → Option TransportEvent → Turn V P D C
  other_step : (Running V P D C → Running V P D C) → Turn V P D C

module _ {V P D C : Type 0} where
  -- A loop that has ended takes no turn.
  abbrev pub unless_ended :
      Loop → (Looping V P D C → Looping V P D C) → Looping V P D C → Looping V P D C
  unless_ended l f s = if s.ended l then s else f s

  module _ {S : Type 0} (rtc : Rtc P D S C) (p : SessionPlatform V) (json : ValueJson V) where
    unfoldable pub turn : Turn V P D C → Looping V P D C → Looping V P D C
    turn (signal_states_gave reason r) s =
        unless_ended Loop.signal_state (run_signal_state_loop rtc p json reason r) s
    turn (signal_messages_gave r) s =
        unless_ended Loop.signal_message (run_signal_message_loop rtc p json r) s
    turn (transport_states_gave r) s =
        unless_ended Loop.transport_state (run_transport_state_loop r) s
    turn (transport_events_gave platform subscribed message_id event) s =
        unless_ended Loop.transport_event
          (run_transport_event_loop rtc p json platform subscribed message_id event) s
    turn (other_step f) s = handled f s

    unfoldable pub turns : List (Turn V P D C) → Looping V P D C → Looping V P D C
    turns [] s = s
    turns (t ∷ ts) s = turns ts (turn t s)
