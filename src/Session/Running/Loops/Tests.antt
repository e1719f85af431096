-- ===== src/Session/Running/Loops/Tests.antt =====
-- A loop that lags before the transport fails.
use openlv_rs.Prelude.{ℕ, ◌≡◌, refl, false, [], ◌∷◌}
use openlv_rs.Transport.Webrtc.{TransportState}
use openlv_rs.Session.{SessionState, on_transport_state, set_status, set_transport_error, set_error}
use openlv_rs.Session.Running.Sample.{rtc, session_platform, waiting}
use openlv_rs.Session.Running.Relay.Sample.{json}
use openlv_rs.Session.Running.Loops.{
  received, lagged, Looping, Turn, transport_states_gave, turn, turns, run_transport_state_loop,
  handle_transport_state,
}

abbrev started : Looping ℕ ℕ ℕ ℕ
started = record { running = waiting; ended = λ l. false }

abbrev connects : Turn ℕ ℕ ℕ ℕ
connects = transport_states_gave (received TransportState.connected)

abbrev fails : Turn ℕ ℕ ℕ ℕ
fails = transport_states_gave (received TransportState.error)

-- A failure of the transport is noticed,
noticed :
    (turns rtc session_platform json (connects ∷ (fails ∷ [])) started).running.session.status
    ≡ SessionState.disconnected
unfolding turns turn run_transport_state_loop handle_transport_state on_transport_state set_status
    set_transport_error set_error
noticed = refl

-- but not behind a lag.
unnoticed :
    (turns rtc session_platform json
      (connects ∷ (transport_states_gave lagged ∷ (fails ∷ [])))
      started).running.session.status
    ≡ SessionState.connected
unfolding turns turn run_transport_state_loop handle_transport_state on_transport_state set_status
unnoticed = refl
