-- ===== src/Session/Running/Sample.antt =====
-- A session for the tests, before it met its peer.
use openlv_rs.Prelude.{[], false, none, refl, sym, true, ℕ, ◌∙◌, ◌∷◌, ◌≡◌, ◌≢◌}
use openlv_rs.Text.{text}
use openlv_rs.Errors.{OpenLvError, err, ok, panic}
use openlv_rs.Sample.{crypto, repeat}
use openlv_rs.Layer.State.{Platform, SignalState, new}
use openlv_rs.Control as Control
use openlv_rs.Transport.Message.{close as close_message}
use openlv_rs.Transport.Webrtc.{Rtc, TransportState, set_state}
use openlv_rs.Session.{
  SessionPlatform, SessionState, on_transport, seal_session, send_session_message,
}
use openlv_rs.Session.Running.{
  Running, say_goodbye, tear_down_transport, finish_close, end_signaling, end_transport, tear_down,
  once, close,
}
use openlv_rs.Layer.Sending as Signaling
use openlv_rs.Transport.Webrtc as Webrtc

abbrev pub rtc : Rtc ℕ ℕ ℕ ℕ
rtc = record {
  build = ok 0;
  create_data_channel = λ pc. (ok 0, pc);
  create_offer = λ pc. (ok 1, pc);
  create_answer = λ pc. (ok 2, pc);
  set_local_description = λ s pc. (ok tt, pc);
  set_remote_description = λ s pc. (ok tt, 1);
  has_remote_description = λ pc. false;
  add_ice_candidate = λ c pc. (ok tt, pc);
  close_connection = λ pc. ok tt;
  send_text = λ payload channel. (ok tt, channel);
  description_to_json = λ s. ok [];
  description_from_json = λ t. ok 3;
  candidate_from_json = λ t. ok 4;
}

abbrev pub session_platform : SessionPlatform ℕ
session_platform = record {
  crypto = crypto;
  to_json = λ m. ok [];
  from_json = λ t. ok close_message;
  random_nonce = λ calls. repeat 12 calls;
}

-- The teardown of the channel fails.
abbrev pub platform : Platform ℕ
platform = record {
  crypto = crypto;
  is_object = λ v. true;
  empty_object = 0;
  to_json = λ m. ok [];
  from_json = λ t. err [];
  now_ms = λ calls. calls;
  random_nonce = λ calls. repeat 12 calls;
  channel_setup = λ calls. ok tt;
  channel_subscribe = λ calls. ok tt;
  channel_publish = λ calls frame. ok tt;
  channel_teardown = λ calls. err OpenLvError.no_connection;
}

abbrev pub waiting : Running ℕ ℕ ℕ ℕ
waiting = record {
  session = record {
    is_host = true;
    status = SessionState.ready;
    error = none;
    peer_closed = false;
    signal_state = SignalState.ready;
    relying_key = none;
    peer_capabilities = none;
    decryption_key = record {
      secret_key = repeat 32 67;
      public_key = repeat 32 67;
      serialized = repeat 32 67;
    };
    transport = record {
      is_host = true;
      state = TransportState.standby;
      peer_connection = none;
      data_channel = none;
      pending_candidates = [];
      unflushed = false;
      events = [];
      states = [];
    };
    control = record {
      closed = false;
      active_handlers = 0;
      tasks = record { id = 0; state = Control.TaskState.running } ∷ [];
      shutdown = false;
      next_id = 1;
    };
    states = [];
    responses = [];
    requests = [];
    handlers = [];
    calls = 0;
  };
  signaling = new (record {
    is_host = true;
    h = repeat 16 b'0';
    handshake_key = none;
    encryption_key = record { public_key = repeat 32 67; serialized = repeat 32 67 };
    decryption_key = record {
      secret_key = repeat 32 67;
      public_key = repeat 32 67;
      serialized = repeat 32 67;
    };
    capabilities = record { transports = text "wrtc" ∷ []; info = none };
  });
  transport_events = false;
  close_result = none;
}

closed-waiting : (close rtc session_platform platform waiting).0 ≡ err OpenLvError.no_connection
unfolding close once tear_down end_transport end_signaling finish_close tear_down_transport
    say_goodbye send_session_message seal_session on_transport Webrtc.teardown Signaling.teardown
closed-waiting = refl

pub ends : (close rtc session_platform platform waiting).0 ≢ panic
ends e = let bad = sym closed-waiting ∙ e in cc
