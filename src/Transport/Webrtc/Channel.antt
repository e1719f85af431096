-- ===== src/Transport/Webrtc/Channel.antt =====
-- The data channel and the shutdown of webrtc.rs.
use openlv_rs.Prelude.{
  ◌≡◌, refl, ◌≢◌, true, false, List, [], ◌∷◌, ◌++◌, none, some, arith, Option-cases, Bool-cases,
  inl, inr,
}
use openlv_rs.Text.{Text, text}
use openlv_rs.Errors.{OpenLvError, transport, Result, ok, err, panic}
use openlv_rs.Transport.Message.{TransportNegotiationMessage}
use openlv_rs.Transport.Webrtc.{
  Rtc, TransportLayer, TransportState, DataChannelEvent, on_open, on_message,
  on_buffered_amount_low, on_close, on_other, is_connected, set_state, on_channel_event,
  poll_channel, finish_teardown, close_result, teardown, sent, send, handle,
}

is_connected-true : (s : TransportState) → is_connected s ≡ true → s ≡ TransportState.connected
is_connected-true TransportState.connected h = refl
is_connected-true s h = absurd (ground arith)

module _ {P D S C : Type 0} (rtc : Rtc P D S C) where
  -- With the close of the channel its loop ends: what comes behind is not read, the transport is in
  -- error, and nothing waits to be flushed.
  poll_channel-close :
      (before after : List DataChannelEvent) (l : TransportLayer P D C)
      → (poll_channel rtc (before ++ on_close ∷ after) l
          ≡ poll_channel rtc (before ++ on_close ∷ []) l)
        × ((poll_channel rtc (before ++ on_close ∷ after) l).state ≡ TransportState.error)
        × ((poll_channel rtc (before ++ on_close ∷ after) l).unflushed ≡ false)
  unfolding poll_channel on_channel_event set_state
  poll_channel-close [] after l = (refl, refl, refl)
  poll_channel-close (on_close ∷ before) after l = (refl, refl, refl)
  poll_channel-close (on_open ∷ before) after l = poll_channel-close before after _
  poll_channel-close (on_message b ∷ before) after l = poll_channel-close before after _
  poll_channel-close (on_buffered_amount_low ∷ before) after l = poll_channel-close before after _
  poll_channel-close (on_other ∷ before) after l = poll_channel-close before after _

  sent-ok :
      (r : Result Text (Unit {0}) × D) (l : TransportLayer P D C)
      → (sent rtc r l).0 ≡ ok tt
      → (r.0 ≡ ok tt) × ((sent rtc r l).1.unflushed ≡ true)
  unfolding sent
  sent-ok (ok done, channel) l h = (refl, refl)
  sent-ok (err e, channel) l h = cc
  sent-ok (panic, channel) l h = cc

  -- A connected transport sends over its channel, and the payload then waits to be flushed.
  pub send_works :
      (payload : Text) (channel : D) (l : TransportLayer P D C)
      → l.state ≡ TransportState.connected
      → l.data_channel ≡ some channel
      → (rtc.send_text payload channel).0 ≡ ok tt
      → send rtc payload l ≡ (
        ok tt,
        record l { data_channel = some (rtc.send_text payload channel).1; unflushed = true },
      )
  unfolding send
  send_works payload channel l connected channel_open taken =
      simp (send, connected, channel_open, sent, taken)

  -- A payload is sent only over an open channel of a connected transport, and it then waits to be
  -- flushed.
  pub send-ok :
      (payload : Text) (l : TransportLayer P D C)
      → (send rtc payload l).0 ≡ ok tt
      → (l.state ≡ TransportState.connected)
        × ((channel : D) × (l.data_channel ≡ some channel)
            × ((rtc.send_text payload channel).0 ≡ ok tt))
        × ((send rtc payload l).1.unflushed ≡ true)
  unfolding send
  send-ok payload l h = elim (Bool-cases (is_connected l.state)) [
    | inr c ↦ absurd (ground arith)
    | inl c ↦ elim (Option-cases l.data_channel) [
      | inl e ↦ absurd (ground arith)
      | inr (channel, e) ↦
          let (s, u) = sent-ok (rtc.send_text payload channel) l (rw (c, e) at h) in
          (is_connected-true l.state c, (channel, e, s), rw (c, e) u)
    ]
  ]

  send-none :
      (payload : Text) (l : TransportLayer P D C)
      → l.data_channel ≡ none
      → (send rtc payload l).0 ≢ ok tt
  unfolding send
  send-none payload l e h = ground arith

  handle-none :
      (m : TransportNegotiationMessage) (l : TransportLayer P D C)
      → l.peer_connection ≡ none
      → handle rtc m l ≡ (err (transport (text "peer connection not found")), l)
  unfolding handle
  handle-none m l e = rw e refl

  finish_teardown_lem :
      (r : Result OpenLvError (Unit {0})) (l : TransportLayer P D C)
      → ((finish_teardown rtc r l).1.data_channel ≡ l.data_channel)
        × ((finish_teardown rtc r l).1.peer_connection ≡ l.peer_connection)
        × (((finish_teardown rtc r l).0 ≡ ok tt)
            → (finish_teardown rtc r l).1.state ≡ TransportState.standby)
  unfolding finish_teardown set_state
  finish_teardown_lem (ok done) l = (refl, refl, λ h. refl)
  finish_teardown_lem (err e) l = (refl, refl, λ h. cc)
  finish_teardown_lem panic l = (refl, refl, λ h. cc)

  -- After the teardown, also where closing the connection failed, no payload is sent and no
  -- negotiation message is handled; a teardown that succeeds leaves the transport on standby.
  pub teardown_silences :
      (payload : Text) (m : TransportNegotiationMessage) (l : TransportLayer P D C)
      → ((send rtc payload (teardown rtc l).1).0 ≢ ok tt)
        × (handle rtc m (teardown rtc l).1
            ≡ (err (transport (text "peer connection not found")), (teardown rtc l).1))
        × (((teardown rtc l).0 ≡ ok tt) → (teardown rtc l).1.state ≡ TransportState.standby)
  unfolding teardown
  teardown_silences payload m l =
      let (dropped, closed, quiet) =
        finish_teardown_lem (close_result rtc l.peer_connection)
          (record l { data_channel = none; peer_connection = none }) in
      (send-none payload (teardown rtc l).1 dropped, handle-none m (teardown rtc l).1 closed, quiet)
