-- ===== src/Session/Sending/Exchange.antt =====
-- Two sessions that exchange the messages of session/mod.rs over a data channel.

pub mod Steps
pub mod Answered
mod Tests
use openlv_rs.Prelude.{ℕ, Bool, suc, ◌≡◌, refl, true, inr, List, ◌∷◌, ◌++◌, some, length}
use openlv_rs.Text.{Bytes, Text, is_utf8}
use openlv_rs.Errors.{Result, ok}
use openlv_rs.Encryption.{CryptoLaws, to_base64}
use openlv_rs.Encryption.Asymmetric
use openlv_rs.Encryption.Asymmetric.{generate_key_pair, key_info}
use openlv_rs.Encryption.Asymmetric.Delivery.{encrypt_works}
use openlv_rs.Encryption.Asymmetric.Sealing.{peer_decrypt-encrypt}
use openlv_rs.Transport.Message.{SessionMessage}
use openlv_rs.Transport.Webrtc.{Rtc, TransportState}
use openlv_rs.Transport.Webrtc as Webrtc
use openlv_rs.Transport.Webrtc.Channel.{send_works}
use openlv_rs.Session.{
  Session, SessionPlatform, seal_session, on_transport, send_session_message, handle_message,
  handle_session_frame, handle_transport_payload,
}

-- The message is written as JSON and read back, and it can be sealed: GCM fails only on texts of
-- many gigabytes.
pub record Written {V : Type 0} (p : SessionPlatform V) (m : SessionMessage V) : Type 0 where
  pub json : Text
  pub written : p.to_json m ≡ ok json
  pub read : p.from_json json ≡ ok m
  pub utf8 : is_utf8 json ≡ true
  pub seals :
      (key nonce : Bytes) → (sealed : Bytes) × (p.crypto.aes256_encrypt key nonce json ≡ ok sealed)

-- An open data channel takes every text; the texts that it took, newest first.
pub record ChannelLaws {P D S C : Type 0} (rtc : Rtc P D S C) : Type 0 where
  pub sent_texts : D → List Text
  pub takes : (payload : Text) (channel : D) → (rtc.send_text payload channel).0 ≡ ok tt
  pub keeps :
      (payload : Text) (channel : D)
      → sent_texts (rtc.send_text payload channel).1 ≡ payload ∷ sent_texts channel

-- The nonces have 12 bytes.
pub record DrawLaws {V : Type 0} (p : SessionPlatform V) : Type 0 where
  pub crypto : CryptoLaws p.crypto
  pub nonce_length : (calls : ℕ) → length (p.random_nonce calls) ≡ 12

-- A session with its own key pair, the peer's key and an open channel.
pub record IsLinkedTo {V P D C : Type 0} (p : SessionPlatform V) (mine theirs : Bytes) (channel : D)
    (s : Session V P D C) : Type 0 where
  pub own : s.decryption_key ≡ (generate_key_pair p.crypto mine).decryption_key
  pub peer : s.relying_key ≡ some (generate_key_pair p.crypto theirs).encryption_key
  pub connected : s.transport.state ≡ TransportState.connected
  pub channel_open : s.transport.data_channel ≡ some channel

-- After a message: one more nonce was drawn, and the channel is the new one.
abbrev pub sent_over : {V P D C : Type 0} → D → Session V P D C → Session V P D C
sent_over channel s = record s {
  calls = suc s.calls;
  transport = record s.transport { data_channel = some channel; unflushed = true };
}

module _ {V P D S C : Type 0} (rtc : Rtc P D S C) (channels : ChannelLaws rtc)
    (p : SessionPlatform V) (laws : DrawLaws p) where
  -- A message that a linked session sends goes out as one text, and the peer that gets this text
  -- handles the message.
  pub carries :
      (mine theirs : Bytes) (channel : D) (m : SessionMessage V) (s : Session V P D C)
      → p.crypto.was_contributory (p.crypto.diffie_hellman mine (p.crypto.x25519_public theirs))
        ≡ true
      → Written p m
      → IsLinkedTo p mine theirs channel s
      → (raw : Text) × (send_session_message rtc p m s
          ≡ (ok tt, sent_over (rtc.send_text raw channel).1 s))
        × ((subscribed : Bool) (far : D) (peer : Session V P D C)
            → IsLinkedTo p theirs mine far peer
            → handle_transport_payload p subscribed raw peer ≡ handle_message subscribed m peer)
  unfolding send_session_message seal_session on_transport handle_transport_payload
      handle_session_frame
  carries mine theirs channel m s good w l =
      let nonce = p.random_nonce s.calls in
      let key =
        p.crypto.hkdf_sha256 (p.crypto.diffie_hellman mine (p.crypto.x25519_public theirs))
          (key_info ++ (p.crypto.x25519_public mine ++ p.crypto.x25519_public theirs)) in
      let (sealed, boxed) = w.seals key nonce in
      let done = encrypt_works p.crypto laws.crypto mine theirs nonce w.json sealed good boxed in
      let raw = to_base64 p.crypto (p.crypto.x25519_public mine ++ (nonce ++ sealed)) in
      (
        raw,
        simp (
          send_session_message,
          w.written,
          seal_session,
          l.peer,
          l.own,
          done,
          on_transport,
          send_works rtc raw channel s.transport l.connected l.channel_open
              (channels.takes raw channel),
        ),
        λ subscribed far peer there.
            rw
              (
                handle_transport_payload,
                there.own,
                peer_decrypt-encrypt p.crypto laws.crypto mine theirs nonce w.json raw
                    peer.relying_key (laws.nonce_length s.calls) w.utf8 (inr there.peer) done,
                handle_session_frame,
                w.read,
              )
              refl,
      )
