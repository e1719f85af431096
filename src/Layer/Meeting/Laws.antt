-- ===== src/Layer/Meeting/Laws.antt =====
-- What the handshake relies on: working channels, JSON that reads what it wrote, and ciphers that
-- seal its messages.
use openlv_rs.Prelude.{ℕ, ◌≡◌, true, length}
use openlv_rs.Text.{Bytes, Text, is_utf8}
use openlv_rs.Errors.{ok}
use openlv_rs.Message.{SignalingMessage, validate_peer_capabilities}
use openlv_rs.Encryption.{Crypto, CryptoLaws}
use openlv_rs.Layer.State.{Platform}
use openlv_rs.Layer.Meeting.{Side, Pairing}

-- Every call of the channel succeeds, and a nonce has 12 bytes.
pub record SideLaws (side : Side) : Type 0 where
  pub nonce_length : (n : ℕ) → length (side.random_nonce n) ≡ 12
  pub setup_works : (n : ℕ) → side.channel_setup n ≡ ok tt
  pub subscribe_works : (n : ℕ) → side.channel_subscribe n ≡ ok tt
  pub publish_works : (n : ℕ) (frame : Text) → side.channel_publish n frame ≡ ok tt

pub record PlatformLaws {V : Type 0} (p : Platform V) : Type 0 where
  pub crypto : CryptoLaws p.crypto
  pub json_text : SignalingMessage V → Text
  pub to_json_works : (m : SignalingMessage V) → p.to_json m ≡ ok (json_text m)
  pub from_json_reads : (m : SignalingMessage V) → p.from_json (json_text m) ≡ ok m
  pub json_is_utf8 : (m : SignalingMessage V) → is_utf8 (json_text m) ≡ true
  pub empty_is_object : p.is_object p.empty_object ≡ true
  -- GCM fails only on texts of many gigabytes.
  pub aes128_seals :
      (key nonce : Bytes) (m : SignalingMessage V)
      → (sealed : Bytes) × (p.crypto.aes128_encrypt key nonce (json_text m) ≡ ok sealed)
  pub aes256_seals :
      (key nonce : Bytes) (m : SignalingMessage V)
      → (sealed : Bytes) × (p.crypto.aes256_encrypt key nonce (json_text m) ≡ ok sealed)

-- Both sides advertise valid capabilities, and their keys have a common secret.
pub record PairingLaws (c : Crypto) (m : Pairing) : Type 0 where
  pub host_valid : validate_peer_capabilities m.host_capabilities ≡ ok tt
  pub client_valid : validate_peer_capabilities m.client_capabilities ≡ ok tt
  pub contributory :
      c.was_contributory (c.diffie_hellman m.host_secret (c.x25519_public m.client_secret)) ≡ true
