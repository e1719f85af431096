-- ===== src/Message.antt =====
-- crates/openlv/src/signaling/message/mod.rs: the messages of the handshake and their bounds.
-- A JSON value (`serde_json::Value`) is a type parameter; of it the code reads `is_object` only.
pub mod Bounds
mod Tests
use openlv_rs.Prelude.{
  ℕ, zero, Bool, true, false, ◌&&◌, ◌||◌, not, List, [], ◌∷◌, Option, none, some, leb, ltb, length,
  is_empty, all, if◌then◌else◌,
}
use openlv_rs.Text.{Text, text}
use openlv_rs.Errors.{Result, ok, err, panic, ◌>>=◌, ◌>>◌, guard}

pub record PubkeyPayload : Type 0 where
  pub public_key : Text

pub record PeerInfo : Type 0 where
  pub identity : Text
  pub name : Text
  pub icon : Option Text

pub record PeerCapabilities : Type 0 where
  pub transports : List Text
  pub info : Option PeerInfo

-- The second field of each constructor is the timestamp, a `u64`.
pub data SignalingMessage (V : Type 0) : Type 0 where
  flash : V → ℕ → SignalingMessage V
  pubkey : PubkeyPayload → ℕ → SignalingMessage V
  capabilities : PeerCapabilities → ℕ → SignalingMessage V
  app_data : V → ℕ → SignalingMessage V

-- `len` counts bytes.
unfoldable pub is_bounded_string : Text → ℕ → Bool
is_bounded_string value max_length = not (is_empty value) && leb (length value) max_length

icon_is_bounded : Option Text → Bool
icon_is_bounded none = true
icon_is_bounded (some icon) = is_bounded_string icon 8192

unfoldable pub validate_peer_info : PeerInfo → Result Text (Unit {0})
unfolding icon_is_bounded
validate_peer_info self = do
  guard (is_bounded_string self.identity 128) (text "peer identity must be 1-128 characters")
  guard (is_bounded_string self.name 128) (text "peer name must be 1-128 characters")
  guard (icon_is_bounded self.icon) (text "peer icon must be 1-8192 characters")
  ok tt

validate_info : Option PeerInfo → Result Text (Unit {0})
validate_info none = ok tt
validate_info (some info) = validate_peer_info info

unfoldable pub validate_peer_capabilities : PeerCapabilities → Result Text (Unit {0})
unfolding validate_info
validate_peer_capabilities self = do
  guard (not (is_empty self.transports || ltb 8 (length self.transports)))
      (text "transports must contain 1-8 entries")
  guard (all (λ transport. is_bounded_string transport 32) self.transports)
      (text "transport identifiers must be 1-32 characters")
  validate_info self.info

unfoldable pub validate : {V : Type 0} → (V → Bool) → SignalingMessage V → Result Text (Unit {0})
validate is_object (flash payload timestamp) =
    guard (is_object payload) (text "signaling payload must be an object")
validate is_object (app_data payload timestamp) =
    guard (is_object payload) (text "signaling payload must be an object")
validate is_object (pubkey payload timestamp) =
    guard (not (is_empty payload.public_key)) (text "public key must not be empty")
validate is_object (capabilities payload timestamp) = validate_peer_capabilities payload
