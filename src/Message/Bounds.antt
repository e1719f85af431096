-- ===== src/Message/Bounds.antt =====
-- What `validate` of message/mod.rs accepts.
use openlv_rs.Prelude.{
  ℕ, ◌≤◌, ◌≡◌, refl, ◌↔◌, Bool, true, false, List, [], ◌∷◌, Option, none, some, arith, length, All,
  all, is_empty, not,
}
use openlv_rs.Text.{Text, text}
use openlv_rs.Errors.{ok, guard}
use openlv_rs.Message.{
  PeerInfo, PeerCapabilities, SignalingMessage, flash, pubkey, capabilities, app_data,
  is_bounded_string, validate_peer_info, validate_peer_capabilities, validate, validate_info,
  icon_is_bounded,
}

abbrev pub Within : ℕ → Text → Type 0
Within most value = (1 ≤ length value) × (length value ≤ most)

abbrev pub IconWithin : Option Text → Type 0
IconWithin none = Unit
IconWithin (some icon) = Within 8192 icon

pub record IsValidInfo (info : PeerInfo) : Type 0 where
  pub identity : Within 128 info.identity
  pub name : Within 128 info.name
  pub icon : IconWithin info.icon

abbrev pub InfoWithin : Option PeerInfo → Type 0
InfoWithin none = Unit
InfoWithin (some info) = IsValidInfo info

pub record IsValidCapabilities (c : PeerCapabilities) : Type 0 where
  pub some_transport : 1 ≤ length c.transports
  pub few_transports : length c.transports ≤ 8
  pub short_transports : All (Within 32) c.transports
  pub info : InfoWithin c.info

abbrev pub IsValidMessage : {V : Type 0} → (V → Bool) → SignalingMessage V → Type 0
IsValidMessage is_object (flash payload t) = is_object payload ≡ true
IsValidMessage is_object (app_data payload t) = is_object payload ≡ true
IsValidMessage is_object (pubkey payload t) = 1 ≤ length payload.public_key
IsValidMessage is_object (capabilities payload t) = IsValidCapabilities payload

is_bounded_string_iff :
    (value : Text) (most : ℕ) → (is_bounded_string value most ≡ true) ↔ Within most value
unfolding is_bounded_string
is_bounded_string_iff [] most = ground arith
is_bounded_string_iff (c ∷ value) most = ground arith

all-is_bounded_string_iff :
    (values : List Text)
    → (all (λ t. is_bounded_string t 32) values ≡ true) ↔ All (Within 32) values
all-is_bounded_string_iff [] = (λ h. tt, λ h. refl)
all-is_bounded_string_iff (v ∷ values) =
    let (to, from) = is_bounded_string_iff v 32 in
    let (to_rest, from_rest) = all-is_bounded_string_iff values in
    (λ h. (to (ground arith), to_rest (ground arith)), λ h. ground (arith, from h.0, from_rest h.1))

icon_is_bounded_iff : (icon : Option Text) → (icon_is_bounded icon ≡ true) ↔ IconWithin icon
unfolding icon_is_bounded
icon_is_bounded_iff none = (λ h. tt, λ h. refl)
icon_is_bounded_iff (some icon) = is_bounded_string_iff icon 8192

validate_peer_info_iff : (info : PeerInfo) → (validate_peer_info info ≡ ok tt) ↔ IsValidInfo info
unfolding validate_peer_info
validate_peer_info_iff info =
    let (to1, from1) = is_bounded_string_iff info.identity 128 in
    let (to2, from2) = is_bounded_string_iff info.name 128 in
    let (to3, from3) = icon_is_bounded_iff info.icon in
    (
      λ h. record {
        identity = to1 (ground arith);
        name = to2 (ground arith);
        icon = to3 (ground arith);
      },
      λ h. rw (from1 h.identity, from2 h.name, from3 h.icon),
    )

validate_info_iff : (info : Option PeerInfo) → (validate_info info ≡ ok tt) ↔ InfoWithin info
unfolding validate_info
validate_info_iff none = (λ h. tt, λ h. refl)
validate_info_iff (some info) = validate_peer_info_iff info

validate_peer_capabilities_iff :
    (c : PeerCapabilities) → (validate_peer_capabilities c ≡ ok tt) ↔ IsValidCapabilities c
unfolding validate_peer_capabilities
validate_peer_capabilities_iff c =
    let (to1, from1) = all-is_bounded_string_iff c.transports in
    let (to2, from2) = validate_info_iff c.info in
    (
      λ h. record {
        some_transport = nonempty c.transports (ground arith);
        few_transports = ground arith;
        short_transports = to1 (ground arith);
        info = to2 (ground arith);
      },
      λ h.
          ground (
            arith,
            from1 h.short_transports,
            from2 h.info,
            empty_not c.transports h.some_transport,
          ),
    )
  where
    nonempty : (ts : List Text) → is_empty ts ≡ false → 1 ≤ length ts
    nonempty [] e = cc
    nonempty (t ∷ ts) e = omega arith

    empty_not : (ts : List Text) → 1 ≤ length ts → is_empty ts ≡ false
    empty_not [] e = absurd (omega arith)
    empty_not (t ∷ ts) e = refl

-- Validation accepts exactly the messages within the documented bounds, counted in bytes.
pub validate_iff :
    {V : Type 0} (is_object : V → Bool) (m : SignalingMessage V)
    → (validate is_object m ≡ ok tt) ↔ IsValidMessage is_object m
unfolding validate
validate_iff is_object (flash payload t) = ground arith
validate_iff is_object (app_data payload t) = ground arith
validate_iff is_object (pubkey payload t) = by_key payload.public_key
  where
    by_key :
        (key : Text)
        → (guard (not (is_empty key)) (text "public key must not be empty") ≡ ok tt)
          ↔ (1 ≤ length key)
    by_key [] = ground arith
    by_key (c ∷ key) = ground arith
validate_iff is_object (capabilities payload t) = validate_peer_capabilities_iff payload
