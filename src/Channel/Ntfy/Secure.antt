-- ===== src/Channel/Ntfy/Secure.antt =====
-- The schemes and the credentials of an ntfy server URL.
use openlv_rs.Prelude.{◌≡◌, refl, sym, ap, ◌↔◌, ◌⊎◌, inl, inr, Option, none, some, Bool-cases}
use openlv_rs.Text.{Text, text, bytes_eq}
use openlv_rs.Text.Laws.{bytes_eq_iff}
use openlv_rs.Errors.{OpenLvError, Result, ok, >>=-eq-ok, ok-injective}
use openlv_rs.Channel.Ntfy.{
  NtfyCaptures, NtfyConnectionInfo, named, schemes_of, credentials_of, parse_ntfy_url,
}

named-eq-ok : {A : Type 0} (url : Text) (o : Option A) {a : A} → named url o ≡ ok a → o ≡ some a
unfolding named
named-eq-ok url none h = cc
named-eq-ok url (some a) h = rw (ok-injective h) refl

-- The scheme of a URL asks for TLS.
abbrev pub IsTls : Text → Type 0
IsTls type = (type ≡ text "https") ⊎ (type ≡ text "ntfys")

abbrev pub IsPlain : Text → Type 0
IsPlain type = (type ≡ text "http") ⊎ (type ≡ text "ntfy")

are_schemes :
    {a b : Text} {schemes : Text × Text}
    → ◌≡◌ {A = Result OpenLvError (Text × Text)} (ok (a, b)) (ok schemes)
    → (schemes.0 ≡ a) × (schemes.1 ≡ b)
are_schemes h = let e = ok-injective h in (ap (λ p. p.0) (sym e), ap (λ p. p.1) (sym e))

schemes_of-eq-ok :
    (url type : Text) {schemes : Text × Text}
    → schemes_of url type ≡ ok schemes
    → (IsTls type × ((schemes.0 ≡ text "https") × (schemes.1 ≡ text "wss")))
      ⊎ (IsPlain type × ((schemes.0 ≡ text "http") × (schemes.1 ≡ text "ws")))
unfolding schemes_of
schemes_of-eq-ok url type h = elim (Bool-cases (bytes_eq type (text "http"))) [
  | inl a ↦ inr (inl ((bytes_eq_iff type (text "http")).0 a), are_schemes (rw (schemes_of, a) at h))
  | inr a ↦ elim (Bool-cases (bytes_eq type (text "ntfy"))) [
    | inl b ↦
        inr (inr ((bytes_eq_iff type (text "ntfy")).0 b), are_schemes (rw (schemes_of, a, b) at h))
    | inr b ↦ elim (Bool-cases (bytes_eq type (text "https"))) [
      | inl c ↦ inl (
        inl ((bytes_eq_iff type (text "https")).0 c),
        are_schemes (rw (schemes_of, a, b, c) at h),
      )
      | inr c ↦ elim (Bool-cases (bytes_eq type (text "ntfys"))) [
        | inl d ↦ inl (
          inr ((bytes_eq_iff type (text "ntfys")).0 d),
          are_schemes (rw (schemes_of, a, b, c, d) at h),
        )
        | inr d ↦ let bad = rw (schemes_of, a, b, c, d) at h in cc
      ]
    ]
  ]
]

credentials_of-none :
    (user password : Option Text) → (credentials_of user password ≡ none) ↔ (password ≡ none)
unfolding credentials_of
credentials_of-none none none = (λ h. refl, λ h. refl)
credentials_of-none (some u) none = (λ h. refl, λ h. refl)
credentials_of-none none (some p) = (λ h. cc, λ h. cc)
credentials_of-none (some u) (some p) = (λ h. cc, λ h. cc)

-- A server URL that is accepted has the protocol that decides both schemes: https and wss exactly
-- for https and ntfys, and http and ws exactly for http and ntfy; and it carries credentials
-- exactly when it has a password.
pub parse_ntfy_url_secure :
    (captures_of : Text → Option NtfyCaptures) (url : Text) (info : NtfyConnectionInfo)
    → parse_ntfy_url captures_of url ≡ ok info
    → (captures : NtfyCaptures) × (type : Text) × (captures_of url ≡ some captures)
      × (captures.protocol ≡ some type)
      × ((IsTls type × ((info.protocol ≡ text "https") × (info.ws_protocol ≡ text "wss")))
          ⊎ (IsPlain type × ((info.protocol ≡ text "http") × (info.ws_protocol ≡ text "ws"))))
      × ((info.credentials ≡ none) ↔ (captures.password ≡ none))
unfolding parse_ntfy_url
parse_ntfy_url_secure captures_of url info h =
    let (captures, e1, h1) = >>=-eq-ok (named url (captures_of url)) _ h in
    let (type, e2, h2) = >>=-eq-ok (named url captures.protocol) _ h1 in
    let (schemes, e3, h3) = >>=-eq-ok (schemes_of url type) _ h2 in
    let (host, e4, h4) = >>=-eq-ok (named url captures.host) _ h3 in
    (
      captures,
      type,
      named-eq-ok url (captures_of url) e1,
      named-eq-ok url captures.protocol e2,
      rw (← ok-injective h4) (schemes_of-eq-ok url type e3),
      rw (← ok-injective h4) (credentials_of-none captures.user captures.password),
    )
