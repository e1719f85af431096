-- ===== src/Wire/Frames.antt =====
-- Laws of wire/mod.rs: frames survive the wire, and what parsing does on every other text.
use openlv_rs.Prelude.{
  ℕ, ◌≤◌, ◌<◌, ◌≡◌, ◌≢◌, ◌↔◌, sym, true, false, [], ◌∷◌, some, arith, Option-cases, Bool-cases,
  if◌then◌else◌,
}
use openlv_rs.Prelude.{inl, inr}
use native.Mathlib.Decide.{dec_lt}
use openlv_rs.Text.{Text, is_utf8, utf8_from, start}
use openlv_rs.Errors.{OpenLvError, Result, ok, panic, ◌>>=◌, >>=-eq-ok, ok-injective}
use openlv_rs.Wire.{
  WirePrefix, handshake, encrypted, WireRecipient, host, client, WireFrame, compose_frame,
  parse_frame, parse_prefix, parse_recipient, next_char, nth_one, prefix_char, slices_at_one,
  handshake_prefix, encrypted_prefix, as_char,
}

-- Parsing a composed frame gives back its three parts, whatever the ciphertext.
pub parse_frame-compose_frame :
    (prefix : WirePrefix) (recipient : WireRecipient) (ciphertext : Text)
    → parse_frame (compose_frame prefix recipient ciphertext)
      ≡ ok (record { prefix = prefix; recipient = recipient; ciphertext = ciphertext })
unfolding parse_frame compose_frame slices_at_one parse_prefix parse_recipient
parse_frame-compose_frame handshake host c = ground arith
parse_frame-compose_frame handshake client c = ground arith
parse_frame-compose_frame encrypted host c = ground arith
parse_frame-compose_frame encrypted client c = ground arith

-- What validity says of a character beyond ASCII.
lead_bounds :
    (b c : ℕ) (rest : Text)
    → utf8_from start (b ∷ (c ∷ rest)) ≡ true
    → 128 ≤ b
    → (194 ≤ b) × (b < 245) × (b ≡ 224 → 160 ≤ c) × (b ≡ 240 → 144 ≤ c) × (128 ≤ c) × (c < 192)
unfolding utf8_from
lead_bounds b c rest v h = ground arith steps 10000000

parse_prefix-eq-ok :
    (a : ℕ) (p : WirePrefix) → parse_prefix (a ∷ []) ≡ ok p → prefix_char p ≡ a ∷ []
unfolding parse_prefix prefix_char
parse_prefix-eq-ok a p h = ground arith

-- A character beyond ASCII is decoded to a number beyond ASCII.
next_char-beyond :
    (b : ℕ) (rest : Text) (d : ℕ) (tail : Text)
    → utf8_from start (b ∷ rest) ≡ true
    → 128 ≤ b
    → next_char (b ∷ rest) ≡ some (d, tail)
    → 128 ≤ d
unfolding next_char utf8_from
next_char-beyond b [] d tail v h e = ground arith
next_char-beyond b (c ∷ []) d tail v h e = ground (arith, lead_bounds b c [] v h)
next_char-beyond b (c ∷ (x ∷ [])) d tail v h e = ground (arith, lead_bounds b c (x ∷ []) v h)
next_char-beyond b (c ∷ (x ∷ (y ∷ r))) d tail v h e =
    unfold next_char in (decode-beyond (lead_bounds b c (x ∷ (y ∷ r)) v h) e)
  where
    decode-beyond :
        (194 ≤ b) × (b < 245) × (b ≡ 224 → 160 ≤ c) × (b ≡ 240 → 144 ≤ c) × (128 ≤ c) × (c < 192)
        → next_char (b ∷ (c ∷ (x ∷ (y ∷ r)))) ≡ some (d, tail)
        → 128 ≤ d
    decode-beyond k e' = ground arith

utf8-tail :
    (a : ℕ) (rest : Text)
    → utf8_from start (a ∷ rest) ≡ true
    → a < 128
    → utf8_from start rest ≡ true
unfolding utf8_from
utf8-tail a rest v h = ground arith

next_char-eq :
    (b : ℕ) (rest : Text) (d : ℕ) (tail : Text)
    → utf8_from start (b ∷ rest) ≡ true
    → d < 128
    → next_char (b ∷ rest) ≡ some (d, tail)
    → b ≡ d
next_char-eq b rest d tail v h e = elim (dec_lt b 128) [
  | yes low ↦ unfold next_char in (ground arith)
  | no high ↦ absurd (omega (arith, next_char-beyond b rest d tail v (omega arith) e))
]

-- `nth(1)` after an ASCII character reads the character at byte 1.
nth_one-ascii :
    (a : ℕ) (rest : Text) (d : ℕ)
    → a < 128
    → nth_one (a ∷ rest) ≡ some d
    → (tail : Text) × (next_char rest ≡ some (d, tail))
unfolding nth_one
nth_one-ascii a rest d h e = elim (Option-cases (next_char rest)) [
  | inl missing ↦ absurd (unfold nth_one in (ground arith))
  | inr ((c, tail), found) ↦ (tail, ground arith)
]

parse_recipient-eq-ok :
    (a b : ℕ) (rest : Text) (r : WireRecipient)
    → utf8_from start (a ∷ (b ∷ rest)) ≡ true
    → a < 128
    → parse_recipient (a ∷ (b ∷ rest)) ≡ ok r
    → as_char r ≡ b
unfolding parse_recipient as_char
parse_recipient-eq-ok a b rest r v h e = elim (Option-cases (nth_one (a ∷ (b ∷ rest)))) [
  | inl missing ↦ ground arith
  | inr (d, found) ↦
      let (tail, here) = nth_one-ascii a (b ∷ rest) d h found in
      let small : d < 128 = ground arith in
      let same : b ≡ d = next_char-eq b rest d tail (utf8-tail a (b ∷ rest) v h) small here in
      ground arith
]

parse_frame_long :
    (a b : ℕ) (rest : Text)
    → parse_frame (a ∷ (b ∷ rest)) ≡ (
        if slices_at_one (a ∷ (b ∷ rest))
        then (do
          prefix ← parse_prefix (a ∷ [])
          recipient ← parse_recipient (a ∷ (b ∷ rest))
          ok (record { prefix = prefix; recipient = recipient; ciphertext = rest }))
        else panic)
unfolding parse_frame
parse_frame_long a b rest = ground arith

-- The first byte of a text that parses is one of the two prefix letters.
prefix_char-ascii : (a : ℕ) (p : WirePrefix) → prefix_char p ≡ a ∷ [] → a < 128
unfolding prefix_char handshake_prefix encrypted_prefix
prefix_char-ascii a handshake h = ground arith
prefix_char-ascii a encrypted h = ground arith

compose_frame-eq :
    (a b : ℕ) (rest : Text) (p : WirePrefix) (r : WireRecipient)
    → prefix_char p ≡ a ∷ []
    → as_char r ≡ b
    → compose_frame p r rest ≡ a ∷ (b ∷ rest)
unfolding compose_frame
compose_frame-eq a b rest handshake r h k = ground arith
compose_frame-eq a b rest encrypted r h k = ground arith

compose_parts :
    (a b : ℕ) (rest : Text) (f : WireFrame)
    → utf8_from start (a ∷ (b ∷ rest)) ≡ true
    → (do
      prefix ← parse_prefix (a ∷ [])
      recipient ← parse_recipient (a ∷ (b ∷ rest))
      ok (record { prefix = prefix; recipient = recipient; ciphertext = rest }))
      ≡ ok f
    → compose_frame f.prefix f.recipient f.ciphertext ≡ a ∷ (b ∷ rest)
compose_parts a b rest f v h =
    let (p, hp, h') = >>=-eq-ok (parse_prefix (a ∷ [])) _ h in
    let (r, hr, done) = >>=-eq-ok (parse_recipient (a ∷ (b ∷ rest))) _ h' in
    let first : prefix_char p ≡ a ∷ [] = parse_prefix-eq-ok a p hp in
    let second : as_char r ≡ b =
      parse_recipient-eq-ok a b rest r v (prefix_char-ascii a p first) hr in
    rw (← ok-injective done) (compose_frame-eq a b rest p r first second)

-- A valid text that parses is the composition of the parts that it is parsed to.
compose_frame-parse_frame :
    (payload : Text) (f : WireFrame)
    → is_utf8 payload ≡ true
    → parse_frame payload ≡ ok f
    → compose_frame f.prefix f.recipient f.ciphertext ≡ payload
unfolding is_utf8
compose_frame-parse_frame [] f v h = unfold parse_frame in (ground arith)
compose_frame-parse_frame (a ∷ []) f v h = unfold parse_frame in (ground arith)
compose_frame-parse_frame (a ∷ (b ∷ rest)) f v h =
    elim (Bool-cases (slices_at_one (a ∷ (b ∷ rest)))) [
      | inl fits ↦ compose_parts a b rest f v (rw (parse_frame_long a b rest, fits) at h)
      | inr cut ↦ absurd (err_ne (rw (parse_frame_long a b rest, cut) at h))
    ]
  where
    err_ne : ◌≡◌ {A = Result OpenLvError WireFrame} panic (ok f) → ⊥
    err_ne e = cc

-- A valid text parses to a frame exactly when it is the composition of the frame's parts.
pub parse_frame-ok_iff :
    (payload : Text) (f : WireFrame)
    → is_utf8 payload ≡ true
    → (parse_frame payload ≡ ok f) ↔ (payload ≡ compose_frame f.prefix f.recipient f.ciphertext)
parse_frame-ok_iff payload f v = (
  λ h. sym (compose_frame-parse_frame payload f v h),
  λ h. rw h (parse_frame-compose_frame f.prefix f.recipient f.ciphertext),
)

parse_prefix-ne-panic : (first : Text) → parse_prefix first ≢ panic
unfolding parse_prefix
parse_prefix-ne-panic first h = ground arith

parse_recipient-ne-panic : (payload : Text) → parse_recipient payload ≢ panic
unfolding parse_recipient
parse_recipient-ne-panic payload h = ground arith

parse_frame-panic_long :
    (a b : ℕ) (rest : Text)
    → parse_frame (a ∷ (b ∷ rest)) ≡ panic
    → slices_at_one (a ∷ (b ∷ rest)) ≡ false
unfolding parse_frame
parse_frame-panic_long a b rest h =
    ground (arith, parse_prefix-ne-panic (a ∷ []), parse_recipient-ne-panic (a ∷ (b ∷ rest)))

slices_at_one_iff :
    (a b : ℕ) (rest : Text)
    → utf8_from start (a ∷ (b ∷ rest)) ≡ true
    → (slices_at_one (a ∷ (b ∷ rest)) ≡ false) ↔ (128 ≤ a)
unfolding slices_at_one utf8_from
slices_at_one_iff a b rest v =
    (λ h. ground (arith, b_leads h), λ h. ground (arith, lead_bounds a b rest v h))
  where
    b_leads : slices_at_one (a ∷ (b ∷ rest)) ≡ false → (128 ≤ b) × (b < 192)
    b_leads h = ground arith

-- On a valid text parsing panics exactly when the text begins with a character beyond ASCII.
pub parse_frame-panic_iff :
    (a : ℕ) (rest : Text) → is_utf8 (a ∷ rest) ≡ true → (parse_frame (a ∷ rest) ≡ panic) ↔ (128 ≤ a)
unfolding is_utf8
parse_frame-panic_iff a [] v = unfold parse_frame utf8_from in (ground arith)
parse_frame-panic_iff a (b ∷ rest) v =
    let (to, from) = slices_at_one_iff a b rest v in
    (λ h. to (parse_frame-panic_long a b rest h), λ h. rw (parse_frame_long a b rest, from h))
