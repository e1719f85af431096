-- ===== src/Encryption/Base64.antt =====
-- Consequences of the laws of base64 for the two wrappers of encryption/mod.rs.
use openlv_rs.Prelude.{◌≤◌, ◌≡◌, refl, false, [], ◌∷◌, arith, length, is_empty, ◌∙◌, sym, ap}
use openlv_rs.Text.{Bytes, Text}
use openlv_rs.Errors.{ok, ok-injective}
use openlv_rs.Encryption.{Crypto, CryptoLaws, to_base64, from_base64}

module _ (c : Crypto) (laws : CryptoLaws c) where
  pub from_base64-to_base64 : (b : Bytes) → from_base64 c (to_base64 c b) ≡ ok b
  unfolding to_base64 from_base64
  from_base64-to_base64 b = rw (laws.base64_decode_encode b)

  encoded_nonempty :
      (b : Bytes) (t : Text) → c.base64_encode b ≡ t → 1 ≤ length b → is_empty t ≡ false
  encoded_nonempty b [] e h =
      let same : b ≡ [] =
        ok-injective
          (sym (laws.base64_decode_encode b) ∙ (ap c.base64_decode e ∙ laws.base64_decode_empty)) in
      absurd (omega (arith, ap length same))
  encoded_nonempty b (x ∷ t) e h = refl

  pub is_empty-to_base64 : (b : Bytes) → 1 ≤ length b → is_empty (to_base64 c b) ≡ false
  unfolding to_base64
  is_empty-to_base64 b h = encoded_nonempty b (c.base64_encode b) refl h
