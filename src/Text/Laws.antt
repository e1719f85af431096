-- ===== src/Text/Laws.antt =====
-- Equality of byte strings.
use openlv_rs.Prelude.{◌≡◌, refl, ◌↔◌, true, [], ◌∷◌, arith}
use openlv_rs.Text.{Bytes, bytes_eq}

pub bytes_eq_refl : (xs : Bytes) → bytes_eq xs xs ≡ true
unfolding bytes_eq
bytes_eq_refl [] = refl
bytes_eq_refl (x ∷ xs) = ground (arith, bytes_eq_refl xs)

pub bytes_eq→≡ : (xs ys : Bytes) → bytes_eq xs ys ≡ true → xs ≡ ys
unfolding bytes_eq
bytes_eq→≡ [] [] h = refl
bytes_eq→≡ (x ∷ xs) (y ∷ ys) h = ground (arith, bytes_eq→≡ xs ys)
bytes_eq→≡ [] (y ∷ ys) h = cc
bytes_eq→≡ (x ∷ xs) [] h = cc

pub bytes_eq_iff : (xs ys : Bytes) → (bytes_eq xs ys ≡ true) ↔ (xs ≡ ys)
bytes_eq_iff xs ys = (bytes_eq→≡ xs ys, λ e. rw e (bytes_eq_refl ys))
