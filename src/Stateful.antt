-- ===== src/Stateful.antt =====
-- State and errors together: what a method returns, and the state that it leaves.
use openlv_rs.Prelude.{◌≡◌, refl}
use openlv_rs.Errors.{OpenLvError, Result, ok, err, panic}

abbrev pub M : Type 0 → Type 0 → Type 0
M S A = S → Result OpenLvError A × S

abbrev pub continue_with :
    {E S A B : Type 0} → Result E A × S → (A → S → Result E B × S) → Result E B × S
continue_with (ok a, s) f = f a s
continue_with (err e, s) f = (err e, s)
continue_with (panic, s) f = (panic, s)

infixl 5 ◌>>=◌ ◌>>◌
abbrev pub ◌>>=◌ : {S A B : Type 0} → M S A → (A → M S B) → M S B
◌>>=◌ m f s = continue_with (m s) f

abbrev pub ◌>>◌ : {S B : Type 0} → M S (Unit {0}) → M S B → M S B
m >> k = m >>= λ _. k

abbrev pub pure : {S A : Type 0} → A → M S A
pure a s = (ok a, s)

abbrev pub lift : {S A : Type 0} → Result OpenLvError A → M S A
lift r s = (r, s)

abbrev pub modify : {S : Type 0} → (S → S) → M S (Unit {0})
modify f s = (ok tt, f s)

-- What holds of the state after `m` ends, and after the rest where `m` succeeds, holds at the end.
pub continue_with-keeps :
    {S A B : Type 0} (P : S → Type 0) (r : Result OpenLvError A × S) (f : A → M S B)
    → P r.1
    → ((a : A) → r.0 ≡ ok a → P (f a r.1).1)
    → P (continue_with r f).1
continue_with-keeps P (ok a, s) f h k = k a refl
continue_with-keeps P (err e, s) f h k = h
continue_with-keeps P (panic, s) f h k = h
