-- ===== src/Layer/Monad.antt =====
-- State and errors together: what a method of layer/mod.rs returns, and the layer that it leaves.
use openlv_rs.Prelude.{◌≡◌, refl}
use openlv_rs.Errors.{OpenLvError, Result, ok, err, panic}
use openlv_rs.Layer.State.{SignalingInner, Layer, tick}

abbrev pub M : Type 0 → Type 0 → Type 0
M V A = Layer V → Result OpenLvError A × Layer V

abbrev pub continue_with :
    {V A B : Type 0} → Result OpenLvError A × Layer V → (A → M V B) → Result OpenLvError B × Layer V
continue_with (ok a, l) f = f a l
continue_with (err e, l) f = (err e, l)
continue_with (panic, l) f = (panic, l)

infixl 5 ◌>>=◌ ◌>>◌
abbrev pub ◌>>=◌ : {V A B : Type 0} → M V A → (A → M V B) → M V B
◌>>=◌ m f l = continue_with (m l) f

abbrev pub ◌>>◌ : {V B : Type 0} → M V (Unit {0}) → M V B → M V B
m >> k = m >>= λ _. k

abbrev pub pure : {V A : Type 0} → A → M V A
pure a l = (ok a, l)

abbrev pub lift : {V A : Type 0} → Result OpenLvError A → M V A
lift r l = (r, l)

abbrev pub modify : {V : Type 0} → (Layer V → Layer V) → M V (Unit {0})
modify f l = (ok tt, f l)

abbrev pub on_inner : {V : Type 0} → (SignalingInner V → SignalingInner V) → Layer V → Layer V
on_inner f l = record l { inner = f l.inner }

-- A call of the outside.
abbrev pub called : {V : Type 0} → Layer V → Layer V
called l = record l { trace = tick l.trace }

-- What holds of the layer after `m` ends, and after the rest where `m` succeeds, holds at the end.
pub continue_with-keeps :
    {V A B : Type 0} (P : Layer V → Type 0) (r : Result OpenLvError A × Layer V) (f : A → M V B)
    → P r.1
    → ((a : A) → r.0 ≡ ok a → P (f a r.1).1)
    → P (continue_with r f).1
continue_with-keeps P (ok a, l) f h k = k a refl
continue_with-keeps P (err e, l) f h k = h
continue_with-keeps P (panic, l) f h k = h
