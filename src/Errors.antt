-- ===== src/Errors.antt =====
-- crates/openlv/src/errors.rs, and the outcome of a Rust call: `Ok`, `Err` or a panic.
use openlv_rs.Prelude.{◌≡◌, refl, ◌⊎◌, inl, inr, Bool, true, false}
use openlv_rs.Text.{Text}

pub data OpenLvError : Type 0 where
  invalid_uri signaling transport session : Text → OpenLvError
  session_closed request_limit_reached : OpenLvError
  encryption wire_frame protocol_violation unsupported_protocol : Text → OpenLvError
  no_connection : OpenLvError
  request_timeout : Text → OpenLvError
  request_failed invalid_request_timeout response_channel_closed : OpenLvError
  other : Text → OpenLvError

pub data Result {ℓ} (E : Type 0) (A : Type ℓ) : Type ℓ where
  ok : A → Result E A
  err : E → Result E A
  panic : Result E A

infixl 5 ◌>>=◌ ◌>>◌
abbrev pub ◌>>=◌ {ℓ κ} :
    {E : Type 0} {A : Type ℓ} {B : Type κ} → Result E A → (A → Result E B) → Result E B
ok a >>= f = f a
err e >>= f = err e
panic >>= f = panic

abbrev pub ◌>>◌ {ℓ} : {E : Type 0} {B : Type ℓ} → Result E (Unit {0}) → Result E B → Result E B
m >> k = m >>= λ _. k

-- `if !test { return Err(error) }`
abbrev pub guard : {E : Type 0} → Bool → E → Result E (Unit {0})
guard true e = ok tt
guard false e = err e

abbrev pub map_err {ℓ} : {E F : Type 0} {A : Type ℓ} → (E → F) → Result E A → Result F A
map_err f (ok a) = ok a
map_err f (err e) = err (f e)
map_err f panic = panic

-- A chain that ends in `ok` had an `ok` first, and ends as its rest does.
pub >>=-eq-ok {ℓ κ} :
    {E : Type 0} {A : Type ℓ} {B : Type κ} (first : Result E A) (rest : A → Result E B) {last : B}
    → (first >>= rest) ≡ ok last
    → (value : A) × (first ≡ ok value) × (rest value ≡ ok last)
>>=-eq-ok (err reason) rest chain = cc
>>=-eq-ok panic rest chain = cc
>>=-eq-ok (ok value) rest chain = (value, refl, chain)

pub map_err-eq-ok {ℓ} :
    {E F : Type 0} {A : Type ℓ} (f : E → F) (r : Result E A) {a : A} → map_err f r ≡ ok a → r ≡ ok a
map_err-eq-ok f (ok a) h = cc
map_err-eq-ok f (err e) h = cc
map_err-eq-ok f panic h = cc

pub ok-injective {ℓ} :
    {E : Type 0} {A : Type ℓ} {a b : A} → ◌≡◌ {A = Result E A} (ok a) (ok b) → a ≡ b
ok-injective h = cc

pub Result-cases {ℓ} :
    {E : Type 0} {A : Type ℓ} (r : Result E A)
    → ((a : A) × (r ≡ ok a)) ⊎ (((e : E) × (r ≡ err e)) ⊎ (r ≡ panic))
Result-cases (ok a) = inl (a, refl)
Result-cases (err e) = inr (inl (e, refl))
Result-cases panic = inr (inr refl)
