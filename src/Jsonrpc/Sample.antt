-- ===== src/Jsonrpc/Sample.antt =====
-- A small JSON: an object is a chain of members.
use openlv_rs.Prelude.{
  ℕ, ◌≡◌, refl, Bool, true, false, ◌&&◌, List, [], ◌∷◌, Option, none, some, inl, inr, Bool-cases,
  if◌then◌else◌,
}
use openlv_rs.Text.{Text, bytes_eq}
use openlv_rs.Text.Laws.{bytes_eq_iff}
use openlv_rs.Jsonrpc.{Json, JsonLaws, member}

pub data Value : Type 0 where
  leaf : List ℕ → Value
  chain : Text → Value → Value → Value

abbrev pub object : List (Text × Value) → Value
object [] = leaf (2 ∷ [])
object ((k, v) ∷ ps) = chain k v (object ps)

abbrev pub get : Value → Text → Option Value
get (leaf t) key = none
get (chain k v others) key = let rest = get others key in if bytes_eq k key then some v else rest

abbrev pub equals : Value → Value → Bool
equals (leaf a) (leaf b) = bytes_eq a b
equals (chain k v o) (chain k' v' o') =
    let first = equals v v' in let rest = equals o o' in bytes_eq k k' && (first && rest)
equals _ _ = false

equals→≡ : (v w : Value) → equals v w ≡ true → v ≡ w
equals→≡ (leaf a) (leaf b) h = rw ((bytes_eq_iff a b).0 h) refl
equals→≡ (chain k v o) (chain k' v' o') h = elim (Bool-cases (bytes_eq k k')) [
  | inr a ↦ let bad = rw a at h in cc
  | inl a ↦ elim (Bool-cases (equals v v')) [
    | inr b ↦ let bad = rw (a, b) at h in cc
    | inl b ↦ rw ((bytes_eq_iff k k').0 a, equals→≡ v v' b, equals→≡ o o' (rw (a, b) at h)) refl
  ]
]
equals→≡ (leaf a) (chain k v o) h = cc
equals→≡ (chain k v o) (leaf a) h = cc

equals_refl : (v : Value) → equals v v ≡ true
equals_refl (leaf a) = (bytes_eq_iff a a).1 refl
equals_refl (chain k v o) = rw ((bytes_eq_iff k k).1 refl, equals_refl v, equals_refl o) refl

abbrev pub json : Json Value
json = record {
  null = leaf [];
  string = λ t. leaf (1 ∷ t);
  negative = λ n. leaf (0 ∷ (n ∷ []));
  object = object;
  get = get;
  equals = equals;
}

pub get-object : (ps : List (Text × Value)) (key : Text) → get (object ps) key ≡ member key ps
unfolding member
get-object [] key = refl
get-object ((k, v) ∷ ps) key = rw (get-object ps key) refl

pub json_laws : JsonLaws json
json_laws = record {
  equals_iff = λ v w. (equals→≡ v w, λ e. rw e (equals_refl w));
  null_not_string = λ t e. cc;
  get_object = λ id code message key. get-object _ key;
}
