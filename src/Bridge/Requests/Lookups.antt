-- ===== src/Bridge/Requests/Lookups.antt =====
-- Laws of the map and the answers of lib.rs: what is found, and what removal keeps.
use openlv_rs.Prelude.{
  ℕ, ◌<◌, ◌≡◌, ◌≢◌, refl, true, List, [], ◌∷◌, none, some, arith, inl, inr, Bool-cases, ◌==◌, All,
}
use openlv_rs.Bridge.Requests.{Entry, Answer, find_entry, remove, answer_of, holds_channel}

pub find_entry-remove : (id : ℕ) (es : List Entry) → find_entry id (remove id es) ≡ none
find_entry-remove id [] = refl
find_entry-remove id (e ∷ es) = elim (Bool-cases (e.id == id)) [
  | inl h ↦ rw h (find_entry-remove id es)
  | inr h ↦ rw (h, h) (find_entry-remove id es)
]

pub All-remove :
    {P Q : Entry → Type 0} (id : ℕ) (es : List Entry)
    → ((e : Entry) → e.id ≢ id → P e → Q e)
    → All P es
    → All Q (remove id es)
All-remove id [] f ps = tt
All-remove id (e ∷ es) f (p, ps) = elim (Bool-cases (e.id == id)) [
  | inl h ↦ rw h (All-remove id es f ps)
  | inr h ↦ rw h (f e (λ q. ground arith) p, All-remove id es f ps)
]

pub All-map_lem :
    {A : Type 0} {P Q : A → Type 0} (xs : List A) → ((x : A) → P x → Q x) → All P xs → All Q xs
All-map_lem [] f ps = tt
All-map_lem (x ∷ xs) f (p, ps) = (f x p, All-map_lem xs f ps)

-- The entry that was found.
pub find_entry-All :
    {P : Entry → Type 0} (id c : ℕ) (es : List Entry)
    → All P es
    → find_entry id es ≡ some c
    → (e : Entry) × (e.id ≡ id) × (e.channel ≡ c) × P e
find_entry-All id c [] ps found = cc
find_entry-All id c (e ∷ es) (p, ps) found = elim (Bool-cases (e.id == id)) [
  | inl h ↦ (e, ground arith, ground arith, p)
  | inr h ↦ find_entry-All id c es ps (rw h at found)
]

pub holds_channel-found :
    (id c : ℕ) (es : List Entry) → find_entry id es ≡ some c → holds_channel c es ≡ true
holds_channel-found id c [] found = cc
holds_channel-found id c (e ∷ es) found = elim (Bool-cases (e.channel == c)) [
  | inl h ↦ rw h refl
  | inr h ↦ elim (Bool-cases (e.id == id)) [
    | inl k ↦ ground arith
    | inr k ↦ rw h (holds_channel-found id c es (rw k at found))
  ]
]

pub holds_channel-remove :
    (c id : ℕ) (es : List Entry)
    → c ≢ id
    → All (λ e. e.id ≡ e.channel) es
    → holds_channel c (remove id es) ≡ holds_channel c es
holds_channel-remove c id [] n ps = refl
holds_channel-remove c id (e ∷ es) n (p, ps) = elim (Bool-cases (e.id == id)) [
  | inl h ↦ elim (Bool-cases (e.channel == c)) [
    | inl k ↦ absurd (n (ground arith))
    | inr k ↦ rw (h, k) (holds_channel-remove c id es n ps)
  ]
  | inr h ↦ rw (h, holds_channel-remove c id es n ps) refl
]

pub answer_of-new :
    (c : ℕ) (answers : List (ℕ × Answer)) → All (λ a. a.0 < c) answers → answer_of c answers ≡ none
answer_of-new c [] ps = refl
answer_of-new c ((x, a) ∷ answers) (p, ps) = elim (Bool-cases (x == c)) [
  | inl h ↦ ground arith
  | inr h ↦ rw h (answer_of-new c answers ps)
]
