-- ===== src/Layer/Meeting/Sample.antt =====
-- A concrete JSON for the tests: a message is a list of numbers, a number is written in unary.
use openlv_rs.Prelude.{
  ℕ, zero, suc, ◌+◌, ◌≡◌, refl, true, List, [], ◌∷◌, ◌++◌, Option, none, some, arith, length, take,
  drop, take-append, drop-append, ap, ◌∙◌,
}
use openlv_rs.Text.{Text, is_utf8, utf8_from, start}
use openlv_rs.Errors.{Result, ok, err}
use openlv_rs.Message.{SignalingMessage, PeerInfo, flash, pubkey, capabilities, app_data}

unary : ℕ → Text → Text
unary zero rest = 0 ∷ rest
unary (suc n) rest = 1 ∷ unary n rest

write_numbers : List ℕ → Text
write_numbers [] = []
write_numbers (n ∷ ns) = unary n (write_numbers ns)

read_numbers : ℕ → Text → List ℕ
read_numbers n [] = []
read_numbers n (zero ∷ t) = n ∷ read_numbers 0 t
read_numbers n (suc b ∷ t) = read_numbers (suc n) t

read-unary : (n k : ℕ) (rest : Text) → read_numbers k (unary n rest) ≡ (n + k) ∷ read_numbers 0 rest
unfolding read_numbers unary
read-unary zero k rest = ap (λ x. x ∷ read_numbers 0 rest) (omega arith)
read-unary (suc n) k rest =
    read-unary n (suc k) rest ∙ ap (λ x. x ∷ read_numbers 0 rest) (omega arith)

read_numbers-write_numbers : (ns : List ℕ) → read_numbers 0 (write_numbers ns) ≡ ns
unfolding write_numbers read_numbers
read_numbers-write_numbers [] = refl
read_numbers-write_numbers (n ∷ ns) =
    rw (read-unary n 0 (write_numbers ns), read_numbers-write_numbers ns)
      (ap (λ x. x ∷ ns) (omega arith))

unary-is_utf8 :
    (n : ℕ) (rest : Text) → utf8_from start rest ≡ true → utf8_from start (unary n rest) ≡ true
unfolding unary utf8_from
unary-is_utf8 zero rest h = h
unary-is_utf8 (suc n) rest h = unary-is_utf8 n rest h

write_numbers-is_utf8 : (ns : List ℕ) → utf8_from start (write_numbers ns) ≡ true
unfolding write_numbers utf8_from
write_numbers-is_utf8 [] = refl
write_numbers-is_utf8 (n ∷ ns) = unary-is_utf8 n (write_numbers ns) (write_numbers-is_utf8 ns)

abbrev write_text : Text → List ℕ → List ℕ
write_text t rest = length t ∷ (t ++ rest)

abbrev Read : Type 0 → Type 0
Read A = List ℕ → Option (A × List ℕ)

abbrev then_read : {A B : Type 0} → Option (A × List ℕ) → (A → Read B) → Option (B × List ℕ)
then_read none f = none
then_read (some (a, rest)) f = f a rest

read_text : Read Text
read_text [] = none
read_text (n ∷ r) = some (take n r, drop n r)

read_text_lem : (t : Text) (rest : List ℕ) → read_text (write_text t rest) ≡ some (t, rest)
unfolding read_text
read_text_lem t rest = rw (take-append t rest, drop-append t rest) refl

write_texts : List Text → List ℕ → List ℕ
write_texts [] rest = rest
write_texts (t ∷ ts) rest = write_text t (write_texts ts rest)

read_texts : ℕ → Read (List Text)
read_texts zero r = some ([], r)
read_texts (suc n) r =
    then_read (read_text r) λ t r'. then_read (read_texts n r') λ ts r''. some (t ∷ ts, r'')

read_texts_lem :
    (ts : List Text) (rest : List ℕ)
    → read_texts (length ts) (write_texts ts rest) ≡ some (ts, rest)
unfolding read_texts write_texts
read_texts_lem [] rest = refl
read_texts_lem (t ∷ ts) rest =
    rw (read_text_lem t (write_texts ts rest), read_texts_lem ts rest) refl

write_icon : Option Text → List ℕ → List ℕ
write_icon none rest = 0 ∷ rest
write_icon (some t) rest = 1 ∷ write_text t rest

read_icon : Read (Option Text)
read_icon [] = none
read_icon (zero ∷ r) = some (none, r)
read_icon (suc n ∷ r) = then_read (read_text r) λ t r'. some (some t, r')

read_icon_lem : (o : Option Text) (rest : List ℕ) → read_icon (write_icon o rest) ≡ some (o, rest)
unfolding read_icon write_icon
read_icon_lem none rest = refl
read_icon_lem (some t) rest = rw (read_text_lem t rest) refl

write_info : Option PeerInfo → List ℕ → List ℕ
write_info none rest = 0 ∷ rest
write_info (some i) rest = 1 ∷ write_text i.identity (write_text i.name (write_icon i.icon rest))

read_info : Read (Option PeerInfo)
read_info [] = none
read_info (zero ∷ r) = some (none, r)
read_info (suc n ∷ r) = then_read (read_text r) λ identity r1. then_read (read_text r1) λ name r2.
    then_read (read_icon r2)
      λ icon r3. some (some (record { identity = identity; name = name; icon = icon }), r3)

read_info_lem :
    (o : Option PeerInfo) (rest : List ℕ) → read_info (write_info o rest) ≡ some (o, rest)
unfolding read_info write_info
read_info_lem none rest = refl
read_info_lem (some i) rest =
    rw
      (
        read_text_lem i.identity (write_text i.name (write_icon i.icon rest)),
        read_text_lem i.name (write_icon i.icon rest),
        read_icon_lem i.icon rest,
      )
      refl

numbers_of : SignalingMessage ℕ → List ℕ
numbers_of (flash v t) = 0 ∷ (v ∷ (t ∷ []))
numbers_of (pubkey k t) = 1 ∷ (t ∷ write_text k.public_key [])
numbers_of (capabilities c t) =
    2 ∷ (t ∷ (length c.transports ∷ write_texts c.transports (write_info c.info [])))
numbers_of (app_data v t) = 3 ∷ (v ∷ (t ∷ []))

abbrev finish :
    {A : Type 0} → Option (A × List ℕ) → (A → SignalingMessage ℕ) → Result Text (SignalingMessage ℕ)
finish none f = err []
finish (some (a, rest)) f = ok (f a)

message_of : List ℕ → Result Text (SignalingMessage ℕ)
message_of (zero ∷ (v ∷ (t ∷ []))) = ok (flash v t)
message_of (suc zero ∷ (t ∷ r)) = finish (read_text r) λ k. pubkey (record { public_key = k }) t
message_of (suc (suc zero) ∷ (t ∷ (n ∷ r))) =
    finish
      (then_read (read_texts n r)
        λ ts r'. then_read (read_info r') λ i r''. some (record { transports = ts; info = i }, r''))
      λ c. capabilities c t
message_of (suc (suc (suc zero)) ∷ (v ∷ (t ∷ []))) = ok (app_data v t)
message_of ns = err []

message_of-numbers_of : (m : SignalingMessage ℕ) → message_of (numbers_of m) ≡ ok m
unfolding message_of numbers_of
message_of-numbers_of (flash v t) = refl
message_of-numbers_of (pubkey k t) = rw (read_text_lem k.public_key []) refl
message_of-numbers_of (capabilities c t) =
    rw (read_texts_lem c.transports (write_info c.info []), read_info_lem c.info []) refl
message_of-numbers_of (app_data v t) = refl

pub json_text : SignalingMessage ℕ → Text
json_text m = write_numbers (numbers_of m)

pub from_json : Text → Result Text (SignalingMessage ℕ)
from_json t = message_of (read_numbers 0 t)

pub from_json-json_text : (m : SignalingMessage ℕ) → from_json (json_text m) ≡ ok m
unfolding from_json json_text
from_json-json_text m = rw (read_numbers-write_numbers (numbers_of m)) (message_of-numbers_of m)

pub json_text-is_utf8 : (m : SignalingMessage ℕ) → is_utf8 (json_text m) ≡ true
unfolding is_utf8 json_text
json_text-is_utf8 m = write_numbers-is_utf8 (numbers_of m)
