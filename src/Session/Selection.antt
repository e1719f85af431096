-- ===== src/Session/Selection.antt =====
-- The choice of a transport in session/mod.rs.
use openlv_rs.Prelude.{
  ◌≡◌, refl, true, false, List, [], ◌∷◌, none, some, arith, Bool-cases, inl, inr,
}
use openlv_rs.Text.{Text}
use openlv_rs.Text.Laws.{bytes_eq_iff, bytes_eq_refl}
use openlv_rs.Session.{contains, find_in, select_transport_id}

find_in-eq-some :
    (preferred supported : List Text) (t : Text)
    → find_in preferred supported ≡ some t
    → (contains preferred t ≡ true) × (contains supported t ≡ true)
find_in-eq-some [] supported t h = absurd (ground arith)
find_in-eq-some (x ∷ preferred) supported t h = elim (Bool-cases (contains supported x)) [
  | inl c ↦ (ground (arith, bytes_eq_refl x), ground arith)
  | inr c ↦ let (p, q) = find_in-eq-some preferred supported t (ground arith) in (ground arith, q)
]

find_in-eq-none :
    (preferred supported : List Text) (t : Text)
    → find_in preferred supported ≡ none
    → contains preferred t ≡ true
    → contains supported t ≡ false
find_in-eq-none [] supported t h c = absurd (ground arith)
find_in-eq-none (x ∷ preferred) supported t h c =
    ground (arith, find_in-eq-none preferred supported t, bytes_eq_iff x t)

-- The host and the client, each with its own and the peer's list, choose the same transport: one
-- that both lists have, and none only if they have none in common.
pub select_transport_id_agrees :
    (host_transports client_transports : List Text)
    → (select_transport_id true host_transports client_transports
        ≡ select_transport_id false client_transports host_transports)
      × ((t : Text)
          → select_transport_id true host_transports client_transports ≡ some t
          → (contains host_transports t ≡ true) × (contains client_transports t ≡ true))
      × ((t : Text)
          → select_transport_id true host_transports client_transports ≡ none
          → contains host_transports t ≡ true
          → contains client_transports t ≡ false)
unfolding select_transport_id
select_transport_id_agrees hs cs =
    (refl, λ t h. find_in-eq-some hs cs t h, λ t h c. find_in-eq-none hs cs t h c)
