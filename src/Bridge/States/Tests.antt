-- ===== src/Bridge/States/Tests.antt =====
-- The states of a session in a small JSON, which is written in prefix form.
use openlv_rs.Prelude.{
  ℕ, ◌≡◌, ◌≢◌, refl, sym, ap, ◌∙◌, List, [], ◌∷◌, ◌++◌, none, some, length, append_nil,
  append_assoc, arith, map,
}
use openlv_rs.Text.{Text, text}
use openlv_rs.Errors.{ok}
use openlv_rs.Layer.State.{SignalState}
use openlv_rs.Session.{SessionState, SessionStateObject}
use openlv_rs.Jsonrpc.Sample.{Value, leaf, chain, object, json, get-object}
use openlv_rs.Bridge.States.{JsonText, JsonTextLaws, session_closed, lagged, received, state_json}
use openlv_rs.Bridge.States.Reading.{received_states, states_read, states_read_lem}
use openlv_rs.Bridge.States.Telling.{state_json-injective}

write : Value → Text
write (leaf t) = 0 ∷ (length t ∷ t)
write (chain k v others) = 1 ∷ (length k ∷ (k ++ (write v ++ write others)))

same_prefix :
    (xs ys r r' : List ℕ) → length xs ≡ length ys → xs ++ r ≡ ys ++ r' → (xs ≡ ys) × (r ≡ r')
same_prefix [] [] r r' n h = (refl, h)
same_prefix (x ∷ xs) (y ∷ ys) r r' n h =
    let (e, f) = same_prefix xs ys r r' (omega arith) (cc) in (cc, f)
same_prefix [] (y ∷ ys) r r' n h = absurd (omega arith)
same_prefix (x ∷ xs) [] r r' n h = absurd (omega arith)

write-prefix : (v w : Value) (r r' : List ℕ) → write v ++ r ≡ write w ++ r' → (v ≡ w) × (r ≡ r')
unfolding write
write-prefix (leaf t) (leaf u) r r' h =
    let (e, f) = same_prefix t u r r' (cc) (cc) in (ap leaf e, f)
write-prefix (chain k v o) (chain k' v' o') r r' h =
    let tails : k ++ ((write v ++ write o) ++ r) ≡ k' ++ ((write v' ++ write o') ++ r') =
      sym (append_assoc k (write v ++ write o) r)
      ∙ (cc)
      ∙ append_assoc k' (write v' ++ write o') r' in
    let (e, f) = same_prefix k k' _ _ (cc) tails in
    let (e', f') =
      write-prefix v v' (write o ++ r) (write o' ++ r')
        (sym (append_assoc (write v) (write o) r) ∙ (f ∙ append_assoc (write v') (write o') r')) in
    let (e'', f'') = write-prefix o o' r r' f' in (rw (e, e', e'') refl, f'')
write-prefix (leaf t) (chain k v o) r r' h = cc
write-prefix (chain k v o) (leaf t) r r' h = cc

write-injective : (v w : Value) → write v ≡ write w → v ≡ w
write-injective v w h =
    (write-prefix v w [] [] (append_nil (write v) ∙ (h ∙ sym (append_nil (write w))))).0

abbrev written : JsonText Value
written = record {
  json = json;
  number = λ n. leaf (0 ∷ (n ∷ []));
  to_string = write;
  from_str = λ t. ok (leaf t);
}

null_not_object : (ps : List (Text × Value)) → json.null ≢ object ps
null_not_object [] e = cc
null_not_object ((k, v) ∷ ps) e = cc

written_laws : JsonTextLaws written
written_laws = record {
  to_string_injective = write-injective;
  string_injective = λ t t' e. cc;
  null_not_string = λ t e. cc;
  null_not_object = null_not_object;
  get_object = λ ps key d. get-object ps key;
}

abbrev waiting : SessionStateObject
waiting = record {
  status = SessionState.linking;
  signaling = some SignalState.handshake;
  peer_info = none;
  error = none;
}

abbrev broken : SessionStateObject
broken = record {
  status = SessionState.disconnected;
  signaling = some SignalState.error;
  peer_info = none;
  error = some (text "signaling failed or timed out");
}

state_json-injective_example : waiting ≡ waiting
state_json-injective_example = state_json-injective written written_laws waiting waiting refl

told_apart : state_json written waiting ≢ state_json written broken
told_apart = λ e.
    let status : SessionState.linking ≡ SessionState.disconnected =
      ap (λ (s : SessionStateObject). s.status)
        (state_json-injective written written_laws waiting broken e) in
    cc

states_read_lem_example :
    states_read written 3 (lagged ∷ (received waiting ∷ (session_closed ∷ [])))
    ≡ map
        (λ s. state_json written s)
        (received_states (lagged ∷ (received waiting ∷ (session_closed ∷ []))))
states_read_lem_example =
    states_read_lem written 3 (lagged ∷ (received waiting ∷ (session_closed ∷ []))) (omega arith)
