-- ===== src/Bridge/States/Telling.antt =====
-- What the JSON of a session's state tells.
use openlv_rs.Prelude.{
  ◌≡◌, refl, sym, ap, ◌∙◌, List, [], ◌∷◌, Option, none, some, ◌≢◌, true, if◌then◌else◌,
}
use openlv_rs.Text.{Text, text, bytes_eq}
use openlv_rs.Message.{PeerInfo}
use openlv_rs.Layer.State.{SignalState}
use openlv_rs.Session.{SessionState, SessionStateObject}
use openlv_rs.Jsonrpc.{member}
use openlv_rs.Bridge.{status_name, signaling_name}
use openlv_rs.Bridge.States.{
  JsonText, JsonTextLaws, distinct_keys, option_value, string_of, peer_value, state_value,
  state_json,
}

-- The first name of a list that is the text.
abbrev named : {A : Type 0} → (A → Text) → List A → Text → Option A
named name [] t = none
named name (a ∷ others) t =
    let rest = named name others t in if bytes_eq (name a) t then some a else rest

abbrev statuses : List SessionState
statuses =
    SessionState.created
    ∷ (SessionState.signaling
        ∷ (SessionState.ready
            ∷ (SessionState.linking ∷ (SessionState.connected ∷ (SessionState.disconnected ∷ [])))))

abbrev signalings : List SignalState
signalings =
    SignalState.standby
    ∷ (SignalState.connecting
        ∷ (SignalState.ready
            ∷ (SignalState.handshake
                ∷ (SignalState.handshake_partial
                    ∷ (SignalState.encrypted ∷ (SignalState.error ∷ []))))))

some-injective : {A : Type 0} {a b : A} → ◌≡◌ {A = Option A} (some a) (some b) → a ≡ b
some-injective h = cc

named-status : (a : SessionState) → named status_name statuses (status_name a) ≡ some a
unfolding status_name text bytes_eq
named-status SessionState.created = refl
named-status SessionState.signaling = refl
named-status SessionState.ready = refl
named-status SessionState.linking = refl
named-status SessionState.connected = refl
named-status SessionState.disconnected = refl

named-signaling : (a : SignalState) → named signaling_name signalings (signaling_name a) ≡ some a
unfolding signaling_name text bytes_eq
named-signaling SignalState.standby = refl
named-signaling SignalState.connecting = refl
named-signaling SignalState.ready = refl
named-signaling SignalState.handshake = refl
named-signaling SignalState.handshake_partial = refl
named-signaling SignalState.encrypted = refl
named-signaling SignalState.error = refl

-- Names that can be read back differ.
name-injective :
    {A : Type 0} (name : A → Text) (all_of : List A)
    → ((a : A) → named name all_of (name a) ≡ some a)
    → (a b : A) → name a ≡ name b
    → a ≡ b
name-injective name all_of back a b h =
    let same = sym (back a) ∙ (ap (named name all_of) h ∙ back b) in cc

module _ {V : Type 0} (w : JsonText V) where
  option_value-injective :
      {A : Type 0} (f : A → V) (x y : Option A)
      → ((a b : A) → f a ≡ f b → a ≡ b)
      → ((a : A) → w.json.null ≢ f a)
      → option_value w f x ≡ option_value w f y
      → x ≡ y
  option_value-injective f none none injective n h = refl
  option_value-injective f (some a) (some b) injective n h = ap some (injective a b h)
  option_value-injective f none (some b) injective n h = absurd (n b h)
  option_value-injective f (some a) none injective n h = absurd (n a (sym h))

  module _ (laws : JsonTextLaws w) where
    member-eq :
        (ps qs : List (Text × V)) (key : Text)
        → distinct_keys ps ≡ true
        → distinct_keys qs ≡ true
        → w.json.object ps ≡ w.json.object qs
        → member key ps ≡ member key qs
    member-eq ps qs key d d' h =
        sym (laws.get_object ps key d) ∙ (ap (λ o. w.json.get o key) h ∙ laws.get_object qs key d')

    string_of-injective : (x y : Option Text) → string_of w x ≡ string_of w y → x ≡ y
    string_of-injective x y =
        option_value-injective (λ t. w.json.string t) x y laws.string_injective laws.null_not_string

    peer_value-injective : (a b : PeerInfo) → peer_value w a ≡ peer_value w b → a ≡ b
    unfolding peer_value member text bytes_eq
    peer_value-injective a b h =
        let at = λ (key : Text). member-eq _ _ key refl refl h in
        let identity : a.identity ≡ b.identity =
          laws.string_injective _ _ (some-injective (at (text "identity"))) in
        let name : a.name ≡ b.name =
          laws.string_injective _ _ (some-injective (at (text "name"))) in
        let icon : a.icon ≡ b.icon = string_of-injective _ _ (some-injective (at (text "icon"))) in
        λ i. record { identity = identity i; name = name i; icon = icon i }

    state_value-injective : (a b : SessionStateObject) → state_value w a ≡ state_value w b → a ≡ b
    unfolding state_value member text bytes_eq
    state_value-injective a b h =
        let at = λ (key : Text). member-eq _ _ key refl refl h in
        let status : a.status ≡ b.status =
          name-injective status_name statuses named-status _ _
            (laws.string_injective _ _ (some-injective (at (text "status")))) in
        let signaling : a.signaling ≡ b.signaling =
          option_value-injective (λ s. w.json.string (signaling_name s)) _ _
            (λ x y e.
              name-injective signaling_name signalings named-signaling x y
                (laws.string_injective _ _ e))
            (λ x. laws.null_not_string (signaling_name x))
            (some-injective (at (text "signaling"))) in
        let peer_info : a.peer_info ≡ b.peer_info =
          option_value-injective (peer_value w) _ _ peer_value-injective
            (unfold peer_value in (λ x. laws.null_not_object _))
            (some-injective (at (text "peer"))) in
        let error : a.error ≡ b.error =
          string_of-injective _ _ (some-injective (at (text "error"))) in
        λ i. record {
          status = status i;
          signaling = signaling i;
          peer_info = peer_info i;
          error = error i;
        }

    -- Under the laws of JSON, the text that the bridge gives for a state determines it: the status,
    -- the state of the signaling layer, the peer's information and the error. States that differ in
    -- one of these have different texts.
    pub state_json-injective : (a b : SessionStateObject) → state_json w a ≡ state_json w b → a ≡ b
    unfolding state_json
    state_json-injective a b h =
        state_value-injective a b (laws.to_string_injective (state_value w a) (state_value w b) h)
