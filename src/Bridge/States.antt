-- ===== src/Bridge/States.antt =====
-- The states that the bridge gives out: `state_json` and the subscription. JSON is the crate
-- serde_json: the record of Jsonrpc with numbers and texts.
mod Telling
mod Reading
mod Tests
use openlv_rs.Prelude.{
  ℕ, ◌≡◌, ◌≢◌, Bool, true, false, not, ◌&&◌, List, [], ◌∷◌, Option, none, some, is_some,
}
use openlv_rs.Text.{Text, text}
use openlv_rs.Errors.{Result}
use openlv_rs.Message.{PeerInfo}
use openlv_rs.Session.{SessionStateObject}
use openlv_rs.Jsonrpc.{Json, member}
use openlv_rs.Bridge.{status_name, signaling_name}

pub record JsonText (V : Type 0) : Type 0 where
  pub json : Json V
  pub number : ℕ → V
  pub to_string : V → Text
  pub from_str : Text → Result Text V

abbrev pub distinct_keys : {V : Type 0} → List (Text × V) → Bool
distinct_keys [] = true
distinct_keys ((key, v) ∷ ps) = let rest = distinct_keys ps in not (is_some (member key ps)) && rest

-- What is written for two values differs, and a member of an object with distinct keys is found
-- under its key.
pub record JsonTextLaws {V : Type 0} (w : JsonText V) : Type 0 where
  pub to_string_injective : (v v' : V) → w.to_string v ≡ w.to_string v' → v ≡ v'
  pub string_injective : (t t' : Text) → w.json.string t ≡ w.json.string t' → t ≡ t'
  pub null_not_string : (t : Text) → w.json.null ≢ w.json.string t
  pub null_not_object : (ps : List (Text × V)) → w.json.null ≢ w.json.object ps
  pub get_object :
      (ps : List (Text × V)) (key : Text)
      → distinct_keys ps ≡ true
      → w.json.get (w.json.object ps) key ≡ member key ps

module _ {V : Type 0} (w : JsonText V) where
  -- An `Option` in `json!`.
  abbrev pub option_value : {A : Type 0} → (A → V) → Option A → V
  option_value f none = w.json.null
  option_value f (some a) = f a

  abbrev pub string_of : Option Text → V
  string_of t = option_value (λ a. w.json.string a) t

  unfoldable pub peer_value : PeerInfo → V
  peer_value peer = w.json.object (
      (text "identity", w.json.string peer.identity)
      ∷ ((text "name", w.json.string peer.name) ∷ ((text "icon", string_of peer.icon) ∷ [])))

  unfoldable pub state_value : SessionStateObject → V
  state_value state = w.json.object (
      (text "status", w.json.string (status_name state.status))
      ∷ ((
        text "signaling",
        option_value (λ signaling. w.json.string (signaling_name signaling)) state.signaling,
      )
          ∷ ((text "peer", option_value peer_value state.peer_info)
              ∷ ((text "error", string_of state.error) ∷ []))))

  unfoldable pub state_json : SessionStateObject → Text
  unfolding state_value
  state_json state = w.to_string (state_value state)

-- What one turn of the loop of `next_state` meets: the closed session, which is looked at first, or
-- what the receiver gives.
pub data StateRound : Type 0 where
  session_closed lagged channel_closed : StateRound
  received : SessionStateObject → StateRound

-- The result, `none` while the call still waits, and what is left for the next call. A session
-- stays closed, and so does its channel.
unfoldable pub next_state :
    {V : Type 0} → JsonText V → List StateRound → Option (Option Text) × List StateRound
next_state w [] = (none, [])
next_state w (session_closed ∷ rounds) = (some none, session_closed ∷ rounds)
next_state w (received state ∷ rounds) = (some (some (state_json w state)), rounds)
next_state w (lagged ∷ rounds) = next_state w rounds
next_state w (channel_closed ∷ rounds) = (some none, channel_closed ∷ rounds)
