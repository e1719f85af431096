-- ===== src/Transport/Webrtc/Candidates/Order.antt =====
-- The order of the candidates of webrtc.rs: what the code relies on of a peer connection, and which
-- candidates it was given.
use openlv_rs.Prelude.{◌≡◌, true, List, [], ◌∷◌, ◌++◌, ◌⊎◌, if◌then◌else◌}
use openlv_rs.Text.{Text, text, bytes_eq}
use openlv_rs.Errors.{Result, ok, err}
use openlv_rs.Transport.Message.{TransportNegotiationMessage}
use openlv_rs.Transport.Webrtc.{Rtc, Holding, negotiate}

abbrev pub result_list : {C : Type 0} → Result Text C → List C
result_list (ok c) = c ∷ []
result_list _ = []

module _ {P D S C : Type 0} where
  -- A call that leaves the remote description and the candidates as they are.
  abbrev pub IsQuiet : Rtc P D S C → (P → List C) → {A : Type 0} → (P → Result Text A × P) → Type 0
  IsQuiet rtc taken call =
      (pc : P)
      → (taken (call pc).1 ≡ taken pc)
        × (rtc.has_remote_description (call pc).1 ≡ rtc.has_remote_description pc)

  -- What the code relies on: `taken` are the candidates that a connection took, in order. A remote
  -- description is there once it was set, and one that could not be set changes nothing. A candidate
  -- is taken where the call succeeds, and only there.
  pub record RtcLaws (rtc : Rtc P D S C) (taken : P → List C) : Type 0 where
    pub answer_quiet : IsQuiet rtc taken rtc.create_answer
    pub local_quiet : (s : S) → IsQuiet rtc taken (rtc.set_local_description s)
    pub remote_taken : (s : S) (pc : P) → taken (rtc.set_remote_description s pc).1 ≡ taken pc
    pub remote_set :
        (s : S) (pc : P)
        → (rtc.set_remote_description s pc).0 ≡ ok tt
        → rtc.has_remote_description (rtc.set_remote_description s pc).1 ≡ true
    pub remote_failed :
        (s : S) (pc : P)
        → ((rtc.set_remote_description s pc).0 ≡ ok tt)
          ⊎ (rtc.has_remote_description (rtc.set_remote_description s pc).1
              ≡ rtc.has_remote_description pc)
    pub add_taken :
        (c : C) (pc : P)
        → (rtc.add_ice_candidate c pc).0 ≡ ok tt
        → taken (rtc.add_ice_candidate c pc).1 ≡ taken pc ++ c ∷ []
    pub add_refused :
        (c : C) (pc : P) (x : Text)
        → (rtc.add_ice_candidate c pc).0 ≡ err x
        → taken (rtc.add_ice_candidate c pc).1 ≡ taken pc
    pub add_described :
        (c : C) (pc : P)
        → rtc.has_remote_description (rtc.add_ice_candidate c pc).1 ≡ rtc.has_remote_description pc

  -- The connection accepts the candidate, whatever its state.
  abbrev pub IsAccepted : Rtc P D S C → C → Type 0
  IsAccepted rtc c = (pc : P) → (rtc.add_ice_candidate c pc).0 ≡ ok tt

  -- The candidates so far are `q`, taken or waiting, and none waits behind a remote description.
  pub record IsAt (rtc : Rtc P D S C) (taken : P → List C) (q : List C) (h : Holding P D C)
      : Type 0 where
    pub in_order : taken h.pc ++ h.layer.pending_candidates ≡ q
    pub settled : rtc.has_remote_description h.pc ≡ true → h.layer.pending_candidates ≡ []

  -- The candidate that a negotiation message carries.
  unfoldable pub payload_candidate : Rtc P D S C → Text → List C
  payload_candidate rtc [] = []
  payload_candidate rtc (b ∷ payload) = result_list (rtc.candidate_from_json (b ∷ payload))

  unfoldable pub candidate_of : Rtc P D S C → TransportNegotiationMessage → List C
  candidate_of rtc m =
      if bytes_eq m.message_type (text "offer")
      then []
      else if bytes_eq m.message_type (text "answer")
      then []
      else if bytes_eq m.message_type (text "candidate")
      then payload_candidate rtc m.payload
      else []

  unfoldable pub candidates_of : Rtc P D S C → List TransportNegotiationMessage → List C
  candidates_of rtc [] = []
  candidates_of rtc (m ∷ ms) = candidate_of rtc m ++ candidates_of rtc ms

  -- The messages in the order of their arrival; a failure is only logged.
  unfoldable pub negotiate_all :
      Rtc P D S C → List TransportNegotiationMessage → Holding P D C → Holding P D C
  negotiate_all rtc [] h = h
  negotiate_all rtc (m ∷ ms) h = negotiate_all rtc ms (negotiate rtc m h).1
