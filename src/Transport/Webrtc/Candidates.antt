-- ===== src/Transport/Webrtc/Candidates.antt =====
-- The candidates of `handle` of webrtc.rs: which the connection took, and which wait.
pub mod Order
use openlv_rs.Prelude.{
  ◌≡◌, refl, true, List, [], ◌∷◌, ◌++◌, ◌⊎◌, sym, ap, ◌∙◌, if◌then◌else◌, append_nil, append_assoc,
  All,
}
use openlv_rs.Text.{Text}
use openlv_rs.Errors.{err, transport}
use openlv_rs.Transport.Webrtc.{Rtc, Holding, add_all, flush_pending_candidates}
use openlv_rs.Transport.Webrtc.Candidates.Order.{RtcLaws, IsAccepted, result_list}

module _ {P D S C : Type 0} (rtc : Rtc P D S C) (taken : P → List C)
    (laws : RtcLaws rtc taken) where
  -- At the first candidate that is refused the rest is not looked at.
  add_all-refused :
      (before after : List C) (c : C) (x : Text) (h : Holding P D C)
      → All (IsAccepted rtc) before
      → ((pc : P) → (rtc.add_ice_candidate c pc).0 ≡ err x)
      → ((add_all rtc (before ++ c ∷ after) h).0 ≡ err (transport x))
        × (taken (add_all rtc (before ++ c ∷ after) h).1.pc ≡ taken h.pc ++ before)
        × ((add_all rtc (before ++ c ∷ after) h).1.layer ≡ h.layer)
  unfolding add_all
  add_all-refused [] after c x h fine refused =
      rw (refused h.pc)
        (refl, laws.add_refused c h.pc x (refused h.pc) ∙ sym (append_nil (taken h.pc)), refl)
  add_all-refused (b ∷ before) after c x h (fine, rest) refused =
      let (o, t, l) =
        add_all-refused before after c x (record h { pc = (rtc.add_ice_candidate b h.pc).1 }) rest
          refused in
      rw (fine h.pc) (
        o,
        t
            ∙ (ap (λ z. z ++ before) (laws.add_taken b h.pc (fine h.pc))
                ∙ append_assoc (taken h.pc) (b ∷ []) before),
        l,
      )

  -- Where the connection refuses one of the waiting candidates behind a remote description, the
  -- error is returned, the candidates before it are taken, in order, and no candidate waits any
  -- more: it and those behind it are lost.
  pub flush_loses_rest :
      (before after : List C) (c : C) (x : Text) (h : Holding P D C)
      → h.layer.pending_candidates ≡ before ++ c ∷ after
      → All (IsAccepted rtc) before
      → ((pc : P) → (rtc.add_ice_candidate c pc).0 ≡ err x)
      → ((flush_pending_candidates rtc h).0 ≡ err (transport x))
        × (taken (flush_pending_candidates rtc h).1.pc ≡ taken h.pc ++ before)
        × ((flush_pending_candidates rtc h).1.layer.pending_candidates ≡ [])
  unfolding flush_pending_candidates
  flush_loses_rest before after c x h e fine refused =
      let (o, t, l) =
        add_all-refused before after c x
          (record h { layer = record h.layer { pending_candidates = [] } }) fine refused in
      rw e (o, t, ap (λ z. z.pending_candidates) l)
