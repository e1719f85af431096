-- ===== src/Message/Tests.antt =====
-- Runs of the checks of a message.
use openlv_rs.Prelude.{◌≡◌, ◌↔◌, Bool, [], ◌∷◌, some}
use openlv_rs.Text.{text}
use openlv_rs.Errors.{ok}
use openlv_rs.Message.{SignalingMessage, capabilities, validate}
use openlv_rs.Message.Bounds.{IsValidMessage, validate_iff}

abbrev offered : SignalingMessage Bool
offered =
    capabilities
      (record {
        transports = text "wrtc" ∷ [];
        info =
            some
              (record { identity = text "0x01"; name = text "Shop"; icon = some (text "data:") });
      })
      7

validate_iff_example : (validate (λ v. v) offered ≡ ok tt) ↔ IsValidMessage (λ v. v) offered
validate_iff_example = validate_iff (λ v. v) offered
