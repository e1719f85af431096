-- ===== src/Wire/Tests.antt =====
-- Runs of the frames on the wire.
use openlv_rs.Prelude.{◌≤◌, ◌≡◌, refl, ◌↔◌, true, [], ◌∷◌}
use openlv_rs.Text.{Text, is_utf8}
use openlv_rs.Errors.{ok, panic}
use openlv_rs.Wire.{encrypted, host, WireFrame, compose_frame, parse_frame}
use openlv_rs.Wire.Frames.{parse_frame-ok_iff, parse_frame-panic_iff}

abbrev note : Text
note = b'a' ∷ (b'b' ∷ [])

abbrev frame : WireFrame
frame = record { prefix = encrypted; recipient = host; ciphertext = note }

composed-is_utf8 : is_utf8 (compose_frame encrypted host note) ≡ true
unfolding is_utf8 compose_frame
composed-is_utf8 = refl

parse_frame-ok_iff_example : (parse_frame (compose_frame encrypted host note) ≡ ok frame) ↔ (
    compose_frame encrypted host note ≡ compose_frame frame.prefix frame.recipient frame.ciphertext)
parse_frame-ok_iff_example =
    parse_frame-ok_iff (compose_frame encrypted host note) frame composed-is_utf8

-- An `é` alone.
accent-is_utf8 : is_utf8 (0xc3 ∷ (0xa9 ∷ [])) ≡ true
unfolding is_utf8
accent-is_utf8 = refl

parse_frame-panic_iff_example : (parse_frame (0xc3 ∷ (0xa9 ∷ [])) ≡ panic) ↔ (128 ≤ 0xc3)
parse_frame-panic_iff_example = parse_frame-panic_iff 0xc3 (0xa9 ∷ []) accent-is_utf8
