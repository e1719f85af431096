-- ===== src/Channel/Ntfy/Reading/Tests.antt =====
-- A reading: the open event, a message, an attachment that is gone, the end, and what comes too late.
use openlv_rs.Prelude.{◌≡◌, true, false, List, [], ◌∷◌, Option, none, some}
use openlv_rs.Text.{Text, text}
use openlv_rs.Channel.Ntfy.Reading.{
  Received, stream_closed, ignored, text_frame, NtfyEvent, read_loop,
}
use openlv_rs.Channel.Ntfy.Reading.Payloads.{texts, payloads, any_open, read_loop_lem}

-- The empty text is the open event, any other a message with itself; a long one has an attachment.
abbrev parse : Text → Option NtfyEvent
parse [] = some (record { event = some (text "open"); message = none; attachment_url = none })
parse (b ∷ []) =
    some (record { event = some (text "message"); message = some (b ∷ []); attachment_url = none })
parse t = some (record { event = some (text "message"); message = some t; attachment_url = some t })

abbrev gone : Text → Option Text
gone url = none

abbrev items : List Received
items =
    text_frame []
    ∷ (ignored
        ∷ (text_frame (7 ∷ [])
            ∷ (text_frame (7 ∷ (8 ∷ [])) ∷ (stream_closed ∷ (text_frame (9 ∷ []) ∷ [])))))

read_loop_lem_example :
    ((read_loop parse gone true items).delivered ≡ payloads parse gone (texts items))
    × ((read_loop parse gone true items).opened ≡ any_open parse gone (texts items))
    × ((read_loop parse gone false items).delivered ≡ [])
read_loop_lem_example = read_loop_lem parse gone items
