-- ===== src/Channel/Ntfy/Reading.antt =====
-- The task of signaling/ntfy/mod.rs that reads the WebSocket: the open event ends the wait of the
-- setup, and the messages go to the handler.
pub mod Payloads
mod Tests
use openlv_rs.Prelude.{
  ◌≡◌, refl, Bool, true, false, List, [], ◌∷◌, ◌++◌, Option, none, some, inl, inr, Bool-cases,
  Option-cases, if◌then◌else◌, ◌||◌, ap,
}
use openlv_rs.Text.{Text, text, bytes_eq}

-- What the task selects: the shutdown, a text, the close or the end of the stream, anything else.
pub data Received : Type 0 where
  shut_down stream_closed ignored : Received
  text_frame : Text → Received

-- The members of an event that the code reads, where they are there and strings.
pub record NtfyEvent : Type 0 where
  pub event : Option Text
  pub message : Option Text
  pub attachment_url : Option Text

-- What the reading leaves: whether the open event was seen, and the payloads that the handler got,
-- in order.
pub record Reading : Type 0 where
  pub opened : Bool
  pub delivered : List Text

is_event : Text → NtfyEvent → Bool
is_event name e = elim e.event [ none ↦ false | some event ↦ bytes_eq event name ]

-- `parse` reads the JSON of a text, `fetch` gets the text of an attachment.
module _ (parse : Text → Option NtfyEvent) (fetch : Text → Option Text) where
  -- The payload of a message: its attachment where it has one.
  unfoldable pub body_of : NtfyEvent → Option Text
  body_of e = elim e.message [
    | none ↦ none
    | some body ↦ elim e.attachment_url [ none ↦ some body | some url ↦ fetch url ]
  ]

  -- One event, with the rest of the reading behind it; without a handler a payload is dropped.
  unfoldable pub on_event : Bool → NtfyEvent → Reading → Reading
  unfolding is_event body_of
  on_event has_handler e rest =
      if is_event (text "open") e
      then record rest { opened = true }
      else if is_event (text "message") e
      then elim (body_of e) [
        | none ↦ rest
        | some body ↦
            if has_handler then record rest { delivered = body ∷ rest.delivered } else rest
      ]
      else rest

  unfoldable pub on_text : Bool → Text → Reading → Reading
  unfolding on_event
  on_text has_handler t rest = elim (parse t) [ none ↦ rest | some e ↦ on_event has_handler e rest ]

  -- The loop, on what the task receives.
  unfoldable pub read_loop : Bool → List Received → Reading
  unfolding on_text
  read_loop has_handler [] = record { opened = false; delivered = [] }
  read_loop has_handler (shut_down ∷ more) = record { opened = false; delivered = [] }
  read_loop has_handler (stream_closed ∷ more) = record { opened = false; delivered = [] }
  read_loop has_handler (ignored ∷ more) = read_loop has_handler more
  read_loop has_handler (text_frame t ∷ more) = on_text has_handler t (read_loop has_handler more)
