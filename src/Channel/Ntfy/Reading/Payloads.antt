-- ===== src/Channel/Ntfy/Reading/Payloads.antt =====
-- What the reading of a WebSocket delivers, said without its loop.
use openlv_rs.Prelude.{
  ◌≡◌, refl, Bool, true, false, List, [], ◌∷◌, Option, none, some, inl, inr, Bool-cases,
  Option-cases, if◌then◌else◌, ap, ◌∙◌, arith,
}
use openlv_rs.Text.{Text, text, bytes_eq}
use openlv_rs.Text.Laws.{bytes_eq_iff}
use openlv_rs.Channel.Ntfy.Reading.{
  Received, shut_down, stream_closed, ignored, text_frame, NtfyEvent, Reading, body_of, is_event,
  on_event, on_text, read_loop,
}

-- Independently of the loop: the texts before the task ends.
abbrev pub texts : List Received → List Text
texts [] = []
texts (shut_down ∷ more) = []
texts (stream_closed ∷ more) = []
texts (ignored ∷ more) = texts more
texts (text_frame t ∷ more) = t ∷ texts more

message-not_open : bytes_eq (text "open") (text "message") ≡ false
unfolding text bytes_eq
message-not_open = refl

open-not_message :
    (e : NtfyEvent) → is_event (text "open") e ≡ true → is_event (text "message") e ≡ false
unfolding is_event
open-not_message e h = elim (Option-cases e.event) [
  | inl n ↦ rw n refl
  | inr (x, s) ↦
      let same : x ≡ text "open" = (bytes_eq_iff x (text "open")).0 (rw (is_event, s) at h) in
      rw (is_event, s, same) message-not_open
]

module _ (parse : Text → Option NtfyEvent) (fetch : Text → Option Text) where
  -- Independently of the code: the payload of an event with these members. It is the message of a
  -- message event, or the text behind its attachment where there is one.
  pub payload_of_members : Option Text → Option Text → Option Text → Option Text
  payload_of_members (some name) (some body) none =
      if bytes_eq name (text "message") then some body else none
  payload_of_members (some name) (some body) (some url) =
      if bytes_eq name (text "message") then fetch url else none
  payload_of_members name body url = none

  pub payload_of : Text → Option Text
  unfolding payload_of_members
  payload_of t = elim (parse t) [
    | none ↦ none
    | some e ↦ payload_of_members e.event e.message e.attachment_url
  ]

  -- What the code makes of an event is its payload.
  members-body_of :
      (name body url : Option Text)
      → let e : NtfyEvent = record { event = name; message = body; attachment_url = url } in
        payload_of_members name body url
        ≡ (if is_event (text "message") e then body_of parse fetch e else none)
  unfolding payload_of_members body_of is_event
  members-body_of none body url = refl
  members-body_of (some name) (some body) none = refl
  members-body_of (some name) (some body) (some url) = refl
  members-body_of (some name) none url = ground arith

  pub payloads : List Text → List Text
  unfolding payload_of
  payloads [] = []
  payloads (t ∷ ts) =
      let rest = payloads ts in elim (payload_of t) [ none ↦ rest | some body ↦ body ∷ rest ]

  pub is_open : Text → Bool
  unfolding is_event
  is_open t = elim (parse t) [ none ↦ false | some e ↦ is_event (text "open") e ]

  pub any_open : List Text → Bool
  unfolding is_open
  any_open [] = false
  any_open (t ∷ ts) = let rest = any_open ts in if is_open t then true else rest

  read_text_lem :
      (t : Text) (rest : Reading) (ts : List Text)
      → rest.delivered ≡ payloads ts
      → rest.opened ≡ any_open ts
      → ((on_text parse fetch true t rest).delivered ≡ payloads (t ∷ ts))
        × ((on_text parse fetch true t rest).opened ≡ any_open (t ∷ ts))
  unfolding on_text on_event payloads payload_of any_open is_open
  read_text_lem t rest ts d o = elim (Option-cases (parse t)) [
    | inl n ↦ rw (on_text, payloads, payload_of, any_open, is_open, n) (d, o)
    | inr (e, s) ↦ elim (Bool-cases (is_event (text "open") e)) [
      | inl a ↦
          rw
            (
              on_text,
              on_event,
              payloads,
              payload_of,
              any_open,
              is_open,
              s,
              members-body_of e.event e.message e.attachment_url,
              a,
              open-not_message e a,
            )
            (d, refl)
      | inr a ↦ elim (Bool-cases (is_event (text "message") e)) [
        | inr b ↦
            rw
              (
                on_text,
                on_event,
                payloads,
                payload_of,
                any_open,
                is_open,
                s,
                members-body_of e.event e.message e.attachment_url,
                a,
                b,
              )
              (d, o)
        | inl b ↦ elim (Option-cases (body_of parse fetch e)) [
          | inl n ↦
              rw
                (
                  on_text,
                  on_event,
                  payloads,
                  payload_of,
                  any_open,
                  is_open,
                  s,
                  members-body_of e.event e.message e.attachment_url,
                  a,
                  b,
                  n,
                )
                (d, o)
          | inr (body, n) ↦
              rw
                (
                  on_text,
                  on_event,
                  payloads,
                  payload_of,
                  any_open,
                  is_open,
                  s,
                  members-body_of e.event e.message e.attachment_url,
                  a,
                  b,
                  n,
                )
                (ap (λ xs. body ∷ xs) d, o)
        ]
      ]
    ]
  ]

  handled_loop :
      (items : List Received)
      → ((read_loop parse fetch true items).delivered ≡ payloads (texts items))
        × ((read_loop parse fetch true items).opened ≡ any_open (texts items))
  unfolding read_loop payloads any_open
  handled_loop [] = (refl, refl)
  handled_loop (shut_down ∷ more) = (refl, refl)
  handled_loop (stream_closed ∷ more) = (refl, refl)
  handled_loop (ignored ∷ more) = handled_loop more
  handled_loop (text_frame t ∷ more) =
      let (d, o) = handled_loop more in
      read_text_lem t (read_loop parse fetch true more) (texts more) d o

  unhandled_text :
      (t : Text) (rest : Reading) → (on_text parse fetch false t rest).delivered ≡ rest.delivered
  unfolding on_text on_event
  unhandled_text t rest = elim (Option-cases (parse t)) [
    | inl n ↦ rw (on_text, n) refl
    | inr (e, s) ↦ elim (Bool-cases (is_event (text "open") e)) [
      | inl a ↦ rw (on_text, on_event, s, a) refl
      | inr a ↦ elim (Bool-cases (is_event (text "message") e)) [
        | inr b ↦ rw (on_text, on_event, s, a, b) refl
        | inl b ↦ elim (Option-cases (body_of parse fetch e)) [
          | inl n ↦ rw (on_text, on_event, s, a, b, n) refl
          | inr (body, n) ↦ rw (on_text, on_event, s, a, b, n) refl
        ]
      ]
    ]
  ]

  unhandled_loop : (items : List Received) → (read_loop parse fetch false items).delivered ≡ []
  unfolding read_loop
  unhandled_loop [] = refl
  unhandled_loop (shut_down ∷ more) = refl
  unhandled_loop (stream_closed ∷ more) = refl
  unhandled_loop (ignored ∷ more) = unhandled_loop more
  unhandled_loop (text_frame t ∷ more) =
      unhandled_text t (read_loop parse fetch false more) ∙ unhandled_loop more

  -- Whatever the task receives: with a handler it delivers exactly the payloads of the message events
  -- before it is shut down or the stream ends, each once and in their order, an attachment in place
  -- of its message and nothing where it cannot be fetched; without a handler it delivers nothing; and
  -- it confirms the open exactly where one of these events is the open event.
  pub read_loop_lem :
      (items : List Received)
      → ((read_loop parse fetch true items).delivered ≡ payloads (texts items))
        × ((read_loop parse fetch true items).opened ≡ any_open (texts items))
        × ((read_loop parse fetch false items).delivered ≡ [])
  read_loop_lem items = let (d, o) = handled_loop items in (d, o, unhandled_loop items)
