-- ===== src/Request/Continue.antt =====
-- The effective prompt mode of a decoded request (internal/logic/prefill_continue.go).
use chat_rag.Common.{
  if◌then◌else◌, is_empty, Text, text, text_eq, text_eq_comm, ◌≡◌, refl, ap, ◌∙◌, Bool, true, false,
  ◌&&◌, ◌||◌, none, some, arith,
}
use chat_rag.Types.{arr, Fields}
use chat_rag.Json.{get}
use chat_rag.Request.{
  ExtraBody, at_key, messages_of, priority_of, extra_body_of, zero_extra_body, decode_params,
  is_true, last_of, list_or_nil, is_prefill_at, has_continuation_marker,
  resolve_effective_prompt_mode,
}
use chat_rag.Request.Params.{messages-extra_body, messages-priority, extra_body-priority}
use chat_rag.Request.Marked.{ends_marked, is_prefill_at-read_at}
use chat_rag.Request.Taken.{left_by_key, read_at, value_at_key}

messages-continue : text_eq (text "messages") (text "continue_final_message") ≡ false
unfolding text_eq
messages-continue = refl

extra_body-continue : text_eq (text "extra_body") (text "continue_final_message") ≡ false
unfolding text_eq
extra_body-continue = refl

priority-continue : text_eq (text "priority") (text "continue_final_message") ≡ false
unfolding text_eq
priority-continue = refl

extra-decode_params :
    (key : Text) (raw : Fields)
    → text_eq (text "messages") key ≡ false
    → text_eq (text "extra_body") key ≡ false
    → text_eq (text "priority") key ≡ false
    → get key (decode_params raw).extra ≡ get key raw
unfolding decode_params
extra-decode_params key raw e f g =
    let raw1 : Fields = (at_key (text "priority") priority_of none raw).1 in
    let raw2 : Fields = (at_key (text "extra_body") extra_body_of zero_extra_body raw1).1 in
    rw
      (
        left_by_key key (text "messages") messages_of none raw2,
        e,
        left_by_key key (text "extra_body") extra_body_of zero_extra_body raw1,
        f,
        left_by_key key (text "priority") priority_of none raw,
        g,
      )
      refl

extra_body-decode_params :
    (raw : Fields)
    → (decode_params raw).extra_body
      ≡ read_at extra_body_of zero_extra_body (get (text "extra_body") raw)
unfolding decode_params
extra_body-decode_params raw =
    let raw1 : Fields = (at_key (text "priority") priority_of none raw).1 in
    value_at_key (text "extra_body") extra_body_of zero_extra_body raw1
    ∙ ap (read_at extra_body_of zero_extra_body)
        (left_by_key (text "extra_body") (text "priority") priority_of none raw ∙ priority_apart)
  where
    priority_apart :
        (if text_eq (text "priority") (text "extra_body")
          then none
          else get (text "extra_body") raw)
        ≡ get (text "extra_body") raw
    priority_apart =
        rw (text_eq_comm (text "priority") (text "extra_body"), extra_body-priority) refl

messages-decode_params :
    (raw : Fields)
    → (decode_params raw).messages ≡ read_at messages_of none (get (text "messages") raw)
unfolding decode_params
messages-decode_params raw =
    let raw1 : Fields = (at_key (text "priority") priority_of none raw).1 in
    let raw2 : Fields = (at_key (text "extra_body") extra_body_of zero_extra_body raw1).1 in
    value_at_key (text "messages") messages_of none raw2
    ∙ ap (read_at messages_of none) (
        left_by_key (text "messages") (text "extra_body") extra_body_of zero_extra_body raw1
        ∙ rw
            (
              text_eq_comm (text "extra_body") (text "messages"),
              messages-extra_body,
              left_by_key (text "messages") (text "priority") priority_of none raw,
              text_eq_comm (text "priority") (text "messages"),
              messages-priority,
            )
            refl)

abbrev pub asks_to_continue : Fields → Bool
asks_to_continue raw =
    is_true (get (text "continue_final_message") raw)
    || (elim (get (text "messages") raw) [ some (arr js) ↦ ends_marked js | _ ↦ false ])

or_if : (a b : Bool) → (if a then true else b) ≡ (a || b)
or_if a b = ground arith

has_continuation_marker-decode_params :
    (raw : Fields) → has_continuation_marker (decode_params raw) ≡ asks_to_continue raw
unfolding has_continuation_marker
has_continuation_marker-decode_params raw =
    let top =
      extra-decode_params (text "continue_final_message") raw messages-continue extra_body-continue
        priority-continue in
    let last = is_prefill_at-read_at (get (text "messages") raw) in
    ap
      (λ o.
        if is_true o
        then true
        else is_prefill_at (last_of (list_or_nil (decode_params raw).messages)))
      top
    ∙ ap
        (λ ms.
          if is_true (get (text "continue_final_message") raw)
          then true
          else is_prefill_at (last_of (list_or_nil ms)))
        (messages-decode_params raw)
    ∙ ap (λ b. if is_true (get (text "continue_final_message") raw) then true else b) last
    ∙ or_if (is_true (get (text "continue_final_message") raw)) _

-- The mode by which a decoded request is routed is the prompt mode that its extra body names. Where it
-- names none it is `raw` if the request, as it came, has `continue_final_message` set to true, or its
-- messages are a list of objects and nulls that ends with an assistant's message whose `partial` or
-- `prefix` is true; else it is empty.
pub resolve_effective_prompt_mode-decode_params :
    (raw : Fields)
    → resolve_effective_prompt_mode (decode_params raw) ≡ (
        let mode =
          (read_at extra_body_of zero_extra_body (get (text "extra_body") raw)).prompt_mode in
        if is_empty mode && asks_to_continue raw then text "raw" else mode)
unfolding resolve_effective_prompt_mode
resolve_effective_prompt_mode-decode_params raw =
    let chosen : Bool → ExtraBody → Text =
      λ b e. if is_empty e.prompt_mode && b then text "raw" else e.prompt_mode in
    ap (λ b. chosen b (decode_params raw).extra_body) (has_continuation_marker-decode_params raw)
    ∙ ap (chosen (asks_to_continue raw)) (extra_body-decode_params raw)
