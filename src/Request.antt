-- ===== src/Request.antt =====
-- Decoding and encoding a request with the fields that the service does not know: the `UnmarshalJSON`
-- and `MarshalJSON` of internal/types/request.go on values that `encoding/json` has parsed, and
-- internal/logic/prefill_continue.go. A number is an integer here.
mod Taken
pub mod Passthrough
pub mod Params
pub mod Body
pub mod Marked
pub mod Continue
mod Samples
use chat_rag.Common.{
  if◌then◌else◌, is_empty, ℤ, Text, text, text_eq, Bool, true, false, ◌&&◌, ◌||◌, Option, none,
  some, List, [], ◌∷◌, map,
}
use chat_rag.Types.{
  Json, null, str, num, arr, obj, bool, Items, nil, cons, Fields, end, field, Content, absent,
  string, list, parts, other, ContentPart, Message,
}
use chat_rag.Json.{int_of, whole, get, delete, put, merge}

abbrev list_of : Items → List Json
list_of nil = []
list_of (cons j js) = j ∷ list_of js

abbrev items_of : List Json → Items
items_of [] = nil
items_of (j ∷ js) = cons j (items_of js)

-- The dynamic type of a decoded `content`.
abbrev pub content_of : Json → Content
content_of null = absent
content_of (str s) = string s
content_of (arr js) = list (list_of js)
content_of (bool b) = other (bool b)
content_of (num n) = other (num n)
content_of (obj fs) = other (obj fs)

-- A `model.Content`; an absent `cache_control` is left out.
abbrev json_of_part : ContentPart → Json
json_of_part p =
    let rest : Fields = elim p.cache_control [
      | none ↦ end
      | some c ↦ field (text "cache_control") c end
    ] in
    obj (field (text "type") (str p.kind) (field (text "text") (str p.text_body) rest))

abbrev pub json_of : Content → Json
json_of absent = null
json_of (string s) = str s
json_of (list js) = arr (items_of js)
json_of (parts ps) = arr (items_of (map json_of_part ps))
json_of (other j) = j

abbrev pub zero_message : Message
zero_message = record { role = []; content = absent; extra = end }

-- `raw[key].(string)`: the string and the map without it, or the map.
abbrev pub string_taken : Text → Fields → Option Json → Text × Fields
string_taken key raw (some (str s)) = (s, delete key raw)
string_taken key raw _ = ([], raw)

abbrev pub take_string : Text → Fields → Text × Fields
take_string key raw = string_taken key raw (get key raw)

abbrev pub message_with : Text → Fields → Option Json → Message
message_with role rest (some c) = record {
  role = role;
  content = content_of c;
  extra = delete (text "content") rest;
}
message_with role rest none = record { role = role; content = absent; extra = rest }

-- `Message.UnmarshalJSON`, into the zero message.
pub decode_message : Fields → Message
decode_message raw =
    let (role, rest) = take_string (text "role") raw in
    message_with role rest (get (text "content") rest)

-- `Message.MarshalJSON`.
pub encode_message : Message → Fields
encode_message m =
    merge m.extra (put (text "content") (json_of m.content) (put (text "role") (str m.role) end))

pub record ExtraBody : Type 0 where
  pub prompt_mode : Text
  pub mode : Text
  pub extra : Fields

abbrev pub zero_extra_body : ExtraBody
zero_extra_body = record { prompt_mode = []; mode = []; extra = end }

pub decode_extra_body : Fields → ExtraBody
decode_extra_body raw =
    let (prompt_mode, raw1) = take_string (text "prompt_mode") raw in
    let (mode, raw2) = take_string (text "mode") raw1 in
    record { prompt_mode = prompt_mode; mode = mode; extra = raw2 }

-- `if v != "" { result[key] = v }`.
abbrev put_nonempty : Text → Text → Fields → Fields
put_nonempty key v m = if is_empty v then m else put key (str v) m

pub encode_extra_body : ExtraBody → Fields
encode_extra_body e =
    merge e.extra
      (put_nonempty (text "mode") e.mode (put_nonempty (text "prompt_mode") e.prompt_mode end))

pub record LlmRequestParams : Type 0 where
  pub priority : Option ℤ
  pub extra_body : ExtraBody
  pub messages : Option (List Message)
  pub extra : Fields

-- `json.Unmarshal` into the zero `ExtraBody`, its error ignored.
abbrev pub extra_body_of : Json → ExtraBody
extra_body_of (obj fs) = decode_extra_body fs
extra_body_of _ = zero_extra_body

-- `json.Unmarshal` into a nil slice, its error ignored: at the first element that is neither an
-- object nor null the slice ends, after a zero message.
abbrev pub messages_of_items : Items → List Message
messages_of_items nil = []
messages_of_items (cons (obj fs) js) = decode_message fs ∷ messages_of_items js
messages_of_items (cons null js) = zero_message ∷ messages_of_items js
messages_of_items (cons (bool b) js) = zero_message ∷ []
messages_of_items (cons (num n) js) = zero_message ∷ []
messages_of_items (cons (str s) js) = zero_message ∷ []
messages_of_items (cons (arr a) js) = zero_message ∷ []

abbrev pub messages_of : Json → Option (List Message)
messages_of (arr js) = some (messages_of_items js)
messages_of _ = none

-- `int(priority.(float64))`.
abbrev pub priority_of : Json → Option ℤ
priority_of (num f) = some (int_of f)
priority_of _ = none

-- What is read at a key that is there; the key then goes.
abbrev pub value_taken : {A : Type 0} → Text → (Json → A) → A → Fields → Option Json → A × Fields
value_taken key read unset raw none = (unset, raw)
value_taken key read unset raw (some v) = (read v, delete key raw)

abbrev pub at_key : {A : Type 0} → Text → (Json → A) → A → Fields → A × Fields
at_key key read unset raw = value_taken key read unset raw (get key raw)

pub decode_params : Fields → LlmRequestParams
decode_params raw =
    let (priority, raw1) = at_key (text "priority") priority_of none raw in
    let (extra_body, raw2) = at_key (text "extra_body") extra_body_of zero_extra_body raw1 in
    let (messages, raw3) = at_key (text "messages") messages_of none raw2 in
    record { priority = priority; extra_body = extra_body; messages = messages; extra = raw3 }

abbrev is_end : Fields → Bool
is_end end = true
is_end (field k v rest) = false

abbrev pub put_some : Text → Option Json → Fields → Fields
put_some key none m = m
put_some key (some v) m = put key v m

abbrev pub extra_body_json : ExtraBody → Option Json
extra_body_json e =
    if is_empty e.prompt_mode && (is_empty e.mode && is_end e.extra)
    then none
    else some (obj (encode_extra_body e))

abbrev pub messages_json : Option (List Message) → Option Json
messages_json none = none
messages_json (some ms) = some (arr (items_of (map (λ m. obj (encode_message m)) ms)))

abbrev pub priority_json : Option ℤ → Option Json
priority_json none = none
priority_json (some n) = some (num (whole n))

pub encode_params : LlmRequestParams → Fields
encode_params p = merge p.extra (
    put_some (text "messages") (messages_json p.messages) (
      put_some (text "extra_body") (extra_body_json p.extra_body)
        (put_some (text "priority") (priority_json p.priority) end)))

-- `ChatCompletionRequest`, with the embedded `LLMRequestParams` as a field.
pub record ChatCompletionRequest : Type 0 where
  pub model : Text
  pub params : LlmRequestParams

pub decode_request : Fields → ChatCompletionRequest
decode_request raw =
    let (model, rest) = take_string (text "model") raw in
    record { model = model; params = decode_params rest }

abbrev pub is_true : Option Json → Bool
is_true (some (bool b)) = b
is_true _ = false

abbrev pub last_of : List Message → Option Message
last_of [] = none
last_of (m ∷ []) = some m
last_of (m ∷ n ∷ ms) = last_of (n ∷ ms)

-- `range` over a nil slice.
abbrev pub list_or_nil : Option (List Message) → List Message
list_or_nil none = []
list_or_nil (some ms) = ms

abbrev pub is_prefill : Message → Bool
is_prefill m =
    if text_eq m.role (text "assistant")
    then is_true (get (text "partial") m.extra) || is_true (get (text "prefix") m.extra)
    else false

abbrev pub is_prefill_at : Option Message → Bool
is_prefill_at none = false
is_prefill_at (some m) = is_prefill m

pub has_continuation_marker : LlmRequestParams → Bool
has_continuation_marker p =
    if is_true (get (text "continue_final_message") p.extra)
    then true
    else is_prefill_at (last_of (list_or_nil p.messages))

pub resolve_effective_prompt_mode : LlmRequestParams → Text
resolve_effective_prompt_mode p =
    let mode = p.extra_body.prompt_mode in
    if is_empty mode && has_continuation_marker p then text "raw" else mode
