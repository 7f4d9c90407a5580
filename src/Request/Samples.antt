-- ===== src/Request/Samples.antt =====
-- The theorems on decoding and encoding at concrete requests.
use chat_rag.Common.{pos, negsuc, text, text_eq, ◌≡◌, refl, true, none, some, []}
use chat_rag.Types.{str, num, arr, obj, bool, nil, cons, Fields, end, field}
use chat_rag.Json.{int_of, whole, get}
use chat_rag.Request.{
  encode_message, decode_message, encode_params, decode_params, encode_extra_body,
  decode_extra_body, resolve_effective_prompt_mode,
}
use chat_rag.Request.Passthrough.{get-encode_message-decode_message}
use chat_rag.Request.Params.{get-encode_params-decode_params}
use chat_rag.Request.Body.{get-encode_extra_body-decode_extra_body}
use chat_rag.Request.Continue.{resolve_effective_prompt_mode-decode_params}

abbrev spoken : Fields
spoken = field (text "role") (str (text "user")) (field (text "name") (str (text "ann")) end)

abbrev asked : Fields
asked = field (text "stream") (bool true) (
    field (text "continue_final_message") (bool true)
      (field (text "messages") (arr (cons (obj spoken) nil)) end))

-- A request whose last message is the beginning of an answer.
abbrev answer : Fields
answer = field (text "role") (str (text "assistant")) (field (text "prefix") (bool true) end)

abbrev begun : Fields
begun =
    field (text "priority") (num (record { mantissa = pos 5; halvings = 1; beyond = pos 0 }))
      (field (text "messages") (arr (cons (obj spoken) (cons (obj answer) nil))) end)

abbrev body : Fields
body = field (text "mode") (str []) (field (text "seed") (num (whole (pos 3))) end)

-- int(-3.5)
half_cut : int_of (record { mantissa = negsuc 6; halvings = 1; beyond = pos 0 }) ≡ negsuc 2
unfolding int_of
half_cut = refl

get-encode_message-decode_message_example :
    get (text "name") (encode_message (decode_message spoken)) ≡ some (str (text "ann"))
unfolding get text_eq
get-encode_message-decode_message_example = get-encode_message-decode_message (text "name") spoken

get-encode_params-decode_params_example :
    get (text "priority") (encode_params (decode_params begun)) ≡ some (num (whole (pos 2)))
unfolding get text_eq int_of
get-encode_params-decode_params_example = get-encode_params-decode_params (text "priority") begun

get-encode_extra_body-decode_extra_body_example :
    get (text "mode") (encode_extra_body (decode_extra_body body)) ≡ none
unfolding get text_eq
get-encode_extra_body-decode_extra_body_example =
    get-encode_extra_body-decode_extra_body (text "mode") body

resolve_effective_prompt_mode-decode_params_example :
    resolve_effective_prompt_mode (decode_params begun) ≡ text "raw"
unfolding get text_eq
resolve_effective_prompt_mode-decode_params_example =
    resolve_effective_prompt_mode-decode_params begun
