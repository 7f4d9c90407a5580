-- ===== src/Chat/Chunks.antt =====
-- What a line of an upstream stream says: `extractStreamingData` and `extractSSEFunctionResp` of
-- internal/logic/response_handler.go. Parsing a line as a JSON object is a parameter.
use chat_rag.Common.{
  if◌then◌else◌, drop, is_empty, ℤ, eqb_ℤ, pos, Text, text, text_eq, has_prefix, not, ◌||◌, Option,
  none, some, List, [], ◌∷◌, ◌++◌,
}
use chat_rag.Types.{Json, str, num, arr, obj, Items, nil, cons, Fields}
use chat_rag.Json.{int_of, get}

pub record Usage : Type 0 where
  pub prompt_tokens : ℤ
  pub completion_tokens : ℤ
  pub total_tokens : ℤ
  pub cached_tokens : ℤ

abbrev pub no_usage : Usage
no_usage = record {
  prompt_tokens = pos 0;
  completion_tokens = pos 0;
  total_tokens = pos 0;
  cached_tokens = pos 0;
}

-- `ChatCompletionResponse` without its choices, which the sender of a content sets.
pub record Response : Type 0 where
  pub id : Text
  pub object : Text
  pub created : ℤ
  pub model : Text
  pub usage : Usage

-- `v.(string)`, `int(v.(float64))` and `v.(map[string]interface{})`, with what stands for a failure.
abbrev pub string_or : Text → Option Json → Text
string_or other (some (str s)) = s
string_or other _ = other

abbrev pub num_or : ℤ → Option Json → ℤ
num_or other (some (num f)) = int_of f
num_or other _ = other

abbrev pub object_at : Option Json → Option Fields
object_at (some (obj fs)) = some fs
object_at _ = none

-- The first element of a list.
abbrev pub first_at : Option Json → Option Json
first_at (some (arr (cons j js))) = some j
first_at _ = none

-- `m[key]` of a map that may be missing.
abbrev pub at : Text → Option Fields → Option Json
at key none = none
at key (some fs) = get key fs

-- `choices[0].delta`.
abbrev pub delta_of : Fields → Option Fields
delta_of chunk = object_at (at (text "delta") (object_at (first_at (get (text "choices") chunk))))

abbrev pub response_of : Fields → Response
response_of chunk = record {
  id = string_or [] (get (text "id") chunk);
  object = string_or [] (get (text "object") chunk);
  created = num_or (pos 0) (get (text "created") chunk);
  model = string_or [] (get (text "model") chunk);
  usage = no_usage;
}

abbrev cached_in_details : Fields → ℤ
cached_in_details usage =
    num_or (pos 0)
      (at (text "cached_tokens") (object_at (get (text "prompt_tokens_details") usage)))

abbrev cached_of : Fields → Option Json → ℤ
cached_of usage (some (num f)) = int_of f
cached_of usage _ = cached_in_details usage

abbrev pub usage_of : Option Fields → Option Usage
usage_of none = none
usage_of (some usage) = some (record {
  prompt_tokens = num_or (pos 0) (get (text "prompt_tokens") usage);
  completion_tokens = num_or (pos 0) (get (text "completion_tokens") usage);
  total_tokens = num_or (pos 0) (get (text "total_tokens") usage);
  cached_tokens = cached_of usage (get (text "cached_tokens") usage);
})

pub record StreamingData : Type 0 where
  pub content : Text
  pub usage : Option Usage
  pub response : Option Response

abbrev pub no_data : StreamingData
no_data = record { content = []; usage = none; response = none }

abbrev pub data_prefix : Text
data_prefix = text "data: "

abbrev pub done_mark : Text
done_mark = text "[DONE]"

abbrev pub chunk_data : Option Fields → StreamingData
chunk_data none = no_data
chunk_data (some chunk) = record {
  content = string_or [] (at (text "content") (delta_of chunk));
  usage = usage_of (object_at (get (text "usage") chunk));
  response = some (response_of chunk);
}

unfoldable pub extract_streaming_data : (Text → Option Fields) → Text → StreamingData
extract_streaming_data parse raw_line =
    let json_data = drop 6 raw_line in
    if not (has_prefix raw_line data_prefix)
    then no_data
    else if text_eq json_data done_mark
    then record { content = done_mark; usage = none; response = none }
    else chunk_data (parse json_data)

pub record ToolCallInfo : Type 0 where
  pub id : Text
  pub kind : Text
  pub name : Text
  pub arguments : Text

abbrev pub no_call : ToolCallInfo
no_call = record { id = []; kind = []; name = []; arguments = [] }

pub record ResponseContent : Type 0 where
  pub role : Text
  pub content : Text
  pub reasoning_content : Text

-- A `map[int]*ToolCallInfo`, where the first entry of an index counts.
abbrev pub ToolCalls : Type 0
ToolCalls = List (ℤ × ToolCallInfo)

abbrev pub call_at : ℤ → ToolCalls → Option ToolCallInfo
call_at i [] = none
call_at i ((j, c) ∷ cs) = let rest = call_at i cs in if eqb_ℤ j i then some c else rest

-- `if s, ok := v.(string); ok && s != ""`.
abbrev nonempty_or : Text → Option Json → Text
nonempty_or other (some (str s)) = if is_empty s then other else s
nonempty_or other _ = other

abbrev pub updated_call : Fields → Option ToolCallInfo → ToolCallInfo
updated_call fs known =
    let c : ToolCallInfo = elim known [ none ↦ no_call | some c ↦ c ] in
    let function : Option Fields = object_at (get (text "function") fs) in
    record {
      id = nonempty_or c.id (get (text "id") fs);
      kind = nonempty_or c.kind (get (text "type") fs);
      name = nonempty_or c.name (at (text "name") function);
      arguments = c.arguments ++ string_or [] (at (text "arguments") function);
    }

-- The loop over `tool_calls`.
abbrev pub add_calls : Items → ToolCalls → ToolCalls
add_calls nil calls = calls
add_calls (cons (obj fs) js) calls =
    let index = num_or (pos 0) (get (text "index") fs) in
    add_calls js ((index, updated_call fs (call_at index calls)) ∷ calls)
add_calls (cons _ js) calls = add_calls js calls

abbrev calls_in : Option Json → ToolCalls → ToolCalls
calls_in (some (arr js)) calls = add_calls js calls
calls_in _ calls = calls

abbrev add_delta : Option Fields → ResponseContent → ToolCalls → ResponseContent × ToolCalls
add_delta none accumulated calls = (accumulated, calls)
add_delta (some delta) accumulated calls = (
  record {
    role = nonempty_or accumulated.role (get (text "role") delta);
    content = accumulated.content ++ string_or [] (get (text "content") delta);
    reasoning_content =
        accumulated.reasoning_content ++ string_or [] (get (text "reasoning_content") delta);
  },
  calls_in (get (text "tool_calls") delta) calls,
)

abbrev delta_in : Option Fields → Option Fields
delta_in none = none
delta_in (some chunk) = delta_of chunk

pub extract_sse_function_resp :
    (Text → Option Fields) → Text → ResponseContent → ToolCalls → ResponseContent × ToolCalls
extract_sse_function_resp parse raw_line accumulated calls =
    let json_data = drop 6 raw_line in
    if not (has_prefix raw_line data_prefix) || text_eq json_data done_mark
    then (accumulated, calls)
    else add_delta (delta_in (parse json_data)) accumulated calls
