-- ===== src/Chat/Window/Samples.antt =====
-- The theorems on a stream at two lines and the last one.
use chat_rag.Common.{
  pos, Text, text, text_eq, has_prefix, replace_from, replace_all, ◌≡◌, refl, inl, true, false,
  Option, none, some, List, [], ◌∷◌, ◌++◌,
}
use chat_rag.Types.{str, arr, obj, nil, cons, Fields, end, field}
use chat_rag.Json.{get}
use chat_rag.Chat.Chunks.{extract_streaming_data}
use chat_rag.Chat.Window.{StreamEnv, process_stream, complete_stream_response, new_stream_state}
use chat_rag.Chat.Window.Leaves.{Leaves, text_sent}
use chat_rag.Chat.Window.Delivered.{Arrived, process_stream-Arrived}
use chat_rag.Chat.Window.Complete.{complete_stream_response-process_stream}

-- Every line parses to a chunk with its data as the content.
abbrev parsed : Text → Option Fields
parsed t = some (
    field (text "choices")
      (arr (cons (obj (field (text "delta") (obj (field (text "content") (str t) end)) end)) nil))
      end)

abbrev env : StreamEnv Unit
env = record {
  parse = parsed;
  write_ok = λ _. true;
  since = λ _. 0;
  has_writer = true;
  ordered_models = text "m" ∷ [];
  model = text "m";
  tools = none;
  processed_tokens = pos 1;
  count_tokens = λ _. pos 1;
}

abbrev lines : List Text
lines = text "data: hello " ∷ text "data: world" ∷ []

abbrev both : Text
both = text "hello world"

process_stream-Arrived_example : Leaves (Arrived both) (process_stream env 1 lines new_stream_state)
unfolding extract_streaming_data get text_eq has_prefix
process_stream-Arrived_example =
    process_stream-Arrived env 1 lines [] new_stream_state (refl, (refl, tt))
      (inl (refl, refl, refl, refl, refl, refl))

complete_stream_response-process_stream_example :
    Leaves
      (λ s.
        s.tool_detected ≡ false
        → Leaves
            (λ t. (text_sent t.sent ≡ 10 ∷ both) × (t.logged_content ≡ some both))
            (complete_stream_response env s))
      (process_stream env 1 (lines ++ text "data: [DONE]" ∷ []) new_stream_state)
unfolding extract_streaming_data get text_eq has_prefix replace_all replace_from
complete_stream_response-process_stream_example =
    complete_stream_response-process_stream env 1 lines (text "data: [DONE]") (refl, (refl, tt))
      refl refl
