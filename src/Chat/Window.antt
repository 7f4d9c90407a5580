-- ===== src/Chat/Window.antt =====
-- One streaming attempt of internal/logic/chat.go: `handleStreamChunk`, `detectAndHandleTool` and
-- `completeStreamResponse`. The state is that of `streamState` with what the attempt writes of the
-- request's: what was sent to the client, the usage, whether the stream is committed, the header,
-- the idle timer's flag and the chat log's entries. The latency of the whole and
-- the texts of the log lines are left out.
pub mod Leaves
pub mod Invariant
pub mod Delivered
pub mod Ended
pub mod Complete
pub mod Writes
mod Samples
use chat_rag.Common.{
  ltb, leb, if◌then◌else◌, length, take, drop, is_empty, concat, ℤ, ◌+ℤ◌, pos, Text, text_eq,
  has_prefix, index, replace_all, ℕ, Bool, true, false, not, ◌&&◌, Option, none, some, List, [],
  ◌∷◌, ◌++◌,
}
use chat_rag.Types.{Fields}
use chat_rag.Tools.{GenericToolConfig, start_tag}
use chat_rag.Tools.Executor.{detect_tools}
use chat_rag.Chat.Errors.{Err, api, new_invalid_response_content_error}
use chat_rag.Chat.Chunks.{
  Usage, no_usage, Response, StreamingData, extract_streaming_data, data_prefix, done_mark,
}

-- What is written to the client: a line, a chunk with a content, or an error with its end mark.
pub data Wire : Type 0 where
  line : Text → Wire
  chunk : Response → Text → Wire
  sse_error : Err → Wire

pub record StreamState : Type 0 where
  pub window : List Text
  pub window_size : ℕ
  pub tool_detected : Bool
  pub tool_name : Text
  pub full_content : Text
  pub response : Option Response
  pub first_token : Bool
  pub window_sent : Bool
  pub sent : List Wire
  pub usage : Option Usage
  pub committed : Bool
  pub header : Option Text
  pub token_received : Bool
  pub first_token_latency : ℕ
  pub window_latency : ℕ
  pub errors : List Err
  pub logged_content : Option Text
  pub logged_usage : Option Usage

-- `newStreamState`, in a request that has sent nothing.
abbrev pub new_stream_state : StreamState
new_stream_state = record {
  window = [];
  window_size = 6;
  tool_detected = false;
  tool_name = [];
  full_content = [];
  response = none;
  first_token = true;
  window_sent = false;
  sent = [];
  usage = none;
  committed = false;
  header = none;
  token_received = false;
  first_token_latency = 0;
  window_latency = 0;
  errors = [];
  logged_content = none;
  logged_usage = none;
}

-- A step returns no error, the error of a write, or panics.
pub data Step : Type 0 where
  ok broken panicked : StreamState → Step

abbrev pub and_then : Step → (StreamState → Step) → Step
and_then (ok s) f = f s
and_then (broken s) f = broken s
and_then (panicked s) f = panicked s

-- What the attempt depends on: parsing, whether the next write succeeds, the time since the start,
-- the router's models, the tools where they are enabled, and the token counts.
pub record StreamEnv (F : Type 0) : Type 0 where
  pub parse : Text → Option Fields
  pub write_ok : List Wire → Bool
  pub since : List Wire → ℕ
  pub has_writer : Bool
  pub ordered_models : List Text
  pub model : Text
  pub tools : Option (List (GenericToolConfig F))
  pub processed_tokens : ℤ
  pub count_tokens : Text → ℤ

abbrev pub response_or_zero : Option Response → Response
response_or_zero none = record {
  id = [];
  object = [];
  created = pos 0;
  model = [];
  usage = no_usage;
}
response_or_zero (some r) = r

abbrev pub push : Text → StreamState → StreamState
push content s = record s {
  window = s.window ++ content ∷ [];
  full_content = if text_eq content done_mark then s.full_content else s.full_content ++ content;
}

abbrev pub detected_state : Text → StreamState → StreamState
detected_state name s = record s { tool_detected = true; tool_name = name }

abbrev pub with_window : List Text → StreamState → StreamState
with_window window s = record s { window = window }

abbrev pub learned : StreamingData → StreamState → StreamState
learned d s = record s {
  response = elim d.response [ none ↦ s.response | some r ↦ some r ];
  usage = elim d.usage [ none ↦ s.usage | some u ↦ some u ];
}

-- The window without a last end mark.
unfoldable pub without_done : List Text → List Text
without_done [] = []
without_done (x ∷ []) = if text_eq x done_mark then [] else x ∷ []
without_done (x ∷ y ∷ ys) = x ∷ without_done (y ∷ ys)

abbrev pub usage_or : Option Usage → Usage → Usage
usage_or none u = u
usage_or (some u) v = u

abbrev pub with_usage : Option Usage → Response → Response
with_usage none r = r
with_usage (some u) r = record r { usage = u }

-- The error for a response without content; the errors of these writes are dropped.
abbrev pub report_no_content : StreamState → StreamState
report_no_content s = record s {
  sent = s.sent ++ sse_error (api new_invalid_response_content_error) ∷ [];
  errors = s.errors ++ api new_invalid_response_content_error ∷ [];
}

-- The content has nothing but newlines.
abbrev pub is_blank : Text → Bool
is_blank content = is_empty (replace_all content (10 ∷ []) [])

module _ {F : Type 0} (env : StreamEnv F) where
  unfoldable pub write : Wire → StreamState → Step
  write w s = if env.write_ok s.sent then ok (record s { sent = s.sent ++ w ∷ [] }) else broken s

  unfoldable pub send_raw_line : Text → StreamState → Step
  send_raw_line raw s =
      write (line (if has_prefix raw data_prefix then raw else data_prefix ++ raw)) s

  unfoldable pub send_stream_content : Text → StreamState → Step
  send_stream_content content s = write (chunk (response_or_zero s.response) content) s

  abbrev pub committed_state : StreamState → StreamState
  committed_state s = record s {
    committed = true;
    header =
        if env.has_writer && not (is_empty env.ordered_models) then some env.model else s.header;
    first_token_latency = env.since s.sent;
    first_token = false;
    token_received = true;
  }

  -- The block on the first token.
  unfoldable pub start_content : Text → StreamState → Step
  start_content content s =
      if s.first_token && not (text_eq content done_mark)
      then send_stream_content (10 ∷ []) (committed_state s)
      else ok s

  -- The end of `detectAndHandleTool`, at the index of the tool's tag.
  unfoldable pub cut_at : Text → Option ℕ → StreamState → Step
  cut_at current none s = panicked s
  cut_at current (some i) s =
      and_then (if ltb 0 i then send_stream_content (take i current) s else ok s)
        (λ t. ok (with_window (drop i current ∷ []) t))

  abbrev pub tool_named : Text → StreamState → Option Text → Step
  tool_named current s none = ok s
  tool_named current s (some name) =
      cut_at current (index current (start_tag name)) (detected_state name s)

  unfoldable pub detect_and_handle_tool : List (GenericToolConfig F) → StreamState → Step
  detect_and_handle_tool tools s =
      tool_named (concat s.window) s (detect_tools tools (concat s.window))

  abbrev pub detect_in : Option (List (GenericToolConfig F)) → StreamState → Step
  detect_in none s = ok s
  detect_in (some tools) s = detect_and_handle_tool tools s

  unfoldable pub detect : ℕ → StreamState → Step
  detect remaining_depth s =
      if not s.tool_detected && ltb 0 remaining_depth then detect_in env.tools s else ok s

  abbrev pub logged_window : StreamState → StreamState
  logged_window s = record s {
    window_sent = true;
    window_latency = if s.window_sent then s.window_latency else env.since s.sent;
  }

  -- Sends the oldest content of the window.
  unfoldable pub send_oldest : List Text → StreamState → Step
  send_oldest [] s = panicked s
  send_oldest (x ∷ xs) s =
      and_then (send_stream_content x (logged_window s)) (λ t. ok (with_window xs t))

  unfoldable pub slide : StreamState → Step
  slide s =
      if not s.tool_detected && leb s.window_size (length s.window)
      then send_oldest s.window s
      else ok s

  unfoldable pub handle_stream_chunk : ℕ → Text → StreamState → Step
  handle_stream_chunk remaining_depth raw_line s =
      let d = extract_streaming_data env.parse raw_line in
      if is_empty d.content
      then send_raw_line raw_line (learned d s)
      else and_then (start_content d.content (learned d s))
          (λ t. and_then (detect remaining_depth (push d.content t)) slide)

  -- The callback on every line of the upstream response.
  unfoldable pub process_stream : ℕ → List Text → StreamState → Step
  process_stream remaining_depth [] s = ok s
  process_stream remaining_depth (l ∷ ls) s =
      and_then (handle_stream_chunk remaining_depth l s) (process_stream remaining_depth ls)

  abbrev pub calculate_usage : ℤ → Text → Usage
  calculate_usage prompt_tokens content =
      let completion = env.count_tokens content in
      record {
        prompt_tokens = prompt_tokens;
        completion_tokens = completion;
        total_tokens = prompt_tokens +ℤ completion;
        cached_tokens = pos 0;
      }

  abbrev pub update_stream_stats : StreamState → StreamState
  update_stream_stats s = record s {
    logged_content = some s.full_content;
    logged_usage = some (usage_or s.usage (calculate_usage env.processed_tokens s.full_content));
  }

  unfoldable pub finish_stream : Response → StreamState → Step
  finish_stream r s =
      if is_empty s.window
      then ok (update_stream_stats s)
      else and_then
          (and_then
            (send_stream_content (concat (without_done s.window))
              (record s { response = some (with_usage s.usage r); window = without_done s.window }))
            (send_raw_line done_mark))
          (λ t. ok (update_stream_stats t))

  abbrev pub complete_with : Option Response → StreamState → Step
  complete_with none s = ok (report_no_content s)
  complete_with (some r) s =
      if is_blank s.full_content then ok (report_no_content s) else finish_stream r s

  unfoldable pub complete_stream_response : StreamState → Step
  complete_stream_response s = complete_with s.response s
