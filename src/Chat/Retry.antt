-- ===== src/Chat/Retry.antt =====
-- Calling one model with retries: `getRetryConfig`, `degradationErrorFields`,
-- `isModelCompatibilityError` and `callModelWithRetry` of internal/logic/chat.go.
--
-- What lies behind `client.LLMInterface`, the request's context and the shared idle tracker are
-- functions of the calls made so far. Response headers, sleeping and logging are left out.
pub mod Calls
use chat_rag.Common.{
  to_lower, if◌then◌else◌, is_empty, any, ℤ, pos_part, ltb_ℤ, pos, negsuc, Text, text, text_eq,
  index, contains, ℕ, zero, suc, ◌+◌, ◌⊎◌, inl, inr, Bool, not, ◌&&◌, Option, none, some, List, [],
  ◌∷◌, ◌++◌,
}
use chat_rag.Chat.Errors.{
  Err, api, idle_timeout, plain, error_text, is_same_model_retryable_error,
  is_degradation_switchable_error,
}
use chat_rag.Chat.Trace.{
  EventType, attempt_started, attempt_failed, retry_scheduled, retry_skipped_insufficient_budget,
  model_succeeded, DegradationEvent, blank, Trace, append_degradation_event,
}

-- The four fields that each part of the configuration has.
pub record TimeoutConfig : Type 0 where
  pub idle_timeout_ms : ℤ
  pub total_idle_timeout_ms : ℤ
  pub max_retry_count : ℤ
  pub retry_interval_ms : ℤ

pub record RouterConfig : Type 0 where
  pub strategy : Text
  pub priority : TimeoutConfig
  pub semantic_routing : TimeoutConfig

pub record ServiceConfig : Type 0 where
  pub router : Option RouterConfig
  pub llm_timeout : TimeoutConfig

-- The part of the configuration that `getRetryConfig` reads. In auto mode without a router it would
-- dereference a nil pointer: `none`.
unfoldable get_retry_config : Bool → ServiceConfig → Option TimeoutConfig
get_retry_config is_auto_mode c =
    if is_auto_mode
    then elim c.router [
      | none ↦ none
      | some r ↦
          some (if text_eq r.strategy (text "priority") then r.priority else r.semantic_routing)
    ]
    else some c.llm_timeout

-- When a look at the context is taken.
pub data Moment : Type 0 where
  at_retry_test at_failed_event at_cancel_test at_switch_test at_error_report : Moment

-- What `ChatCompletionLogic` reads, and the answers of its surroundings. The lists are the models
-- called so far, the first call first.
pub record Logic (R : Type 0) : Type 0 where
  pub ordered_models : List Text
  pub max_retry_count : ℤ
  pub retry_interval : ℤ
  pub has_writer : Bool
  pub new_client : Text → Option Err
  pub respond : List Text → Text → Err ⊎ R
  pub canceled : List Text → Moment → Bool
  pub remaining : List Text → ℤ
  pub sanitize : Text → Text

-- What a call changes: the calls made, the trace, `l.request.Model` and the header that names it.
pub record Run : Type 0 where
  pub called : List Text
  pub trace : Trace
  pub request_model : Text
  pub header : Option Text

-- The two results: the response, `none` where it is the empty one, and the error.
pub record Reply (R : Type 0) : Type 0 where
  pub response : Option R
  pub err : Option Err

abbrev pub compatibility_signals : List Text
compatibility_signals =
    text "reasoning_content"
    ∷ text "thinking is enabled"
    ∷ text "tool call"
    ∷ text "tool_call"
    ∷ text "function call"
    ∷ text "function_call"
    ∷ text "unsupported tool"
    ∷ text "unsupported function"
    ∷ []

unfoldable is_model_compatibility_error : Err → Bool
is_model_compatibility_error e = any (contains (to_lower (error_text e))) compatibility_signals

-- Fills in the fields that `degradationErrorFields` returns.
unfoldable pub with_error_fields : Err → DegradationEvent → DegradationEvent
unfolding is_model_compatibility_error
with_error_fields (api a) ev = record ev {
  status_code = a.status_code;
  error_code = some a.code;
  error_type = a.kind;
  error_message = a.message;
  compatibility_signal = is_model_compatibility_error (api a);
}
with_error_fields (idle_timeout a) ev = record ev {
  status_code = 504;
  error_code = some a.code;
  error_type = text "ai_model_error";
  error_message = a.message;
}
with_error_fields (plain message c) ev = record ev { error_message = message }

unfoldable pub degradation_model_index : List Text → Text → ℤ
degradation_model_index ordered name = index_from 0 ordered
  where
    index_from : ℕ → List Text → ℤ
    index_from i [] = negsuc 0
    index_from i (m ∷ ms) = if text_eq m name then pos i else index_from (suc i) ms

unfoldable pub note : {R : Type 0} → Logic R → DegradationEvent → Run → Run
unfolding append_degradation_event
note l e w = record w {
  trace = append_degradation_event l.sanitize (not (is_empty l.ordered_models)) e w.trace;
}

abbrev pub attempt_event : EventType → Text → ℤ → ℕ → ℤ → Text → DegradationEvent
attempt_event e m index attempt max_retries reason = record (blank e) {
  model = m;
  model_index = index;
  attempt = attempt + 1;
  max_retries = max_retries;
  reason = reason;
}

-- How often `attempt <= maxRetryCount` holds, for `attempt` from zero.
abbrev pub rounds : ℤ → ℕ
rounds max = if ltb_ℤ max (pos 0) then 0 else suc (pos_part max)

module _ {R : Type 0} (l : Logic R) (m : Text) (attempt : ℕ) where
  abbrev pub event_of : EventType → Text → DegradationEvent
  event_of kind reason =
      attempt_event kind m (degradation_model_index l.ordered_models m) attempt l.max_retry_count
        reason

  -- The call is made.
  abbrev pub sent : Run → Run
  sent w = record (note l (event_of attempt_started []) w) { called = w.called ++ m ∷ [] }

  abbrev pub succeeded : Run → Run
  succeeded w =
      note l (event_of model_succeeded (text "model_call_succeeded"))
        (record (sent w) { request_model = m; header = if l.has_writer then some m else w.header })

  abbrev pub failed_event_of : Text → Err → List Text → DegradationEvent
  failed_event_of reason e called = record (with_error_fields e (event_of attempt_failed reason)) {
    retryable = some (is_same_model_retryable_error (l.canceled called at_retry_test) e);
    switchable = some (is_degradation_switchable_error (l.canceled called at_failed_event) e);
  }

  abbrev pub failed_event : Err → List Text → DegradationEvent
  failed_event = failed_event_of (text "model_call_failed")

  abbrev pub failed : Err → Run → Run
  failed e w = note l (failed_event e (sent w).called) (sent w)

  abbrev pub skipped : Err → Run → Run
  skipped e w =
      note l (event_of retry_skipped_insufficient_budget (text "insufficient_idle_budget"))
        (failed e w)

  abbrev pub scheduled : Err → Run → Run
  scheduled e w = note l (event_of retry_scheduled (text "retryable_error")) (failed e w)

-- The loop of `callModelWithRetry`, with the rounds that are left; `last_err` is its variable.
unfoldable pub attempts : {R : Type 0} → Logic R → Text → ℕ → ℕ → Option Err → Run → Reply R × Run
attempts l m zero attempt last_err w = (record { response = none; err = last_err }, w)
attempts l m (suc left) attempt last_err w = elim (l.respond w.called m) [
  | inr resp ↦ (record { response = some resp; err = none }, succeeded l m attempt w)
  | inl e ↦
      let called = w.called ++ m ∷ [] in
      let again = attempts l m left (suc attempt) (some e) (scheduled l m attempt e w) in
      let failure : Reply _ = record { response = none; err = some e } in
      if is_same_model_retryable_error (l.canceled called at_retry_test) e
        && ltb_ℤ (pos attempt) l.max_retry_count
      then (if ltb_ℤ (l.remaining called) l.retry_interval
          then (failure, skipped l m attempt e w)
          else again)
      else (failure, failed l m attempt e w)
]

unfoldable pub call_model_with_retry : {R : Type 0} → Logic R → Text → Run → Reply R × Run
unfolding attempts
call_model_with_retry l m w = elim (l.new_client m) [
  | some e ↦ (record { response = none; err = some e }, w)
  | none ↦ attempts l m (rounds l.max_retry_count) 0 none w
]
