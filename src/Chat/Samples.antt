-- ===== src/Chat/Samples.antt =====
-- Errors, the trace and degradation at small inputs.
use chat_rag.Common.{
  leb, if◌then◌else◌, length, take, replicate, is_empty, pos, Text, text, text_eq, contains, ◌≡◌,
  refl, inl, inr, true, false, not, ◌&&◌, none, some, List, [], ◌∷◌, ◌++◌, arith,
}
use chat_rag.Chat.Retry.{Logic, Run}
use chat_rag.Chat.Degradation.{unique_models, call_with_degradation}
use chat_rag.Chat.Degradation.Calls.{IsDegraded, call_with_degradation-IsDegraded}
use chat_rag.Chat.Degradation.Complete.{IsFailing, IsAnswering, call_with_degradation-IsReached}
use chat_rag.Chat.Degradation.Unique.{names, IsDistinct, unique_models_lem}
use chat_rag.Chat.Streaming.{Streams, stream}
use chat_rag.Chat.Streaming.Tried.{IsTriedRun}
use chat_rag.Chat.Streaming.Committed.{stream-IsTriedRun}
use chat_rag.Chat.Errors.{
  Err, is_context_length_error, is_same_model_retryable_error, is_degradation_switchable_error,
  is_canceled, api_retryable, api_switchable, http_status_code, new_http_status_error, error_text,
}
use chat_rag.Chat.Errors.Classes.{
  http_error, is_retried, is_switched, is_denied, http_error_classes, retryable→switchable,
}
use chat_rag.Chat.Trace.{DegradationEvent, started, blank, empty_trace, truncated}
use chat_rag.Chat.Trace.Kept.{append_all, numbered, events-append_all}

abbrev busy : Err
busy = http_error 503 (text "busy")

busy-not-context : is_context_length_error busy ≡ false
unfolding is_context_length_error contains error_text new_http_status_error http_status_code
    chat_rag.Common.digits
busy-not-context = refl

busy-retryable : is_same_model_retryable_error false busy ≡ true
unfolding is_same_model_retryable_error api_retryable new_http_status_error http_status_code
busy-retryable = rw busy-not-context refl

http_error_classes_example :
    (is_same_model_retryable_error false busy ≡ is_retried 503)
    × (is_degradation_switchable_error false busy ≡ is_switched 503)
http_error_classes_example = http_error_classes 503 (text "busy") busy-not-context

retryable→switchable_example :
    (is_canceled busy ≡ false)
    × (false ≡ false)
    × (is_context_length_error busy ≡ false)
    × (is_denied busy ≡ false → is_degradation_switchable_error false busy ≡ true)
retryable→switchable_example = retryable→switchable false busy busy-retryable

-- More events than a trace holds.
abbrev many_events : List DegradationEvent
many_events = replicate 70 (blank started)

events-append_all_example : (append_all (λ m. m) many_events empty_trace).events ≡ (
    if leb (length many_events) 63
    then numbered (λ m. m) 1 many_events
    else numbered (λ m. m) 1 (take 63 many_events) ++ (truncated 64 ∷ []))
events-append_all_example = events-append_all (λ m. m) many_events

-- Two models, of which "a" is busy and "b" answers; "a" is listed twice.
abbrev two_models : Logic Unit
two_models = record {
  ordered_models = text "a" ∷ text "b" ∷ text "a" ∷ [];
  max_retry_count = pos 1;
  retry_interval = pos 0;
  has_writer = true;
  new_client = λ _. none;
  respond = λ _ m. if text_eq m (text "b") then inr tt else inl busy;
  canceled = λ _ _. false;
  remaining = λ _. pos 10;
  sanitize = λ m. m;
}

abbrev at_first : Run
at_first = record { called = []; trace = empty_trace; request_model = text "auto"; header = none }

abbrev streams : Streams
streams = record { logic = two_models; commits = λ _ m. text_eq m (text "b") }

call_with_degradation_example :
    let (reply, v) = call_with_degradation two_models at_first in
    IsDegraded two_models (unique_models [] two_models.ordered_models) at_first reply v
call_with_degradation_example = call_with_degradation-IsDegraded two_models at_first

unique_models_example :
    IsDistinct (unique_models [] two_models.ordered_models)
    × ((x : Text)
        → names x (unique_models [] two_models.ordered_models)
          ≡ not (is_empty x) && names x two_models.ordered_models)
unique_models_example = unique_models_lem two_models.ordered_models

stream_example : IsTriedRun streams at_first (stream streams at_first).1
stream_example = stream-IsTriedRun streams at_first

two_models-order : unique_models [] two_models.ordered_models ≡ (text "a" ∷ []) ++ text "b" ∷ []
unfolding unique_models text_eq
two_models-order = refl

busy-switchable : is_degradation_switchable_error false busy ≡ true
unfolding is_degradation_switchable_error api_switchable new_http_status_error http_status_code
busy-switchable = rw busy-not-context refl

first-IsFailing : IsFailing two_models (text "a")
unfolding text_eq
first-IsFailing = record {
  has_client = refl;
  fails = λ h. (busy, refl, λ called. (refl, busy-switchable));
}

second-IsAnswering : IsAnswering two_models (text "b")
unfolding text_eq
second-IsAnswering = record { has_client = refl; answers = λ h. (tt, refl) }

failover_example :
    let (reply, v) = call_with_degradation two_models at_first in
    (r : Unit) × (reply ≡ record { response = some r; err = none }) × (v.request_model ≡ text "b")
failover_example =
    call_with_degradation-IsReached two_models (text "a" ∷ []) (text "b") [] at_first (omega arith)
      two_models-order (first-IsFailing, tt) second-IsAnswering
