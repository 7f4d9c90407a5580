-- ===== src/Chat/Streaming.antt =====
-- The loops of `ChatCompletionStream` and `handleStreamError` of internal/logic/chat.go. What
-- `handleStreamingWithTools` does in one attempt is a parameter.
pub mod Tried
pub mod Committed
use chat_rag.Common.{
  if◌then◌else◌, is_empty, ltb_ℤ, pos, Text, text, ℕ, zero, suc, inl, inr, Bool, false, not, ◌&&◌,
  ◌||◌, Option, none, some, List, [], ◌∷◌, ◌++◌,
}
use chat_rag.Chat.Errors.{
  Err, api, is_canceled, is_context_length_error, is_same_model_retryable_error,
  new_context_too_long_error, is_degradation_switchable_error,
}
use chat_rag.Chat.Trace.{
  EventType, attempt_started, retry_scheduled, retry_skipped_insufficient_budget, model_succeeded,
  stopped,
}
use chat_rag.Chat.Retry.{
  Logic, Run, at_retry_test, at_failed_event, at_cancel_test, at_switch_test, at_error_report,
  rounds, note, event_of, failed_event_of,
}
use chat_rag.Chat.Degradation.{stop, switch_model, degradation_started}

-- How an attempt ends: `respond` of the first, and whether `l.streamCommitted` is set then.
pub record Streams : Type 0 where
  pub logic : Logic Unit
  pub commits : List Text → Text → Bool

-- How the request ends: served; with the client gone; with an error sent to the client, or returned
-- before anything was tried; or by a nil dereference.
pub data Ending : Type 0 where
  served disconnected panicked : Ending
  reported not_started : Err → Ending

unfoldable pub handle_stream_error : Bool → Option Err → Ending
handle_stream_error canceled none = if canceled then disconnected else panicked
handle_stream_error canceled (some e) =
    if is_canceled e || canceled
    then disconnected
    else if is_context_length_error e
    then reported (api new_context_too_long_error)
    else reported e

module _ (s : Streams) where
  -- `handleStreamError` after the calls so far.
  abbrev pub failed_stream : Option Err → Run → Ending × Run
  failed_stream e w = (handle_stream_error (s.logic.canceled w.called at_error_report) e, w)

  abbrev pub sent : Text → Run → Run
  sent m w = record w { called = w.called ++ m ∷ [] }

  abbrev pub retried : List Text → Err → ℕ → Bool
  retried called e attempt =
      is_same_model_retryable_error (s.logic.canceled called at_retry_test) e
      && ltb_ℤ (pos attempt) s.logic.max_retry_count

  -- The loop without ordered models, with the rounds that are left; `last_err` is its variable.
  pub single_attempts : Text → ℕ → ℕ → Option Err → Run → Ending × Run
  single_attempts m zero attempt last_err w = failed_stream last_err w
  single_attempts m (suc left) attempt last_err w = elim (s.logic.respond w.called m) [
    | inr _ ↦ (served, sent m w)
    | inl e ↦
        let w1 = sent m w in
        let again = single_attempts m left (suc attempt) (some e) w1 in
        if s.commits w.called m
        then failed_stream (some e) w1
        else if retried w1.called e attempt
        then (if ltb_ℤ (s.logic.remaining w1.called) s.logic.retry_interval
            then failed_stream (some e) w1
            else again)
        else failed_stream (some e) w1
  ]

  pub stream_single : Run → Ending × Run
  stream_single w = elim (s.logic.new_client w.request_model) [
    | some e ↦ (not_started e, w)
    | none ↦ single_attempts w.request_model (rounds s.logic.max_retry_count) 0 none w
  ]

-- How the attempts at one of the ordered models end: the request is over, or the next may be tried.
pub data Outcome : Type 0 where
  over : Ending → Outcome
  gave_up : Option Err → Outcome

module _ (s : Streams) (m : Text) (i : ℕ) (attempt : ℕ) where
  -- An event of this attempt at `m`, the `i`-th model.
  abbrev pub noted : EventType → Text → Run → Run
  noted kind reason w =
      note s.logic (record (event_of s.logic m attempt kind reason) { model_index = pos i }) w

  abbrev pub streamed : Run → Run
  streamed w = record (noted attempt_started [] (record w { request_model = m })) {
    called = w.called ++ m ∷ [];
  }

  abbrev pub stream_failed : Err → Run → Run
  stream_failed e w =
      note s.logic
        (record (failed_event_of s.logic m attempt (text "stream_failed_before_first_token") e
          (w.called ++ m ∷ [])) { model_index = pos i })
        (streamed w)

module _ (s : Streams) where
  -- The inner loop over the attempts at the `i`-th model.
  pub auto_attempts : Text → ℕ → ℕ → ℕ → Option Err → Run → Outcome × Run
  auto_attempts m i zero attempt last_err w = (gave_up last_err, w)
  auto_attempts m i (suc left) attempt last_err w = elim (s.logic.respond w.called m) [
    | inr _ ↦ (
      over served,
      noted s m i attempt model_succeeded (text "model_call_succeeded") (streamed s m i attempt w),
    )
    | inl e ↦
        let called = w.called ++ m ∷ [] in
        let w1 = stream_failed s m i attempt e w in
        let again =
          auto_attempts m i left (suc attempt) (some e)
            (noted s m i attempt retry_scheduled (text "retryable_error") w1) in
        if s.commits w.called m
        then (
          over (handle_stream_error (s.logic.canceled called at_error_report) (some e)),
          noted s m i attempt stopped (text "stream_committed") (streamed s m i attempt w),
        )
        else if retried s called e attempt
        then (if ltb_ℤ (s.logic.remaining called) s.logic.retry_interval
            then (
              gave_up (some e),
              noted s m i attempt retry_skipped_insufficient_budget
                  (text "insufficient_idle_budget") w1,
            )
            else again)
        else (gave_up (some e), w1)
  ]

  -- `isDegradationSwitchableError`, also for the nil error.
  abbrev pub is_switchable : Bool → Option Err → Bool
  is_switchable canceled none = false
  is_switchable canceled (some e) = is_degradation_switchable_error canceled e

  abbrev pub is_canceled_error : Option Err → Bool
  is_canceled_error none = false
  is_canceled_error (some e) = is_canceled e

  abbrev pub with_header : Text → Run → Run
  with_header m w = record w { header = if s.logic.has_writer then some m else w.header }

  -- The loop over the ordered models from the `i`-th on.
  pub auto_models : ℕ → List Text → Option Err → Run → Ending × Run
  auto_models i [] last_err w = failed_stream s last_err w
  auto_models i (m ∷ ms) last_err w = elim (s.logic.new_client m) [
    | some e ↦ auto_models (suc i) ms (some e) (with_header m w)
    | none ↦
        let r = auto_attempts m i (rounds s.logic.max_retry_count) 0 last_err (with_header m w) in
        elim r.0 [
          | over ending ↦ (ending, r.1)
          | gave_up e ↦
              let rest =
                auto_models (suc i) ms e (switch_model s.logic s.logic.ordered_models m i ms r.1) in
              if is_canceled_error e || s.logic.canceled r.1.called at_cancel_test
              then failed_stream s e (stop s.logic m i (text "context_canceled") r.1)
              else if not (is_switchable (s.logic.canceled r.1.called at_switch_test) e)
              then failed_stream s e (stop s.logic m i (text "non_switchable_error") r.1)
              else rest
        ]
  ]

  abbrev pub stream_started : Run → Run
  stream_started w =
      note s.logic
        (record (degradation_started (text "auto_mode_stream") s.logic.ordered_models) {
          max_retries = s.logic.max_retry_count;
        })
        w

  -- The two ways of `ChatCompletionStream` once the prompt is processed.
  pub stream : Run → Ending × Run
  stream w =
      if is_empty s.logic.ordered_models
      then stream_single s w
      else auto_models 0 s.logic.ordered_models none (stream_started w)
