-- ===== src/Chat/Streaming/Committed.antt =====
-- The calls that `ChatCompletionStream` makes, and the streams that are committed.
use chat_rag.Common.{
  Bool-cases, Option-cases, Sum-cases, is_empty, ltb_ℤ, Text, text, ℕ, zero, suc, ◌≡◌, refl, ◌∙◌,
  subst, ◌⊎◌, inl, inr, false, ◌||◌, Option, none, some, List, [], ◌∷◌, ◌++◌,
}
use chat_rag.Chat.Errors.{Err}
use chat_rag.Chat.Trace.{
  EventType, stopped, model_succeeded, retry_scheduled, retry_skipped_insufficient_budget,
}
use chat_rag.Chat.Retry.{Run, rounds, note, at_cancel_test, at_switch_test}
use chat_rag.Chat.Degradation.{stop, switch_model}
use chat_rag.Chat.Streaming.{
  Streams, Ending, Outcome, over, gave_up, sent, retried, single_attempts, stream_single, noted,
  auto_attempts, auto_models, stream, stream_started, is_canceled_error, is_switchable, with_header,
  streamed, stream_failed,
}
use chat_rag.Chat.Streaming.Tried.{
  no_calls, only_call, IsFailedRun→IsTriedRun, failed_call, then_tried, then_failed, then_same,
  IsTriedRun, IsFailedRun,
}

module _ (s : Streams) where
  single_attempts-IsTriedRun :
      (m : Text) (left attempt : ℕ) (last : Option Err) (w : Run)
      → IsTriedRun s w (single_attempts s m left attempt last w).1
  unfolding single_attempts
  single_attempts-IsTriedRun m zero attempt last w = IsFailedRun→IsTriedRun s w w (no_calls s w)
  single_attempts-IsTriedRun m (suc left) attempt last w =
      elim (Sum-cases (s.logic.respond w.called m)) [
        | inr (_, q) ↦ rw (single_attempts, q) (only_call s m w (sent s m w) refl)
        | inl (e, q) ↦
            let called = w.called ++ m ∷ [] in
            rw (single_attempts, q)
              (elim (Bool-cases (s.commits w.called m)) [
                | inl begun ↦ rw begun (only_call s m w (sent s m w) refl)
                | inr fresh ↦ rw fresh (elim (Bool-cases (retried s called e attempt)) [
                  | inr last_one ↦ rw last_one (only_call s m w (sent s m w) refl)
                  | inl go ↦
                      rw go
                        (elim (Bool-cases
                          (ltb_ℤ (s.logic.remaining called) s.logic.retry_interval)) [
                            | inl short ↦ rw short (only_call s m w (sent s m w) refl)
                            | inr enough ↦ rw enough (
                                then_tried s w (sent s m w)
                                  (single_attempts s m left (suc attempt) (some e) (sent s m w)).1
                                  (failed_call s m e w (sent s m w) q fresh refl)
                                  (single_attempts-IsTriedRun m left (suc attempt) (some e)
                                    (sent s m w)))
                          ])
                ])
              ])
      ]

  called-noted :
      (m : Text) (i attempt : ℕ) (kind : EventType) (reason : Text) (w : Run)
      → (noted s m i attempt kind reason w).called ≡ w.called
  unfolding note
  called-noted m i attempt kind reason w = refl

  called-streamed :
      (m : Text) (i attempt : ℕ) (w : Run) → (streamed s m i attempt w).called ≡ w.called ++ m ∷ []
  unfolding note
  called-streamed m i attempt w = refl

  called-stream_failed :
      (m : Text) (i attempt : ℕ) (e : Err) (w : Run)
      → (stream_failed s m i attempt e w).called ≡ w.called ++ m ∷ []
  unfolding note
  called-stream_failed m i attempt e w = refl

  called-stop :
      (m : Text) (i : ℕ) (reason : Text) (w : Run) → (stop s.logic m i reason w).called ≡ w.called
  unfolding note
  called-stop m i reason w = refl

  -- The attempts at one model all failed where the next model may be tried.
  abbrev pub IsAttempted : Run → Outcome × Run → Type 0
  IsAttempted w (over _, v) = IsTriedRun s w v
  IsAttempted w (gave_up _, v) = IsFailedRun s w v

  then-IsAttempted :
      (w u : Run) (r : Outcome × Run) → IsFailedRun s w u → IsAttempted u r → IsAttempted w r
  then-IsAttempted w u (over _, v) f a = then_tried s w u v f a
  then-IsAttempted w u (gave_up _, v) f a = then_failed s w u v f a

  auto_attempts-IsAttempted :
      (m : Text) (i left attempt : ℕ) (last : Option Err) (w : Run)
      → IsAttempted w (auto_attempts s m i left attempt last w)
  unfolding auto_attempts
  auto_attempts-IsAttempted m i zero attempt last w = no_calls s w
  auto_attempts-IsAttempted m i (suc left) attempt last w =
      elim (Sum-cases (s.logic.respond w.called m)) [
        | inr (_, q) ↦
            rw (auto_attempts, q)
              (only_call s m w
                (noted s m i attempt model_succeeded (text "model_call_succeeded")
                  (streamed s m i attempt w))
                (called-noted m i attempt model_succeeded (text "model_call_succeeded")
                    (streamed s m i attempt w)
                  ∙ called-streamed m i attempt w))
        | inl (e, q) ↦
            let called = w.called ++ m ∷ [] in
            let w1 = stream_failed s m i attempt e w in
            let again = noted s m i attempt retry_scheduled (text "retryable_error") w1 in
            let skip =
              noted s m i attempt retry_skipped_insufficient_budget
                (text "insufficient_idle_budget") w1 in
            let failed : s.commits w.called m ≡ false
                → (v : Run) → v.called ≡ w.called ++ m ∷ []
                → IsFailedRun s w v =
              λ fresh v c. failed_call s m e w v q fresh c in
            rw (auto_attempts, q)
              (elim (Bool-cases (s.commits w.called m)) [
                | inl begun ↦ rw begun (
                    only_call s m w
                      (noted s m i attempt stopped (text "stream_committed")
                        (streamed s m i attempt w))
                      (called-noted m i attempt stopped (text "stream_committed")
                          (streamed s m i attempt w)
                        ∙ called-streamed m i attempt w))
                | inr fresh ↦ rw fresh (elim (Bool-cases (retried s called e attempt)) [
                  | inr last_one ↦
                      rw last_one (failed fresh w1 (called-stream_failed m i attempt e w))
                  | inl go ↦
                      rw go
                        (elim (Bool-cases
                          (ltb_ℤ (s.logic.remaining called) s.logic.retry_interval)) [
                            | inl short ↦ rw short (
                                failed fresh skip (
                                  called-noted m i attempt retry_skipped_insufficient_budget
                                    (text "insufficient_idle_budget") w1
                                  ∙ called-stream_failed m i attempt e w))
                            | inr enough ↦ rw enough (
                                then-IsAttempted w again
                                  (auto_attempts s m i left (suc attempt) (some e) again)
                                  (failed fresh again (
                                    called-noted m i attempt retry_scheduled
                                      (text "retryable_error") w1
                                    ∙ called-stream_failed m i attempt e w))
                                  (auto_attempts-IsAttempted m i left (suc attempt) (some e) again))
                          ])
                ])
              ])
      ]

  called-switch_model :
      (ordered : List Text) (m : Text) (i : ℕ) (ms : List Text) (w : Run)
      → (switch_model s.logic ordered m i ms w).called ≡ w.called
  unfolding note
  called-switch_model ordered m i [] w = refl
  called-switch_model ordered m i (n ∷ ns) w = refl

  Outcome-cases :
      (o : Outcome) → ((x : Ending) × (o ≡ over x)) ⊎ ((e : Option Err) × (o ≡ gave_up e))
  Outcome-cases (over x) = inl (x, refl)
  Outcome-cases (gave_up e) = inr (e, refl)

  auto_models-IsTriedRun :
      (i : ℕ) (ms : List Text) (last : Option Err) (w : Run)
      → IsTriedRun s w (auto_models s i ms last w).1
  unfolding auto_models
  auto_models-IsTriedRun i [] last w = IsFailedRun→IsTriedRun s w w (no_calls s w)
  auto_models-IsTriedRun i (m ∷ ms) last w = elim (Option-cases (s.logic.new_client m)) [
    | inr (e, q) ↦
        rw (auto_models, q) (auto_models-IsTriedRun (suc i) ms (some e) (with_header s m w))
    | inl q ↦
        let r = auto_attempts s m i (rounds s.logic.max_retry_count) 0 last (with_header s m w) in
        let a =
          auto_attempts-IsAttempted m i (rounds s.logic.max_retry_count) 0 last
            (with_header s m w) in
        elim (Outcome-cases r.0) [
          | inl (x, o) ↦ rw (auto_models, q, o) (subst (λ y. IsAttempted w (y, r.1)) o a)
          | inr (e, o) ↦
              let f : IsFailedRun s w r.1 = subst (λ y. IsAttempted w (y, r.1)) o a in
              let stopped_at : (reason : Text) → IsTriedRun s w (stop s.logic m i reason r.1) =
                λ reason. IsFailedRun→IsTriedRun s w (stop s.logic m i reason r.1) (
                  then_same s w r.1 (stop s.logic m i reason r.1) f (called-stop m i reason r.1)) in
              let switched = switch_model s.logic s.logic.ordered_models m i ms r.1 in
              rw (auto_models, q, o)
                (elim (Bool-cases
                  (is_canceled_error s e || s.logic.canceled r.1.called at_cancel_test)) [
                    | inl gone ↦ rw gone (stopped_at (text "context_canceled"))
                    | inr going ↦
                        rw going
                          (elim (Bool-cases
                            (is_switchable s (s.logic.canceled r.1.called at_switch_test) e)) [
                              | inr fatal ↦ rw fatal (stopped_at (text "non_switchable_error"))
                              | inl switchable ↦ rw switchable (
                                  then_tried s w switched (auto_models s (suc i) ms e switched).1
                                    (then_same s w r.1 switched f
                                      (called-switch_model s.logic.ordered_models m i ms r.1))
                                    (auto_models-IsTriedRun (suc i) ms e switched))
                            ])
                  ])
        ]
  ]

  stream_single-IsTriedRun : (w : Run) → IsTriedRun s w (stream_single s w).1
  unfolding stream_single
  stream_single-IsTriedRun w = elim (Option-cases (s.logic.new_client w.request_model)) [
    | inr (e, q) ↦ rw (stream_single, q) (IsFailedRun→IsTriedRun s w w (no_calls s w))
    | inl q ↦
        rw (stream_single, q)
          (single_attempts-IsTriedRun w.request_model (rounds s.logic.max_retry_count) 0 none w)
  ]

  stream_started-IsFailedRun : (w : Run) → IsFailedRun s w (stream_started s w)
  unfolding note
  stream_started-IsFailedRun w = no_calls s w

-- Streaming makes another call only after a call that failed before its stream was committed: of all
-- the calls that a request makes, each but the last failed and left its stream uncommitted.
pub stream-IsTriedRun : (s : Streams) (w : Run) → IsTriedRun s w (stream s w).1
unfolding stream
stream-IsTriedRun s w = elim (Bool-cases (is_empty s.logic.ordered_models)) [
  | inl single ↦ rw (stream, single) (stream_single-IsTriedRun s w)
  | inr auto ↦
      let begun = stream_started s w in
      rw (stream, auto)
        (then_tried s w begun (auto_models s 0 s.logic.ordered_models none begun).1
          (stream_started-IsFailedRun s w)
          (auto_models-IsTriedRun s 0 s.logic.ordered_models none begun))
]
