-- ===== src/Chat/Retry/Calls.antt =====
-- The calls that the attempts at one model make.
use chat_rag.Common.{
  Bool-cases, Option-cases, Sum-cases, replicate, is_empty, ltb_ℤ, pos, Text, text, ℕ, zero, suc,
  ◌≤◌, ◌≡◌, refl, sym, ap, ◌∙◌, inl, inr, not, ◌&&◌, Option, none, some, List, [], ◌∷◌, ◌++◌, arith,
}
use mathlib.Core.Option.{some-injective, none-ne-some}
use mathlib.Core.List.{append-nil, append_assoc}
use chat_rag.Chat.Errors.{Err, is_same_model_retryable_error}
use chat_rag.Chat.Trace.{
  DegradationEvent, attempt_started, retry_scheduled, retry_skipped_insufficient_budget,
  model_succeeded, IsBounded, append-IsBounded,
}
use chat_rag.Chat.Retry.{
  Logic, Run, Reply, at_retry_test, rounds, note, attempts, call_model_with_retry, event_of, sent,
  succeeded, failed_event, failed, skipped, scheduled,
}

-- The run goes from `w` to `v` with at most `most` calls, all of `m`. A response is that of the last.
pub record IsRetry {R : Type 0} (l : Logic R) (m : Text) (most : ℕ) (w : Run) (reply : Reply R)
    (v : Run) : Type 0 where
  pub count : ℕ
  pub at_most : count ≤ most
  pub called : v.called ≡ w.called ++ replicate count m
  pub bounded : IsBounded w.trace → IsBounded v.trace
  pub answered :
      (r : R)
      → reply.response ≡ some r
      → (h : List Text) × (v.called ≡ h ++ m ∷ []) × (v.request_model ≡ m) × (l.respond h m ≡ inr r)

pub note-IsBounded :
    {R : Type 0} (l : Logic R) (e : DegradationEvent) (w : Run)
    → IsBounded w.trace
    → IsBounded (note l e w).trace
unfolding note
note-IsBounded l e w b = append-IsBounded l.sanitize (not (is_empty l.ordered_models)) e w.trace b

-- The only attempt failed, and there is no other.
lost :
    {R : Type 0} (l : Logic R) (m : Text) (left : ℕ) (w : Run) (e : Err) (v : Run)
    → v.called ≡ w.called ++ m ∷ []
    → (IsBounded w.trace → IsBounded v.trace)
    → IsRetry l m (suc left) w (record { response = none; err = some e }) v
lost l m left w e v c b = record {
  count = 1;
  at_most = omega arith;
  called = c;
  bounded = b;
  answered = λ r h. absurd (none-ne-some r h);
}

-- An attempt failed, and others followed.
longer :
    {R : Type 0} (l : Logic R) (m : Text) (left : ℕ) (w u : Run) (reply : Reply R) (v : Run)
    → u.called ≡ w.called ++ m ∷ []
    → (IsBounded w.trace → IsBounded u.trace)
    → IsRetry l m left u reply v
    → IsRetry l m (suc left) w reply v
longer l m left w u reply v c b h = record {
  count = suc h.count;
  at_most = omega (arith, h.at_most);
  called =
      h.called
      ∙ ap (λ x. x ++ replicate h.count m) c
      ∙ append_assoc w.called (m ∷ []) (replicate h.count m);
  bounded = λ x. h.bounded (b x);
  answered = h.answered;
}

module _ {R : Type 0} (l : Logic R) (m : Text) (attempt : ℕ) where
  failed-IsBounded :
      (e : Err) (w : Run) → IsBounded w.trace → IsBounded (failed l m attempt e w).trace
  unfolding note
  failed-IsBounded e w b =
      note-IsBounded l (failed_event l m attempt e (sent l m attempt w).called) (sent l m attempt w)
        (note-IsBounded l (event_of l m attempt attempt_started []) w b)

  skipped-IsBounded :
      (e : Err) (w : Run) → IsBounded w.trace → IsBounded (skipped l m attempt e w).trace
  skipped-IsBounded e w b =
      note-IsBounded l
        (event_of l m attempt retry_skipped_insufficient_budget (text "insufficient_idle_budget"))
        (failed l m attempt e w) (failed-IsBounded e w b)

  scheduled-IsBounded :
      (e : Err) (w : Run) → IsBounded w.trace → IsBounded (scheduled l m attempt e w).trace
  scheduled-IsBounded e w b =
      note-IsBounded l (event_of l m attempt retry_scheduled (text "retryable_error"))
        (failed l m attempt e w) (failed-IsBounded e w b)

  succeeded-IsBounded : (w : Run) → IsBounded w.trace → IsBounded (succeeded l m attempt w).trace
  unfolding note
  succeeded-IsBounded w b =
      note-IsBounded l (event_of l m attempt model_succeeded (text "model_call_succeeded"))
        (sent l m attempt w) (note-IsBounded l (event_of l m attempt attempt_started []) w b)

pub attempts-IsRetry :
    {R : Type 0} (l : Logic R) (m : Text) (left attempt : ℕ) (last : Option Err) (w : Run)
    → let (reply, v) = attempts l m left attempt last w in IsRetry l m left w reply v
unfolding attempts note
attempts-IsRetry l m zero attempt last w = record {
  count = 0;
  at_most = omega arith;
  called = sym (append-nil w.called);
  bounded = λ b. b;
  answered = λ r h. absurd (none-ne-some r h);
}
attempts-IsRetry l m (suc left) attempt last w = elim (Sum-cases (l.respond w.called m)) [
  | inr (resp, q) ↦
      rw (attempts, q)
        (record {
          count = 1;
          at_most = omega arith;
          called = refl;
          bounded = succeeded-IsBounded l m attempt w;
          answered = λ r h. (w.called, refl, refl, q ∙ ap inr (some-injective resp r h));
        })
  | inl (e, q) ↦
      let called = w.called ++ m ∷ [] in
      let retried =
        is_same_model_retryable_error (l.canceled called at_retry_test) e
        && ltb_ℤ (pos attempt) l.max_retry_count in
      rw (attempts, q)
        (elim (Bool-cases retried) [
          | inr over ↦
              rw over
                (lost l m left w e (failed l m attempt e w) refl (failed-IsBounded l m attempt e w))
          | inl go ↦ rw go (elim (Bool-cases (ltb_ℤ (l.remaining called) l.retry_interval)) [
            | inl short ↦ rw short (
                lost l m left w e (skipped l m attempt e w) refl
                  (skipped-IsBounded l m attempt e w))
            | inr enough ↦ rw enough (
                longer l m left w (scheduled l m attempt e w) _ _ refl
                  (scheduled-IsBounded l m attempt e w)
                  (attempts-IsRetry l m left (suc attempt) (some e) (scheduled l m attempt e w)))
          ])
        ])
]

pub call_model_with_retry-IsRetry :
    {R : Type 0} (l : Logic R) (m : Text) (w : Run)
    → let (reply, v) = call_model_with_retry l m w in
      IsRetry l m (rounds l.max_retry_count) w reply v
unfolding call_model_with_retry
call_model_with_retry-IsRetry l m w = elim (Option-cases (l.new_client m)) [
  | inl q ↦ rw (call_model_with_retry, q) (attempts-IsRetry l m (rounds l.max_retry_count) 0 none w)
  | inr (e, q) ↦
      rw (call_model_with_retry, q)
        (record {
          count = 0;
          at_most = omega arith;
          called = sym (append-nil w.called);
          bounded = λ b. b;
          answered = λ r h. absurd (none-ne-some r h);
        })
]
