-- ===== src/Chat/Degradation/Complete.antt =====
-- When degradation (`callWithDegradation`) reaches a model that answers.
use chat_rag.Common.{
  Bool-cases, is_empty, All, pos_part, ◌≤ℤ◌, ltb_ℤ, pos, Text, text, ℕ, zero, suc, ◌≡◌, refl, sym,
  ap, ◌∙◌, subst, inl, inr, true, false, ◌&&◌, ◌||◌, Option, none, some, List, [], ◌∷◌, ◌++◌, arith,
}
use chat_rag.Chat.Errors.{
  Err, is_canceled, is_degradation_switchable_error, is_same_model_retryable_error,
}
use chat_rag.Chat.Retry.{
  Logic, Run, Reply, at_cancel_test, at_switch_test, rounds, note, attempts, call_model_with_retry,
  scheduled, at_retry_test,
}
use chat_rag.Chat.Degradation.{
  unique_models, try_models, call_with_degradation, switch_model, degradation_started,
}

module _ {R : Type 0} (l : Logic R) where
  -- Whatever is called, the error lets the next model be tried.
  abbrev pub IsSwitchable : Err → Type 0
  IsSwitchable e =
      (called : List Text)
      → ((is_canceled e || l.canceled called at_cancel_test) ≡ false)
        × (is_degradation_switchable_error (l.canceled called at_switch_test) e ≡ true)

  -- Whenever it is called, it fails so.
  pub record IsFailing (m : Text) : Type 0 where
    pub has_client : l.new_client m ≡ none
    pub fails : (h : List Text) → (e : Err) × (l.respond h m ≡ inl e) × IsSwitchable e

  -- Whenever it is called, it answers.
  pub record IsAnswering (m : Text) : Type 0 where
    pub has_client : l.new_client m ≡ none
    pub answers : (h : List Text) → (r : R) × (l.respond h m ≡ inr r)

  attempts-fail :
      (m : Text) (left attempt : ℕ) (last : Err) (w : Run)
      → IsFailing m
      → IsSwitchable last
      → (e : Err) × ((attempts l m left attempt (some last) w).0.err ≡ some e) × IsSwitchable e
  unfolding attempts
  attempts-fail m zero attempt last w f h = (last, refl, h)
  attempts-fail m (suc left) attempt last w f h =
      let (e, q, t) = f.fails w.called in
      let called = w.called ++ m ∷ [] in
      let again = attempts-fail m left (suc attempt) e (scheduled l m attempt e w) f t in
      rw (attempts, q)
        (elim (Bool-cases (
          is_same_model_retryable_error (l.canceled called at_retry_test) e
          && ltb_ℤ (pos attempt) l.max_retry_count)) [
            | inr over ↦ rw over (e, refl, t)
            | inl go ↦ rw go (elim (Bool-cases (ltb_ℤ (l.remaining called) l.retry_interval)) [
              | inl short ↦ rw short (e, refl, t)
              | inr enough ↦ rw enough again
            ])
          ])

  -- At least one round.
  module _ (enough : pos 0 ≤ℤ l.max_retry_count) where
    rounds-suc : (n : ℕ) × (rounds l.max_retry_count ≡ suc n)
    rounds-suc = (pos_part l.max_retry_count, ground arith)

    call-fail :
        (m : Text) (w : Run)
        → IsFailing m
        → (e : Err) × ((call_model_with_retry l m w).0.err ≡ some e) × IsSwitchable e
    unfolding call_model_with_retry attempts
    call-fail m w f =
        let (n, k) = rounds-suc in
        let (e, q, t) = f.fails w.called in
        rw (call_model_with_retry, f.has_client, k) (attempts-fail m (suc n) 0 e w f t)

    call-answer :
        (m : Text) (w : Run)
        → IsAnswering m
        → (r : R) × ((call_model_with_retry l m w).0 ≡ record { response = some r; err = none })
          × ((call_model_with_retry l m w).1.request_model ≡ m)
    unfolding call_model_with_retry attempts note
    call-answer m w a =
        let (n, k) = rounds-suc in
        let (r, q) = a.answers w.called in
        rw (call_model_with_retry, a.has_client, k, attempts, q) (r, refl, refl)

    -- `m` answers after the models `ms` have failed.
    IsReached : Text → Reply R × Run → Type 0
    IsReached m (reply, v) =
        (r : R) × (reply ≡ record { response = some r; err = none }) × (v.request_model ≡ m)

    try-IsReached :
        (ordered : List Text) (i : ℕ) (ms : List Text) (m : Text) (rest : List Text)
        (last : Option Err) (w : Run)
        → All IsFailing ms
        → IsAnswering m
        → IsReached m (try_models l ordered i (ms ++ m ∷ rest) last w)
    unfolding try_models IsReached
    try-IsReached ordered i [] m rest last w f a =
        let (r, q, n) = call-answer m w a in rw (try_models, q) (r, q, n)
    try-IsReached ordered i (x ∷ ms) m rest last w f a =
        let (e, q, t) = call-fail x w f.0 in
        let u = (call_model_with_retry l x w).1 in
        let s = t u.called in
        rw (try_models, q, s.0, s.1)
          (try-IsReached ordered (suc i) ms m rest (some e)
            (switch_model l ordered x i (ms ++ m ∷ rest) u) f.1 a)

unique_models-listed :
    (ms : List Text) → is_empty (unique_models [] ms) ≡ false → is_empty ms ≡ false
unfolding unique_models
unique_models-listed [] h = h
unique_models-listed (m ∷ ms) h = refl

-- Failover: where the retry count is not negative, the models before `m` in the list of distinct
-- models fail whenever they are called, with errors that let the next model be tried, and `m` answers
-- whenever it is called, a request in auto mode returns an answer of `m`, and names it.
pub call_with_degradation-IsReached :
    {R : Type 0} (l : Logic R) (ms : List Text) (m : Text) (rest : List Text) (w : Run)
    → pos 0 ≤ℤ l.max_retry_count
    → unique_models [] l.ordered_models ≡ ms ++ m ∷ rest
    → All (IsFailing l) ms
    → IsAnswering l m
    → let (reply, v) = call_with_degradation l w in
      (r : R) × (reply ≡ record { response = some r; err = none }) × (v.request_model ≡ m)
unfolding call_with_degradation
call_with_degradation-IsReached l ms m rest w h u f a =
    let ordered = unique_models [] l.ordered_models in
    let begun = note l (degradation_started (text "auto_mode") ordered) w in
    let valid : is_empty ordered ≡ false = ap is_empty u ∙ nonempty ms in
    let reached =
      subst (λ us. IsReached l h m (try_models l ordered 0 us none begun)) (sym u)
        (try-IsReached l h ordered 0 ms m rest none begun f a) in
    rw (call_with_degradation, unique_models-listed l.ordered_models valid, valid)
      (unfold IsReached in reached)
  where
    nonempty : (xs : List Text) → is_empty (xs ++ m ∷ rest) ≡ false
    nonempty [] = refl
    nonempty (x ∷ xs) = refl
