-- ===== src/Chat/Degradation/Calls.antt =====
-- The calls that a request in auto mode makes.
use chat_rag.Common.{
  Bool-cases, Option-cases, replicate, is_empty, All, pos, Text, text, ℕ, suc, ◌≤◌, ◌≡◌, refl, sym,
  ap, ◌∙◌, inl, inr, ◌||◌, Option, none, some, List, [], ◌∷◌, ◌++◌,
}
use mathlib.Core.Option.{none-ne-some}
use mathlib.Core.List.{append-nil, append_assoc}
use chat_rag.Chat.Errors.{Err, is_canceled, is_degradation_switchable_error}
use chat_rag.Chat.Trace.{DegradationEvent, blank, stopped, model_switch, IsBounded}
use chat_rag.Chat.Retry.{
  Logic, Run, Reply, at_cancel_test, at_switch_test, rounds, note, call_model_with_retry,
}
use chat_rag.Chat.Retry.Calls.{IsRetry, note-IsBounded, call_model_with_retry-IsRetry}
use chat_rag.Chat.Degradation.{
  unique_models, try_models, call_with_degradation, stop, switch_model, refused,
  degradation_started,
}

-- The first models of a list, each repeated as often as its count says.
abbrev pub blocks : List Text → List ℕ → List Text
blocks [] ns = []
blocks (m ∷ ms) [] = []
blocks (m ∷ ms) (n ∷ ns) = replicate n m ++ blocks ms ns

-- The run goes from `w` to `v` with calls of `ms` in their order, at most `most` of each. A
-- response is that of the last call, and the request then names that call's model.
pub record IsDegraded {R : Type 0} (l : Logic R) (ms : List Text) (w : Run) (reply : Reply R)
    (v : Run) : Type 0 where
  pub counts : List ℕ
  pub at_most : All (λ n. n ≤ rounds l.max_retry_count) counts
  pub called : v.called ≡ w.called ++ blocks ms counts
  pub bounded : IsBounded w.trace → IsBounded v.trace
  pub answered :
      (r : R)
      → reply.response ≡ some r
      → (h : List Text) × (v.called ≡ h ++ v.request_model ∷ [])
        × (l.respond h v.request_model ≡ inr r)

no_blocks : (ms : List Text) → blocks ms [] ≡ []
no_blocks [] = refl
no_blocks (m ∷ ms) = refl

module _ {R : Type 0} (l : Logic R) (m : Text) (ms : List Text) (w : Run) where
  -- One block is the calls of its model.
  one_block : (k : ℕ) → blocks (m ∷ ms) (k ∷ []) ≡ replicate k m
  one_block k = ap (λ x. replicate k m ++ x) (no_blocks ms) ∙ append-nil (replicate k m)

  -- No model is called after `m`.
  last_model :
      (reply reply' : Reply R) (u v : Run)
      → IsRetry l m (rounds l.max_retry_count) w reply u
      → v.called ≡ u.called
      → v.request_model ≡ u.request_model
      → (IsBounded u.trace → IsBounded v.trace)
      → ((r : R) → reply'.response ≡ some r → reply.response ≡ some r)
      → IsDegraded l (m ∷ ms) w reply' v
  last_model reply reply' u v h c q b a = record {
    counts = h.count ∷ [];
    at_most = (h.at_most, tt);
    called = c ∙ h.called ∙ ap (λ x. w.called ++ x) (sym (one_block h.count));
    bounded = λ x. b (h.bounded x);
    answered = λ r e.
        let (prefix, at, same, answer) = h.answered r (a r e) in
        (
          prefix,
          c ∙ at ∙ ap (λ n. prefix ++ n ∷ []) (sym (q ∙ same)),
          ap (l.respond prefix) (q ∙ same) ∙ answer,
        );
  }

  more_models :
      (reply reply' : Reply R) (u u' v : Run)
      → IsRetry l m (rounds l.max_retry_count) w reply u
      → u'.called ≡ u.called
      → (IsBounded u.trace → IsBounded u'.trace)
      → IsDegraded l ms u' reply' v
      → IsDegraded l (m ∷ ms) w reply' v
  more_models reply reply' u u' v h c b d = record {
    counts = h.count ∷ d.counts;
    at_most = (h.at_most, d.at_most);
    called =
        d.called
        ∙ ap (λ x. x ++ blocks ms d.counts) (c ∙ h.called)
        ∙ append_assoc w.called (replicate h.count m) (blocks ms d.counts);
    bounded = λ x. d.bounded (b (h.bounded x));
    answered = d.answered;
  }

module _ {R : Type 0} (l : Logic R) where
  stop-IsBounded :
      (m : Text) (i : ℕ) (reason : Text) (w : Run)
      → IsBounded w.trace
      → IsBounded (stop l m i reason w).trace
  stop-IsBounded m i reason w b =
      note-IsBounded l (record (blank stopped) { model = m; model_index = pos i; reason = reason })
        w b

  switch_model-IsBounded :
      (ordered : List Text) (m : Text) (i : ℕ) (ms : List Text) (w : Run)
      → IsBounded w.trace
      → IsBounded (switch_model l ordered m i ms w).trace
  switch_model-IsBounded ordered m i [] w b = b
  switch_model-IsBounded ordered m i (n ∷ ns) w b =
      note-IsBounded l
        (record (blank model_switch) {
          previous_model = m;
          model = n;
          model_index = pos (suc i);
          ordered_models = ordered;
          reason = text "previous_model_failed";
        })
        w b

  called-switch_model :
      (ordered : List Text) (m : Text) (i : ℕ) (ms : List Text) (w : Run)
      → (switch_model l ordered m i ms w).called ≡ w.called
  unfolding note
  called-switch_model ordered m i [] w = refl
  called-switch_model ordered m i (n ∷ ns) w = refl

pub try_models-IsDegraded :
    {R : Type 0} (l : Logic R) (ordered : List Text) (i : ℕ) (ms : List Text) (last : Option Err)
    (w : Run)
    → let (reply, v) = try_models l ordered i ms last w in IsDegraded l ms w reply v
unfolding try_models note
try_models-IsDegraded l ordered i [] last w = record {
  counts = [];
  at_most = tt;
  called = sym (append-nil w.called);
  bounded = λ b. b;
  answered = λ r h. absurd (none-ne-some r h);
}
try_models-IsDegraded l ordered i (m ∷ ms) last w =
    let reply = (call_model_with_retry l m w).0 in
    let u = (call_model_with_retry l m w).1 in
    let h = call_model_with_retry-IsRetry l m w in
    let failure = λ (e : Err). record (reply) { response = none; err = some e } in
    elim (Option-cases reply.err) [
      | inl q ↦
          rw (try_models, q) (last_model l m ms w reply reply u u h refl refl (λ b. b) (λ r x. x))
      | inr (e, q) ↦
          rw (try_models, q)
            (elim (Bool-cases (is_canceled e || l.canceled u.called at_cancel_test)) [
              | inl gone ↦ rw gone (
                  last_model l m ms w reply (failure e) u (stop l m i (text "context_canceled") u) h
                    refl refl (stop-IsBounded l m i (text "context_canceled") u)
                    (λ r x. absurd (none-ne-some r x)))
              | inr going ↦
                  rw going
                    (elim (Bool-cases
                      (is_degradation_switchable_error (l.canceled u.called at_switch_test) e)) [
                        | inr fatal ↦ rw fatal (
                            last_model l m ms w reply (failure e) u
                              (stop l m i (text "non_switchable_error") u) h refl refl
                              (stop-IsBounded l m i (text "non_switchable_error") u)
                              (λ r x. absurd (none-ne-some r x)))
                        | inl switchable ↦ rw switchable (
                            more_models l m ms w reply _ u (switch_model l ordered m i ms u) _ h
                              (called-switch_model l ordered m i ms u)
                              (switch_model-IsBounded l ordered m i ms u)
                              (try_models-IsDegraded l ordered (suc i) ms (some e)
                                (switch_model l ordered m i ms u)))
                      ])
            ])
    ]

refused-IsDegraded :
    {R : Type 0} (l : Logic R) (message : Text) (ms : List Text) (w : Run)
    → IsDegraded l ms w (refused message) w
refused-IsDegraded l message ms w = record {
  counts = [];
  at_most = tt;
  called = sym (ap (λ x. w.called ++ x) (no_blocks ms) ∙ append-nil w.called);
  bounded = λ b. b;
  answered = λ r h. absurd (none-ne-some r h);
}

-- An event before the run changes none of this.
later :
    {R : Type 0} (l : Logic R) (ms : List Text) (w u : Run) (reply : Reply R) (v : Run)
    → u.called ≡ w.called
    → (IsBounded w.trace → IsBounded u.trace)
    → IsDegraded l ms u reply v
    → IsDegraded l ms w reply v
later l ms w u reply v c b d = record {
  counts = d.counts;
  at_most = d.at_most;
  called = d.called ∙ ap (λ x. x ++ blocks ms d.counts) c;
  bounded = λ x. d.bounded (b x);
  answered = d.answered;
}

called-note :
    {R : Type 0} (l : Logic R) (e : DegradationEvent) (w : Run) → (note l e w).called ≡ w.called
unfolding note
called-note l e w = refl

-- A request in auto mode calls the distinct models of its list in their order, each at most once
-- more than the number of retries and in one block. Where it returns a response, that is the answer
-- to its last call, and the request names the model of that call. The trace of events stays bounded.
pub call_with_degradation-IsDegraded :
    {R : Type 0} (l : Logic R) (w : Run)
    → let (reply, v) = call_with_degradation l w in
      IsDegraded l (unique_models [] l.ordered_models) w reply v
unfolding call_with_degradation
call_with_degradation-IsDegraded l w =
    let ordered = unique_models [] l.ordered_models in
    let begun = note l (degradation_started (text "auto_mode") ordered) w in
    elim (Bool-cases (is_empty l.ordered_models)) [
      | inl unset ↦ rw (call_with_degradation, unset) (refused-IsDegraded l _ ordered w)
      | inr set ↦
          rw (call_with_degradation, set)
            (elim (Bool-cases (is_empty ordered)) [
              | inl invalid ↦ rw invalid (refused-IsDegraded l _ ordered w)
              | inr valid ↦ rw valid (
                  later l ordered w begun _ _
                    (called-note l (degradation_started (text "auto_mode") ordered) w)
                    (note-IsBounded l (degradation_started (text "auto_mode") ordered) w)
                    (try_models-IsDegraded l ordered 0 ordered none begun))
            ])
    ]
