-- ===== src/Router/Semantic/Selected.antt =====
-- What `Run` of internal/router/strategies/semantic/semantic.go selects, and how often it asks.
use chat_rag.Common.{
  leb, if◌then◌else◌, is_empty, keep, any, ℤ, ltb_ℤ, eqb_ℤ, eqb_ℤ-refl, pos, negsuc, Text, text,
  text_eq, text_eq_refl, to_lower, sort, any-sort, ℕ, zero, suc, ◌+◌, ◌≤◌, ◌≡◌, refl, sym, ◌∙◌,
  subst, ◌⊎◌, inl, inr, Bool, true, false, not, ◌||◌, Option, none, some, List, [], ◌∷◌, map, arith,
}
use chat_rag.Router.Semantic.{
  RoutingCandidate, RoutingConfig, Scored, score_at, rank_before, sorted_names, scored, max_score,
  first_name, winner, filter_enabled, select_fallback_with_orig, select_by_label_from_candidates,
}
use chat_rag.Router.Semantic.Offered.{is_listed, is_listed-sorted_names}
use chat_rag.Router.Semantic.Analyzer.{
  AnalyzerReply, analyzer_failed, analyzed, RuleOutcome, no_rules, none_qualified, qualified,
  SemanticEnv, SemanticRun, apply_rule_engine, fallen_back, labelled, analyze, not_routed,
  analyzed_run, run_semantic, parse_label,
}

either : (b : Bool) → (if b then true else true) ≡ true
either true = refl
either false = refl

-- The maximum is the start or a score.
max_score-cases :
    (max : ℤ) (xs : List Scored)
    → (max_score max xs ≡ max) ⊎ (any (λ s. eqb_ℤ s.score (max_score max xs)) xs ≡ true)
unfolding max_score
max_score-cases max [] = inl refl
max_score-cases max (x ∷ xs) = step (λ m. max_score-cases m xs) (ltb_ℤ max x.score)
  where
    step :
        ((m : ℤ) → (max_score m xs ≡ m) ⊎ (any (λ s. eqb_ℤ s.score (max_score m xs)) xs ≡ true))
        → (b : Bool)
        → (max_score (if b then x.score else max) xs ≡ max)
          ⊎ (any (λ s. eqb_ℤ s.score (max_score (if b then x.score else max) xs)) (x ∷ xs) ≡ true)
    step rest true = elim (rest x.score) [
      | inl e ↦ inr (rw (e, eqb_ℤ-refl x.score) refl)
      | inr h ↦ inr (rw h (either (eqb_ℤ x.score (max_score x.score xs))))
    ]
    step rest false = elim (rest max) [
      | inl e ↦ inl e
      | inr h ↦ inr (rw h (either (eqb_ℤ x.score (max_score max xs))))
    ]

pub is_listed-first_name :
    (x : Text) (xs : List Text) → is_listed x xs ≡ true → is_listed (first_name xs) xs ≡ true
is_listed-first_name x [] h = cc
is_listed-first_name x (y ∷ ys) h = rw (text_eq_refl y) refl

-- The winner is one of the names.
is_listed-winner :
    (cfg : RoutingConfig) (ws : List Text)
    → is_empty ws ≡ false
    → is_listed (winner cfg ws) ws ≡ true
is_listed-winner cfg [] h = cc
is_listed-winner cfg (x ∷ []) h = rw (text_eq_refl x) refl
is_listed-winner cfg (x ∷ y ∷ ws) h =
    let names : List Text = x ∷ y ∷ ws in
    let listed : is_listed x (sorted_names cfg names) ≡ true =
      is_listed-sorted_names cfg x names ∙ rw (text_eq_refl x) refl in
    sym (is_listed-sorted_names cfg (first_name (sorted_names cfg names)) names)
    ∙ is_listed-first_name x (sorted_names cfg names) listed

abbrev pub is_candidate : List RoutingCandidate → Text → Bool
is_candidate cs y = any (λ c. text_eq c.model_name y) cs

-- The names of scored candidates are candidates.
is_candidate-kept :
    (label y : Text) (p : Scored → Bool) (cs : List RoutingCandidate)
    → is_listed y (map (λ s. s.name) (keep p (scored label cs))) ≡ true
    → is_candidate cs y ≡ true
is_candidate-kept label y p [] h = h
is_candidate-kept label y p (c ∷ cs) h =
    one (p (record { name = c.model_name; score = score_at label c.scores }))
      (is_candidate-kept label y p cs) h
  where
    one :
        (b : Bool)
        → (is_listed y (map (λ s. s.name) (keep p (scored label cs))) ≡ true
            → is_candidate cs y ≡ true)
        → is_listed y (
            map
              (λ s. s.name)
              (if b
                then record { name = c.model_name; score = score_at label c.scores }
                  ∷ keep p (scored label cs)
                else keep p (scored label cs)))
          ≡ true
        → (if text_eq c.model_name y then true else is_candidate cs y) ≡ true
    one true rest e = ground (arith, rest)
    one false rest e = rw (rest e) (either (text_eq c.model_name y))

any-kept : {A : Type 0} (p q : A → Bool) (xs : List A) → any p (keep q xs) ≡ true → any p xs ≡ true
any-kept p q [] h = h
any-kept p q (x ∷ xs) h = ground (arith, any-kept p q xs)

kept_nonempty :
    {A : Type 0} (p : A → Bool) (f : A → Text) (xs : List A)
    → any p xs ≡ true
    → is_empty (map f (keep p xs)) ≡ false
kept_nonempty p f [] h = cc
kept_nonempty p f (x ∷ xs) h = one (p x) (kept_nonempty p f xs) h
  where
    one :
        (b : Bool)
        → (any p xs ≡ true → is_empty (map f (keep p xs)) ≡ false)
        → (if b then true else any p xs) ≡ true
        → is_empty (map f (if b then x ∷ keep p xs else keep p xs)) ≡ false
    one true rest e = refl
    one false rest e = rest e

-- A winner is a candidate, where the maximum is not negative.
is_candidate-winner :
    (cfg : RoutingConfig) (label : Text) (cs : List RoutingCandidate)
    → (ltb_ℤ (max_score (negsuc 0) (scored label cs)) (pos 0)
        || ltb_ℤ (max_score (negsuc 0) (scored label cs)) cfg.min_score)
      ≡ false
    → is_candidate cs (
        winner cfg (
          map
            (λ s. s.name)
            (keep (λ s. eqb_ℤ s.score (max_score (negsuc 0) (scored label cs))) (scored label cs))))
      ≡ true
is_candidate-winner cfg label cs h =
    let arr : List Scored = scored label cs in
    let max : ℤ = max_score (negsuc 0) arr in
    let ws : List Text = map (λ s. s.name) (keep (λ s. eqb_ℤ s.score max) arr) in
    elim (max_score-cases (negsuc 0) arr) [
      | inl e ↦ impossible (subst (λ m. (ltb_ℤ m (pos 0) || ltb_ℤ m cfg.min_score) ≡ false) e h)
      | inr q ↦
          is_candidate-kept label (winner cfg ws) (λ s. eqb_ℤ s.score max) cs
            (is_listed-winner cfg ws (kept_nonempty (λ s. eqb_ℤ s.score max) (λ s. s.name) arr q))
    ]
  where
    impossible : {b : Bool} → true ≡ false → b ≡ true
    impossible e = cc

-- A label selects a candidate, or the fallback.
select_by_label_from_candidates-cases :
    (cfg : RoutingConfig) (label orig : Text) (cs : List RoutingCandidate)
    → (is_candidate cs (select_by_label_from_candidates cfg label orig cs) ≡ true)
      ⊎ (select_by_label_from_candidates cfg label orig cs ≡ select_fallback_with_orig cfg orig)
unfolding select_by_label_from_candidates
select_by_label_from_candidates-cases cfg label orig cs =
    let max : ℤ = max_score (negsuc 0) (scored label cs) in
    by_tests (is_empty cs) (ltb_ℤ max (pos 0) || ltb_ℤ max cfg.min_score)
      (winner cfg (map (λ s. s.name) (keep (λ s. eqb_ℤ s.score max) (scored label cs))))
      (is_candidate-winner cfg label cs)
  where
    by_tests :
        (a b : Bool) (w : Text)
        → (b ≡ false → is_candidate cs w ≡ true)
        → (is_candidate cs (
              if a
              then select_fallback_with_orig cfg orig
              else if b
              then select_fallback_with_orig cfg orig
              else w)
            ≡ true)
          ⊎ ((if a
                then select_fallback_with_orig cfg orig
                else if b
                then select_fallback_with_orig cfg orig
                else w)
              ≡ select_fallback_with_orig cfg orig)
    by_tests true b w h = inr refl
    by_tests false true w h = inr refl
    by_tests false false w h = inl (h refl)

module _ (cfg : RoutingConfig) (env : SemanticEnv) (orig : Text) where
  -- What is true of the run's result.
  abbrev Sound : List RoutingCandidate → ℕ → SemanticRun → Type 0
  Sound cs bound r =
      (leb r.calls bound ≡ true)
      × ((is_candidate cs r.selected ≡ true) ⊎ (r.selected ≡ select_fallback_with_orig cfg orig))

  Sound-if :
      (cs : List RoutingCandidate) (n : ℕ) (b : Bool) (q r : SemanticRun)
      → Sound cs n q
      → Sound cs n r
      → Sound cs n (if b then q else r)
  Sound-if cs n true q r h g = h
  Sound-if cs n false q r h g = g

  fallen_back-Sound :
      (cs : List RoutingCandidate) (calls n : ℕ)
      → calls ≤ n
      → Sound cs n (fallen_back cfg env orig cs calls)
  fallen_back-Sound cs calls n h = (ground arith, inr refl)

  labelled-Sound :
      (cs : List RoutingCandidate) (label : Text) (calls n : ℕ)
      → calls ≤ n
      → Sound cs n (labelled cfg env orig cs label calls)
  labelled-Sound cs label calls n h =
      (ground arith, select_by_label_from_candidates-cases cfg label orig cs)

  analyze-Sound :
      (cs : List RoutingCandidate) (calls left : ℕ)
      → Sound cs (calls + suc left) (analyze cfg env orig cs calls left)
  unfolding analyze
  analyze-Sound cs calls zero =
      Sound-if cs (calls + 1) (env.is_late calls) _ _
        (fallen_back-Sound cs calls (calls + 1) (omega arith)) (replied (env.reply calls))
    where
      replied :
          (o : AnalyzerReply)
          → Sound cs (calls + 1) (elim o [
            | analyzer_failed retryable ↦ fallen_back cfg env orig cs (suc calls)
            | analyzed s ↦
                if is_empty (parse_label cfg s)
                then fallen_back cfg env orig cs (suc calls)
                else labelled cfg env orig cs (parse_label cfg s) (suc calls)
          ])
      replied (analyzer_failed b) = fallen_back-Sound cs (suc calls) (calls + 1) (omega arith)
      replied (analyzed s) =
          Sound-if cs (calls + 1) (is_empty (parse_label cfg s)) _ _
            (fallen_back-Sound cs (suc calls) (calls + 1) (omega arith))
            (labelled-Sound cs (parse_label cfg s) (suc calls) (calls + 1) (omega arith))
  analyze-Sound cs calls (suc left) =
      let n : ℕ = calls + suc (suc left) in
      let again : SemanticRun = analyze cfg env orig cs (suc calls) left in
      let sound : Sound cs n again =
        subst (λ k. Sound cs k again) (omega arith) (analyze-Sound cs (suc calls) left) in
      Sound-if cs n (env.is_late calls) (fallen_back cfg env orig cs calls) _
        (fallen_back-Sound cs calls n (omega arith)) (replied again sound (env.reply calls))
    where
      replied :
          (again : SemanticRun)
          → Sound cs (calls + suc (suc left)) again
          → (o : AnalyzerReply)
          → Sound cs (calls + suc (suc left)) (elim o [
            | analyzer_failed retryable ↦
                if retryable then again else fallen_back cfg env orig cs (suc calls)
            | analyzed s ↦
                if is_empty (parse_label cfg s)
                then again
                else labelled cfg env orig cs (parse_label cfg s) (suc calls)
          ])
      replied again h (analyzer_failed b) =
          Sound-if cs (calls + suc (suc left)) b again _ h
            (fallen_back-Sound cs (suc calls) (calls + suc (suc left)) (omega arith))
      replied again h (analyzed s) =
          Sound-if cs (calls + suc (suc left)) (is_empty (parse_label cfg s)) again _ h (
            labelled-Sound cs (parse_label cfg s) (suc calls) (calls + suc (suc left))
              (omega arith))

  -- The rules leave some of the candidates.
  abbrev Within : List RoutingCandidate → Option (List RoutingCandidate) → Type 0
  Within cs none = Unit
  Within cs (some left) = (y : Text) → is_candidate left y ≡ true → is_candidate cs y ≡ true

  apply_rule_engine-Within :
      (cs : List RoutingCandidate) (o : RuleOutcome) → Within cs (apply_rule_engine cfg o cs)
  apply_rule_engine-Within cs no_rules = λ y h. h
  apply_rule_engine-Within cs none_qualified = by_test (is_empty cfg.fallback_model_name)
    where
      by_test : (b : Bool) → Within cs (if b then some cs else none)
      by_test true = λ y h. h
      by_test false = tt
  apply_rule_engine-Within cs (qualified names) =
      by_test (is_empty (keep (λ c. any (λ x. text_eq x c.model_name) names) cs))
    where
      by_test :
          (b : Bool)
          → Within cs (
              if b
              then some cs
              else some (
                  sort
                    (λ a b. rank_before names a.model_name b.model_name)
                    (keep (λ c. any (λ x. text_eq x c.model_name) names) cs)))
      by_test true = λ y h. h
      by_test false = λ y h.
          any-kept (λ c. text_eq c.model_name y) (λ c. any (λ x. text_eq x c.model_name) names) cs
            (sym (
                any-sort (λ a b. rank_before names a.model_name b.model_name)
                  (λ c. text_eq c.model_name y)
                  (keep (λ c. any (λ x. text_eq x c.model_name) names) cs))
              ∙ h)

  analyzed_run-Sound :
      (cs : List RoutingCandidate) (o : Option (List RoutingCandidate))
      → Within cs o
      → Sound cs 4 (analyzed_run cfg env orig cs o)
  analyzed_run-Sound cs none w = (refl, inr refl)
  analyzed_run-Sound cs (some left) w = by_test env.has_client
    where
      wider : (r : SemanticRun) → Sound left 4 r → Sound cs 4 r
      wider r (few, inl h) = (few, inl (w r.selected h))
      wider r (few, inr h) = (few, inr h)

      by_test :
          (b : Bool)
          → Sound cs 4
              (if b then analyze cfg env orig left 0 3 else fallen_back cfg env orig left 0)
      by_test true = wider (analyze cfg env orig left 0 3) (analyze-Sound left 0 3)
      by_test false = (refl, inr refl)

  -- A routed request asks the analyzer four times at most, and the model that is selected is an
  -- enabled candidate, or the configured fallback, or, where no fallback is configured, the requested
  -- name itself.
  pub run_semantic-Sound :
      text_eq (to_lower orig) (text "auto") ≡ true
      → (leb (run_semantic cfg env orig false).calls 4 ≡ true)
        × ((is_candidate (filter_enabled cfg.candidates) (run_semantic cfg env orig false).selected
              ≡ true)
            ⊎ ((run_semantic cfg env orig false).selected ≡ select_fallback_with_orig cfg orig))
  unfolding run_semantic
  run_semantic-Sound auto =
      let cs : List RoutingCandidate = filter_enabled cfg.candidates in
      subst
        (λ b. Sound cs 4 (
          if not b
          then not_routed cfg env orig
          else analyzed_run cfg env orig cs (apply_rule_engine cfg (env.rules cs) cs)))
        (sym auto)
        (analyzed_run-Sound cs (apply_rule_engine cfg (env.rules cs) cs)
          (apply_rule_engine-Within cs (env.rules cs)))
