-- ===== src/Router/Semantic/Fallback.antt =====
-- The model that is tried first (internal/router/strategies/semantic/semantic.go).
use chat_rag.Common.{
  if◌then◌else◌, is_empty, Text, text, text_eq, text_eq_refl, to_lower, ◌≡◌, refl, sym, ◌∙◌, subst,
  Bool, true, false, not, ◌&&◌, List, [], ◌∷◌, ◌++◌,
}
use chat_rag.Router.Semantic.{
  RoutingCandidate, RoutingConfig, first_name, filter_enabled, order_candidates_by_label,
  with_fallback, dedup, dedup_from,
}
use chat_rag.Router.Semantic.Offered.{
  is_listed, ordered_names, is_listed-ordered_names, ordered_names,
}
use chat_rag.Router.Semantic.Analyzer.{none_qualified, SemanticEnv, fallen_back, run_semantic}
use chat_rag.Router.Semantic.Selected.{is_candidate}

first-with_fallback :
    (cfg : RoutingConfig) (x : Text) (xs : List Text) → first_name (with_fallback cfg (x ∷ xs)) ≡ x
first-with_fallback cfg x xs =
    by_test
      (not (is_empty cfg.fallback_model_name) && not (is_listed cfg.fallback_model_name (x ∷ xs)))
  where
    by_test :
        (b : Bool) → first_name (if b then (x ∷ xs) ++ cfg.fallback_model_name ∷ [] else x ∷ xs) ≡ x
    by_test true = refl
    by_test false = refl

first-dedup :
    (cfg : RoutingConfig) (y : Text) (names : List Text)
    → is_listed y names ≡ true
    → is_listed (first_name (with_fallback cfg (dedup names))) names ≡ true
unfolding dedup_from
first-dedup cfg y [] h = cc
first-dedup cfg y (x ∷ xs) h =
    rw (first-with_fallback cfg x (dedup_from (x ∷ []) xs), text_eq_refl x) refl

-- The first model of the ordered list is a candidate, where there is one.
is_candidate-order_candidates_by_label :
    (cfg : RoutingConfig) (label : Text) (c : RoutingCandidate) (cs : List RoutingCandidate)
    → is_candidate (c ∷ cs) (first_name (order_candidates_by_label cfg label (c ∷ cs))) ≡ true
unfolding order_candidates_by_label
is_candidate-order_candidates_by_label cfg label c cs =
    let names : List Text = ordered_names cfg label (c ∷ cs) in
    let first : Text = first_name (with_fallback cfg (dedup names)) in
    let listed : is_listed c.model_name names ≡ true =
      is_listed-ordered_names cfg label c.model_name (c ∷ cs)
      ∙ rw (text_eq_refl c.model_name) refl in
    sym (is_listed-ordered_names cfg label first (c ∷ cs))
    ∙ first-dedup cfg c.model_name names listed

forced :
    (cfg : RoutingConfig) (env : SemanticEnv) (orig : Text) (c : RoutingCandidate)
    (cs : List RoutingCandidate)
    → text_eq (to_lower orig) (text "auto") ≡ true
    → filter_enabled cfg.candidates ≡ c ∷ cs
    → env.rules (c ∷ cs) ≡ none_qualified
    → is_empty cfg.fallback_model_name ≡ false
    → run_semantic cfg env orig false ≡ fallen_back cfg env orig (c ∷ cs) 0
unfolding run_semantic
forced cfg env orig c cs auto enabled rules fallback =
    rw (run_semantic, auto, enabled, rules, fallback) (rw fallback refl)

-- Where the rules leave no model, a configured fallback is selected; but the model that stands first
-- in the ordered list is an enabled candidate, where there is one.
pub run_semantic-none_qualified :
    (cfg : RoutingConfig) (env : SemanticEnv) (orig : Text) (c : RoutingCandidate)
    (cs : List RoutingCandidate)
    → text_eq (to_lower orig) (text "auto") ≡ true
    → filter_enabled cfg.candidates ≡ c ∷ cs
    → env.rules (c ∷ cs) ≡ none_qualified
    → is_empty cfg.fallback_model_name ≡ false
    → ((run_semantic cfg env orig false).selected ≡ cfg.fallback_model_name)
      × (is_candidate (c ∷ cs) (first_name (run_semantic cfg env orig false).ordered) ≡ true)
run_semantic-none_qualified cfg env orig c cs auto enabled rules fallback =
    subst
      (λ r.
        (r.selected ≡ cfg.fallback_model_name)
        × (is_candidate (c ∷ cs) (first_name r.ordered) ≡ true))
      (sym (forced cfg env orig c cs auto enabled rules fallback))
      (rw fallback refl, is_candidate-order_candidates_by_label cfg [] c cs)
