-- ===== src/Router/Semantic/Samples.antt =====
-- The theorems on the semantic router at two candidates.
use chat_rag.Common.{leb, pos, text, text_eq, ◌≡◌, refl, ◌⊎◌, true, false, [], ◌∷◌}
use chat_rag.Router.Semantic.{
  RoutingCandidate, RoutingConfig, first_name, select_fallback_with_orig, order_candidates_by_label,
}
use chat_rag.Router.Semantic.Analyzer.{
  analyzed, RuleOutcome, no_rules, none_qualified, SemanticEnv, run_semantic,
}
use chat_rag.Router.Semantic.Offered.{occurrences, occurrences-order_candidates_by_label}
use chat_rag.Router.Semantic.Selected.{is_candidate, run_semantic-Sound}
use chat_rag.Router.Semantic.Fallback.{run_semantic-none_qualified}

abbrev fast : RoutingCandidate
fast = record {
  model_name = text "fast";
  enabled = true;
  scores = (text "simple_request", pos 9) ∷ [];
}

abbrev deep : RoutingCandidate
deep = record {
  model_name = text "deep";
  enabled = true;
  scores = (text "simple_request", pos 2) ∷ [];
}

abbrev routing : RoutingConfig
routing = record {
  candidates = fast ∷ deep ∷ [];
  min_score = pos 1;
  tie_break_order = text "deep" ∷ [];
  fallback_model_name = text "safe";
  analysis_labels = [];
}

abbrev answering : RuleOutcome → SemanticEnv
answering o = record {
  is_late = λ _. false;
  reply = λ _. analyzed (text "simple_request");
  has_client = true;
  rules = λ _. o;
}

occurrences-order_candidates_by_label_example :
    occurrences
      (text "deep")
      (order_candidates_by_label routing (text "simple_request") (fast ∷ deep ∷ []))
    ≡ 1
unfolding text_eq
occurrences-order_candidates_by_label_example =
    occurrences-order_candidates_by_label routing (text "simple_request") (fast ∷ deep ∷ [])
      (text "deep")

run_semantic-Sound_example :
    (leb (run_semantic routing (answering no_rules) (text "Auto") false).calls 4 ≡ true)
    × ((is_candidate
            (fast ∷ deep ∷ [])
            (run_semantic routing (answering no_rules) (text "Auto") false).selected
          ≡ true)
        ⊎ ((run_semantic routing (answering no_rules) (text "Auto") false).selected
            ≡ select_fallback_with_orig routing (text "Auto")))
unfolding text_eq
run_semantic-Sound_example = run_semantic-Sound routing (answering no_rules) (text "Auto") refl

run_semantic-none_qualified_example :
    ((run_semantic routing (answering none_qualified) (text "auto") false).selected ≡ text "safe")
    × (is_candidate
          (fast ∷ deep ∷ [])
          (first_name (run_semantic routing (answering none_qualified) (text "auto") false).ordered)
        ≡ true)
unfolding text_eq
run_semantic-none_qualified_example =
    run_semantic-none_qualified routing (answering none_qualified) (text "auto") fast (deep ∷ [])
      refl refl refl refl
