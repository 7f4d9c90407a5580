-- ===== src/Router/Semantic/Analyzer.antt =====
-- The classification of a request and `Run` in internal/router/strategies/semantic/semantic.go.
use chat_rag.Common.{
  leb, ◌==◌, if◌then◌else◌, length, drop, is_empty, keep, any, Text, text, text_eq, has_prefix,
  contains, to_lower, sort, ℕ, zero, suc, Bool, false, not, ◌&&◌, ◌||◌, Option, none, some, List,
  [], ◌∷◌,
}
use chat_rag.Router.Semantic.{
  rank_before, RoutingCandidate, RoutingConfig, filter_enabled, order_candidates_by_label,
  select_by_label_from_candidates, select_fallback_with_orig,
}

-- `[0-9A-Za-z_]`, and where `\b` matches: between the bytes before and after.
abbrev is_word : ℕ → Bool
is_word c =
    (leb 48 c && leb c 57) || ((leb 65 c && leb c 90) || ((c == 95) || (leb 97 c && leb c 122)))

abbrev is_word_at : Option ℕ → Bool
is_word_at none = false
is_word_at (some c) = is_word c

abbrev is_boundary : Option ℕ → Option ℕ → Bool
is_boundary before after = if is_word_at before then not (is_word_at after) else is_word_at after

abbrev head_of : Text → Option ℕ
head_of [] = none
head_of (x ∷ xs) = some x

-- The last byte of a text, or the byte before it.
abbrev last_byte : Option ℕ → Text → Option ℕ
last_byte before [] = before
last_byte before (x ∷ xs) = last_byte (some x) xs

-- The first label that matches here as a word.
abbrev pub match_here : Option ℕ → Text → List Text → Option Text
match_here before s [] = none
match_here before s (l ∷ ls) =
    let later = match_here before s ls in
    if is_boundary before (head_of s)
      && (has_prefix s l && is_boundary (last_byte before l) (head_of (drop (length l) s)))
    then some l
    else later

-- `re.FindString`, empty for no match.
unfoldable pub find_label : Option ℕ → Text → List Text → Text
find_label before [] ls = elim (match_here before [] ls) [ none ↦ [] | some l ↦ l ]
find_label before (x ∷ xs) ls =
    let later = find_label (some x) xs ls in
    elim (match_here before (x ∷ xs) ls) [ none ↦ later | some l ↦ l ]

abbrev pub scan_labels : Text → List Text → Text
scan_labels s [] = []
scan_labels s (l ∷ ls) =
    let later = scan_labels s ls in if not (is_empty l) && contains s l then l else later

abbrev pub labels_of : RoutingConfig → List Text
labels_of cfg =
    if is_empty cfg.analysis_labels
    then text "simple_request" ∷ text "planning_request" ∷ text "code_modification" ∷ []
    else cfg.analysis_labels

pub parse_label : RoutingConfig → Text → Text
parse_label cfg s =
    let found = find_label none s (labels_of cfg) in
    if is_empty found then scan_labels s (labels_of cfg) else found

-- The error of a call, by what `isRetryableAnalyzerErr` says of it, or the text of the response.
pub data AnalyzerReply : Type 0 where
  analyzer_failed : Bool → AnalyzerReply
  analyzed : Text → AnalyzerReply

-- What the rules say: there are none, none of the models qualifies or the evaluation failed, or the
-- names of the models that qualify.
pub data RuleOutcome : Type 0 where
  no_rules none_qualified : RuleOutcome
  qualified : List Text → RuleOutcome

-- What the run depends on: whether the time is over before a call, the calls' replies, whether the
-- client was made, and what the rules say of the candidates.
pub record SemanticEnv : Type 0 where
  pub is_late : ℕ → Bool
  pub reply : ℕ → AnalyzerReply
  pub has_client : Bool
  pub rules : List RoutingCandidate → RuleOutcome

-- The result of `Run` and the number of calls of the analyzer.
pub record SemanticRun : Type 0 where
  pub selected : Text
  pub ordered : List Text
  pub calls : ℕ

-- `applyRuleEngine`: the candidates, or `none` for the forced fallback.
abbrev pub apply_rule_engine :
    RoutingConfig → RuleOutcome → List RoutingCandidate → Option (List RoutingCandidate)
apply_rule_engine cfg no_rules cs = some cs
apply_rule_engine cfg none_qualified cs = if is_empty cfg.fallback_model_name then some cs else none
apply_rule_engine cfg (qualified names) cs =
    let filtered = keep (λ c. any (λ x. text_eq x c.model_name) names) cs in
    if is_empty filtered
    then some cs
    else some (sort (λ a b. rank_before names a.model_name b.model_name) filtered)

module _ (cfg : RoutingConfig) (env : SemanticEnv) (orig : Text) where
  abbrev pub fallen_back : List RoutingCandidate → ℕ → SemanticRun
  fallen_back cs calls = record {
    selected = select_fallback_with_orig cfg orig;
    ordered = order_candidates_by_label cfg [] cs;
    calls = calls;
  }

  abbrev pub labelled : List RoutingCandidate → Text → ℕ → SemanticRun
  labelled cs label calls = record {
    selected = select_by_label_from_candidates cfg label orig cs;
    ordered = order_candidates_by_label cfg label cs;
    calls = calls;
  }

  -- The loop of `Run`, after `calls` calls with `left` retries left.
  unfoldable pub analyze : List RoutingCandidate → ℕ → ℕ → SemanticRun
  analyze cs calls zero =
      if env.is_late calls then fallen_back cs calls else elim (env.reply calls) [
        | analyzer_failed retryable ↦ fallen_back cs (suc calls)
        | analyzed s ↦
            let label = parse_label cfg s in
            if is_empty label then fallen_back cs (suc calls) else labelled cs label (suc calls)
      ]
  analyze cs calls (suc left) =
      let again = analyze cs (suc calls) left in
      if env.is_late calls then fallen_back cs calls else elim (env.reply calls) [
        | analyzer_failed retryable ↦ if retryable then again else fallen_back cs (suc calls)
        | analyzed s ↦
            let label = parse_label cfg s in
            if is_empty label then again else labelled cs label (suc calls)
      ]

  abbrev pub not_routed : SemanticRun
  not_routed = record { selected = []; ordered = []; calls = 0 }

  abbrev pub analyzed_run : List RoutingCandidate → Option (List RoutingCandidate) → SemanticRun
  analyzed_run cs none = fallen_back cs 0
  analyzed_run cs (some left) = if env.has_client then analyze left 0 3 else fallen_back left 0

  -- `Run`, for a request for the model `orig`.
  unfoldable pub run_semantic : Bool → SemanticRun
  run_semantic no_messages =
      let cs = filter_enabled cfg.candidates in
      if no_messages || not (text_eq (to_lower orig) (text "auto"))
      then not_routed
      else analyzed_run cs (apply_rule_engine cfg (env.rules cs) cs)
