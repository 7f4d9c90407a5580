-- ===== src/Router/Semantic.antt =====
-- The semantic router, internal/router/strategies/semantic/semantic.go: a model classifies the
-- request, and the label chooses among the candidates. The input of the prompt, the rules and the
-- clock are parameters. A Go map is an association list, where the first entry of a key counts.
pub mod Analyzer
pub mod Offered
pub mod Selected
pub mod Fallback
mod Samples
use chat_rag.Common.{
  ltb, ◌==◌, if◌then◌else◌, is_empty, keep, any, concat, ℤ, ltb_ℤ, eqb_ℤ, pos, negsuc, Text,
  text_eq, sort, ℕ, suc, Bool, true, false, not, ◌&&◌, ◌||◌, Option, none, some, List, [], ◌∷◌,
  ◌++◌, map,
}

-- The parts of `SemanticConfig` that choose a model.
pub record RoutingCandidate : Type 0 where
  pub model_name : Text
  pub enabled : Bool
  pub scores : List (Text × ℤ)

pub record RoutingConfig : Type 0 where
  pub candidates : List RoutingCandidate
  pub min_score : ℤ
  pub tie_break_order : List Text
  pub fallback_model_name : Text
  pub analysis_labels : List Text

-- `c.Scores[label]`.
abbrev pub score_at : Text → List (Text × ℤ) → ℤ
score_at label [] = pos 0
score_at label ((l, n) ∷ rest) =
    let later = score_at label rest in if text_eq l label then n else later

abbrev pub filter_enabled : List RoutingCandidate → List RoutingCandidate
filter_enabled cs = keep (λ c. c.enabled) cs

-- `indexMap`: the last index of a name, from `i` on.
abbrev pub index_map : ℕ → List Text → Text → Option ℕ
index_map i [] name = none
index_map i (v ∷ vs) name = elim (index_map (suc i) vs name) [
  | some j ↦ some j
  | none ↦ if text_eq v name then some i else none
]

-- `order[name]`, zero for a name that is not listed.
abbrev pub rank_of : List Text → Text → ℕ
rank_of order name = elim (index_map 0 order name) [ none ↦ 0 | some i ↦ i ]

-- `a < b` on strings.
unfoldable pub text_before : Text → Text → Bool
text_before [] [] = false
text_before [] (y ∷ ys) = true
text_before (x ∷ xs) [] = false
text_before (x ∷ xs) (y ∷ ys) = ltb x y || ((x == y) && text_before xs ys)

-- The names in the order of a sort: by `tieBreakOrder` where there is one, else by name.
abbrev pub rank_before : List Text → Text → Text → Bool
rank_before order a b = ltb (rank_of order a) (rank_of order b)

abbrev pub sorted_names : RoutingConfig → List Text → List Text
sorted_names cfg names =
    if is_empty cfg.tie_break_order
    then sort text_before names
    else sort (rank_before cfg.tie_break_order) names

unfoldable pub dedup_from : List Text → List Text → List Text
dedup_from seen [] = []
dedup_from seen (v ∷ vs) =
    let known = any (λ x. text_eq x v) seen in
    let rest = dedup_from (if known then seen else v ∷ seen) vs in if known then rest else v ∷ rest

abbrev pub dedup : List Text → List Text
dedup names = dedup_from [] names

pub record Scored : Type 0 where
  pub name : Text
  pub score : ℤ

abbrev pub scored : Text → List RoutingCandidate → List Scored
scored label cs = map (λ c. record { name = c.model_name; score = score_at label c.scores }) cs

abbrev pub higher : Scored → Scored → Bool
higher a b = ltb_ℤ b.score a.score

-- Whether an element belongs to the bucket before which it stands.
abbrev joins : Scored → List Scored → Bool
joins x [] = false
joins x (y ∷ ys) = eqb_ℤ x.score y.score

-- The runs of equal scores.
unfoldable pub buckets : List Scored → List (List Scored)
buckets [] = []
buckets (x ∷ xs) = elim (buckets xs) [
  | [] ↦ (x ∷ []) ∷ []
  | g ∷ gs ↦ if joins x g then (x ∷ g) ∷ gs else (x ∷ []) ∷ g ∷ gs
]

abbrev pub tie_broken : RoutingConfig → List Scored → List Scored
tie_broken cfg arr =
    if is_empty cfg.tie_break_order
    then arr
    else concat (map (sort (λ a b. rank_before cfg.tie_break_order a.name b.name)) (buckets arr))

abbrev pub with_fallback : RoutingConfig → List Text → List Text
with_fallback cfg out =
    if not (is_empty cfg.fallback_model_name)
      && not (any (λ x. text_eq x cfg.fallback_model_name) out)
    then out ++ cfg.fallback_model_name ∷ []
    else out

-- `orderCandidatesByLabel`.
pub order_candidates_by_label : RoutingConfig → Text → List RoutingCandidate → List Text
order_candidates_by_label cfg label cs = with_fallback cfg (
    dedup (
      if is_empty label
      then sorted_names cfg (map (λ c. c.model_name) cs)
      else map (λ s. s.name) (tie_broken cfg (sort higher (scored label cs)))))

abbrev pub select_fallback_with_orig : RoutingConfig → Text → Text
select_fallback_with_orig cfg orig =
    if is_empty cfg.fallback_model_name then orig else cfg.fallback_model_name

-- The loop for the maximum, from `max` on.
unfoldable pub max_score : ℤ → List Scored → ℤ
max_score max [] = max
max_score max (x ∷ xs) = max_score (if ltb_ℤ max x.score then x.score else max) xs

-- `winners[0]`; the list is not empty where the code reads it.
abbrev pub first_name : List Text → Text
first_name [] = []
first_name (x ∷ xs) = x

abbrev pub winner : RoutingConfig → List Text → Text
winner cfg (x ∷ []) = x
winner cfg ws = first_name (sorted_names cfg ws)

-- `selectByLabelFromCandidates`.
pub select_by_label_from_candidates : RoutingConfig → Text → Text → List RoutingCandidate → Text
select_by_label_from_candidates cfg label orig cs =
    let arr = scored label cs in
    let max = max_score (negsuc 0) arr in
    if is_empty cs
    then select_fallback_with_orig cfg orig
    else if ltb_ℤ max (pos 0) || ltb_ℤ max cfg.min_score
    then select_fallback_with_orig cfg orig
    else winner cfg (map (λ s. s.name) (keep (λ s. eqb_ℤ s.score max) arr))
