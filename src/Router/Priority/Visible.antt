-- ===== src/Router/Priority/Visible.antt =====
-- Which candidates a user may see, and the order in which they are tried
-- (internal/router/strategies/priority/priority.go).
pub mod Ordering
use chat_rag.Common.{
  ltb, if◌then◌else◌, is_empty, keep, ltb_ℤ, eqb_ℤ, pos, Text, text_eq, sort, ℕ, Bool, true, false,
  not, ◌&&◌, Option, none, some, List, [], ◌∷◌, ◌++◌,
}
use chat_rag.Types.{Identity}
use chat_rag.Router.Priority.Group.{ModelCandidate}

-- `now` is the wall clock, in nanoseconds; a nil pointer is `none`.
pub is_candidate_visible : Option ModelCandidate → Option Identity → ℕ → Bool
is_candidate_visible none identity now = false
is_candidate_visible (some candidate) identity now =
    let required = candidate.min_vip_level in
    if eqb_ℤ required (pos 0) then true else elim identity [
      | none ↦ false
      | some i ↦ elim i.user_info [
        | none ↦ false
        | some user ↦
            not (ltb_ℤ user.vip required)
            && elim user.vip_expire [ none ↦ true | some expire ↦ ltb now expire ]
      ]
    ]

unfoldable pub filter_visible_models :
    List ModelCandidate → Option Identity → ℕ → List ModelCandidate
unfolding is_candidate_visible
filter_visible_models models identity now =
    keep (λ c. is_candidate_visible (some c) identity now) models

-- The comparison that `buildOrderedCandidates` hands to `sort.SliceStable`.
pub tried_before : ModelCandidate → ModelCandidate → Bool
tried_before a b =
    if eqb_ℤ a.priority b.priority then ltb_ℤ b.weight a.weight else ltb_ℤ a.priority b.priority

unfoldable pub other_names : Text → List ModelCandidate → List Text
other_names selected [] = []
other_names selected (c ∷ cs) =
    let rest = other_names selected cs in
    if text_eq c.model_name selected then rest else c.model_name ∷ rest

unfoldable pub build_ordered_candidates : Text → List ModelCandidate → List Text
unfolding tried_before other_names sort
build_ordered_candidates selected visible =
    selected ∷ other_names selected (sort tried_before visible)

unfoldable pub contains_model : List Text → Text → Bool
contains_model [] name = false
contains_model (m ∷ ms) name =
    let rest = contains_model ms name in if text_eq m name then true else rest

pub find_candidate_by_name : List ModelCandidate → Text → Option ModelCandidate
find_candidate_by_name [] name = none
find_candidate_by_name (c ∷ cs) name =
    let rest = find_candidate_by_name cs name in if text_eq c.model_name name then some c else rest

-- Whether the fallback is declared decides only which warning is logged.
pub append_visible_fallback : Text → List Text → List ModelCandidate → List Text
unfolding contains_model find_candidate_by_name
append_visible_fallback fallback ordered visible =
    if is_empty fallback
    then ordered
    else if contains_model ordered fallback
    then ordered
    else elim (find_candidate_by_name visible fallback) [
      | none ↦ ordered
      | some c ↦ ordered ++ c.model_name ∷ []
    ]
