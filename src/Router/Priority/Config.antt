-- ===== src/Router/Priority/Config.antt =====
-- The configuration of the strategy and its validation (`PriorityConfig`, `PriorityCandidate` of
-- internal/config/config.go, `validateConfig` of internal/router/strategies/priority/priority.go).
use chat_rag.Common.{
  ◌≡◌, ◌↔◌, ◌≢◌, Bool, true, false, ◌||◌, Text, is_empty, List, [], ◌∷◌, ℤ, pos, ◌≤ℤ◌, ltb_ℤ,
  if◌then◌else◌, any, All, arith, Option, none, some, Option-cases, inl, inr,
}

pub record Candidate : Type 0 where
  pub model_name : Text
  pub enabled : Bool
  pub priority : ℤ
  pub weight : ℤ
  pub min_vip_level : ℤ

pub record PriorityConfig : Type 0 where
  pub candidates : List Candidate
  pub fallback_model_name : Text

-- The errors of the strategy; the text of an error names the model.
pub data ConfigError : Type 0 where
  no_candidates : ConfigError
  empty_model_name : ConfigError
  bad_priority : Text → ConfigError
  bad_weight : Text → ConfigError
  bad_min_vip_level : Text → ConfigError
  none_enabled : ConfigError

-- The tests of one round of the loop of `validateConfig`.
unfoldable pub check_candidate : Candidate → Option ConfigError
check_candidate c =
    if is_empty c.model_name
    then some empty_model_name
    else if ltb_ℤ c.priority (pos 0) || ltb_ℤ (pos 999) c.priority
    then some (bad_priority c.model_name)
    else if ltb_ℤ c.weight (pos 1) || ltb_ℤ (pos 100) c.weight
    then some (bad_weight c.model_name)
    else if ltb_ℤ c.min_vip_level (pos 0)
    then some (bad_min_vip_level c.model_name)
    else none

-- The loop, with `hasEnabled` as its second argument.
unfoldable pub check_candidates : List Candidate → Bool → Option ConfigError
unfolding check_candidate
check_candidates [] has_enabled = if has_enabled then none else some none_enabled
check_candidates (c ∷ cs) has_enabled = elim (check_candidate c) [
  | some e ↦ some e
  | none ↦ check_candidates cs (c.enabled || has_enabled)
]

unfoldable pub validate_config : PriorityConfig → Option ConfigError
unfolding check_candidates
validate_config cfg =
    if is_empty cfg.candidates then some no_candidates else check_candidates cfg.candidates false

-- What a valid candidate is, apart from the code.
pub record IsValidCandidate (c : Candidate) : Type 0 where
  pub named : c.model_name ≢ []
  pub priority_low : pos 0 ≤ℤ c.priority
  pub priority_high : c.priority ≤ℤ pos 999
  pub weight_low : pos 1 ≤ℤ c.weight
  pub weight_high : c.weight ≤ℤ pos 100
  pub vip_low : pos 0 ≤ℤ c.min_vip_level

check_candidate→IsValidCandidate : (c : Candidate) → check_candidate c ≡ none → IsValidCandidate c
unfolding check_candidate
check_candidate→IsValidCandidate c h = record {
  named = ground arith;
  priority_low = ground arith;
  priority_high = ground arith;
  weight_low = ground arith;
  weight_high = ground arith;
  vip_low = ground arith;
}

IsValidCandidate→check_candidate : (c : Candidate) → IsValidCandidate c → check_candidate c ≡ none
unfolding check_candidate
IsValidCandidate→check_candidate c v = ground (arith, v.named)

abbrev has_enabled_in : List Candidate → Bool
has_enabled_in = any (λ c. c.enabled)

check_candidates_sound :
    (cs : List Candidate) (b : Bool)
    → check_candidates cs b ≡ none
    → All IsValidCandidate cs × ((b || has_enabled_in cs) ≡ true)
unfolding check_candidates
check_candidates_sound [] b h = ground arith
check_candidates_sound (c ∷ cs) b h = elim (Option-cases (check_candidate c)) [
  | inl e ↦
      let (valid, on) = check_candidates_sound cs (c.enabled || b) (ground arith) in
      ((check_candidate→IsValidCandidate c e, valid), ground arith)
  | inr (x, e) ↦ ground arith
]

check_candidates_complete :
    (cs : List Candidate) (b : Bool)
    → All IsValidCandidate cs
    → (b || has_enabled_in cs) ≡ true
    → check_candidates cs b ≡ none
unfolding check_candidates
check_candidates_complete [] b v on = ground arith
check_candidates_complete (c ∷ cs) b v on = ground (
  arith,
  IsValidCandidate→check_candidate c v.0,
  check_candidates_complete cs (c.enabled || b) v.1,
)

-- A configuration passes the validation exactly when some candidate is enabled and every
-- candidate, enabled or not, has a name, a priority in 0..999, a weight in 1..100 and a minimum
-- VIP level that is not negative.
pub validate_config_iff :
    (cfg : PriorityConfig)
    → (validate_config cfg ≡ none)
      ↔ (All IsValidCandidate cfg.candidates × (any (λ c. c.enabled) cfg.candidates ≡ true))
unfolding validate_config
validate_config_iff cfg = (
  (λ h. check_candidates_sound cfg.candidates false (ground arith)),
  (λ h. ground (arith, check_candidates_complete cfg.candidates false h.0 h.1)),
)
