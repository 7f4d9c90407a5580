-- ===== src/Router/Priority/Samples.antt =====
-- The router's theorems on a small configuration: two models of priority 1 with weights 2 and 1, and
-- one of priority 5.
use chat_rag.Common.{
  is_empty, any, All, pos, Text, text, text_eq, ℕ, ◌*◌, String, ◌≡◌, refl, ◌↔◌, ◌⊎◌, inr, true,
  none, some, List, [], ◌∷◌, map, arith,
}
use chat_rag.Types.{end, absent}
use chat_rag.Router.Priority.Config.{
  Candidate, PriorityConfig, validate_config, check_candidate, check_candidates, IsValidCandidate,
  validate_config_iff,
}
use chat_rag.Router.Priority.Group.{ModelCandidate, PriorityGroup, state_at}
use chat_rag.Router.Priority.Group.Balance.{total}
use chat_rag.Router.Priority.Group.Turns.{times, weight_of}
use chat_rag.Router.Priority.Group.Fairness.{selections, selections_fair}
use chat_rag.Router.Priority.Visible.{filter_visible_models, contains_model}
use chat_rag.Router.Priority.Strategy.{
  Strategy, new, run, RouteRequest, is_auto, no_visible_candidates,
}
use chat_rag.Router.Priority.Strategy.Groups.{IsWellFormed}
use chat_rag.Router.Priority.Strategy.Built.{IsBuiltFrom, new-IsBuiltFrom}
use chat_rag.Router.Priority.Strategy.Runs.{is_offered}
use chat_rag.Router.Priority.Strategy.Answers.{
  AsksForAuto, IsLowestVisible, contains_model-run, run_selects,
}
use chat_rag.Router.Priority.Visible.Ordering.{
  IsOrderOf, build_ordered_candidates_order, append_visible_fallback-build_ordered_candidates,
}
use chat_rag.Router.Priority.Visible.{build_ordered_candidates, append_visible_fallback}

abbrev candidate : String → ℕ → ℕ → Candidate
candidate name p w = record {
  model_name = text name;
  enabled = true;
  priority = pos p;
  weight = pos w;
  min_vip_level = pos 0;
}

abbrev config : PriorityConfig
config = record {
  candidates = candidate "a" 1 2 ∷ candidate "b" 1 1 ∷ candidate "c" 5 1 ∷ [];
  fallback_model_name = text "c";
}

abbrev model_of : String → ℕ → ℕ → ModelCandidate
model_of name p w = record {
  model_name = text name;
  priority = pos p;
  weight = pos w;
  enabled = true;
  min_vip_level = pos 0;
}

abbrev group_one : PriorityGroup
group_one = record {
  priority = pos 1;
  models = model_of "a" 1 2 ∷ model_of "b" 1 1 ∷ [];
  states = [];
}

abbrev groups : List PriorityGroup
groups = group_one ∷ record { priority = pos 5; models = model_of "c" 5 1 ∷ []; states = [] } ∷ []

abbrev strategy : Strategy
strategy = record { cfg = config; priority_groups = groups }

abbrev request : RouteRequest
request = record {
  model = text "auto";
  messages = record { role = text "user"; content = absent; extra = end } ∷ [];
}

config_valid : validate_config config ≡ none
unfolding validate_config check_candidates check_candidate
config_valid = refl

validate_config_iff_example :
    (validate_config config ≡ none)
    ↔ (All IsValidCandidate config.candidates × (any (λ c. c.enabled) config.candidates ≡ true))
validate_config_iff_example = validate_config_iff config

new-IsBuiltFrom_example : (s : Strategy) × (new config ≡ inr s) × IsBuiltFrom config s
new-IsBuiltFrom_example = new-IsBuiltFrom config config_valid

groups-IsWellFormed : IsWellFormed groups
groups-IsWellFormed = record {
  distinct = ((refl, tt), (tt, tt));
  members = (
    (
      record { at_priority = refl; weighted = omega arith; on = refl },
      (record { at_priority = refl; weighted = omega arith; on = refl }, tt),
    ),
    ((record { at_priority = refl; weighted = omega arith; on = refl }, tt), tt),
  );
}

auto_folds : is_auto (text "auto") ≡ true
unfolding is_auto text_eq
auto_folds = refl

request-AsksForAuto : AsksForAuto request
request-AsksForAuto = record { has_messages = refl; auto = auto_folds }

contains_model-run_example :
    contains_model (run strategy none 0 (some request)).0.ordered_candidates (text "b")
    ≡ is_offered none 0 groups (text "b")
contains_model-run_example =
    contains_model-run strategy none 0 request (text "b") groups-IsWellFormed request-AsksForAuto

run_selects_example :
    let (r, s') = run strategy none 0 (some request) in
    ((r.error ≡ some no_visible_candidates)
      × (r.ordered_candidates ≡ [])
      × (s' ≡ strategy)
      × All (λ (g : PriorityGroup). is_empty (filter_visible_models g.models none 0) ≡ true) groups)
    ⊎ ((r.error ≡ none)
        × ((c : ModelCandidate) × (r.selected_model ≡ c.model_name)
            × IsLowestVisible groups none 0 c)
        × ((rest : List Text) × (r.ordered_candidates ≡ r.selected_model ∷ rest))
        × IsWellFormed s'.priority_groups)
run_selects_example = run_selects strategy none 0 request groups-IsWellFormed request-AsksForAuto

-- Six selections in which "a", of weight 2 of 3, is chosen four times.
selections_fair_example :
    times (text "a") (selections (2 * total group_one.models) group_one.models group_one)
    ≡ 2 * weight_of (text "a") group_one.models
unfolding state_at
selections_fair_example =
    selections_fair 2 group_one.models group_one (text "a") (omega arith, (omega arith, tt)) refl

build_ordered_candidates_order_example :
    (others : List ModelCandidate) × (build_ordered_candidates (text "b") group_one.models
      ≡ text "b" ∷ map (λ (c : ModelCandidate). c.model_name) others)
    × IsOrderOf (text "b") group_one.models others
build_ordered_candidates_order_example = build_ordered_candidates_order (text "b") group_one.models

append_visible_fallback_example :
    append_visible_fallback
      (text "a")
      (build_ordered_candidates (text "b") group_one.models)
      group_one.models
    ≡ build_ordered_candidates (text "b") group_one.models
append_visible_fallback_example =
    append_visible_fallback-build_ordered_candidates (text "a") (text "b") group_one.models
