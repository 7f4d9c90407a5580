-- ===== src/Router/Priority/Strategy.antt =====
-- The strategy: groups of the enabled candidates by priority, and `Run`
-- (internal/router/strategies/priority/priority.go).
--
-- `priorityGroups` is a list of the groups; a group is found by its priority. `Run` holds a read
-- lock and the selection the group's lock, so a run is one step that returns the next strategy.
pub mod Groups
pub mod Built
pub mod Selection
pub mod Runs
pub mod Answers
use chat_rag.Common.{
  leb, if◌then◌else◌, is_empty, ℤ, ltb_ℤ, eqb_ℤ, negsuc, Text, text, text_eq, sort, ℕ, ◌+◌, ◌⊎◌,
  inl, inr, Bool, ◌&&◌, Option, none, some, List, [], ◌∷◌, ◌++◌, map,
}
use chat_rag.Types.{Identity, Message}
use chat_rag.Router.Priority.Config.{Candidate, PriorityConfig, ConfigError, validate_config}
use chat_rag.Router.Priority.Group.{
  ModelCandidate, PriorityGroup, new_priority_group, add_model, select_visible_model_by_round_robin,
}
use chat_rag.Router.Priority.Visible.{
  filter_visible_models, build_ordered_candidates, append_visible_fallback,
}

pub record Strategy : Type 0 where
  pub cfg : PriorityConfig
  pub priority_groups : List PriorityGroup

pub data NewError : Type 0 where
  invalid_config : ConfigError → NewError
  no_enabled_candidates : NewError

pub data RunError : Type 0 where
  no_visible_candidates visible_group_not_found : RunError

pub find_group : ℤ → List PriorityGroup → Option PriorityGroup
find_group p [] = none
find_group p (g ∷ gs) = let rest = find_group p gs in if eqb_ℤ g.priority p then some g else rest

-- Writes a group back in the place of the group of its priority, or adds it.
pub put_group : PriorityGroup → List PriorityGroup → List PriorityGroup
put_group g [] = g ∷ []
put_group g (h ∷ hs) = if eqb_ℤ h.priority g.priority then g ∷ hs else h ∷ put_group g hs

pub to_model : Candidate → ModelCandidate
to_model c = record {
  model_name = c.model_name;
  priority = c.priority;
  weight = c.weight;
  enabled = c.enabled;
  min_vip_level = c.min_vip_level;
}

-- `group, exists := s.priorityGroups[p]` with the new group where it does not exist.
abbrev pub group_or_new : ℤ → Option PriorityGroup → PriorityGroup
group_or_new p none = new_priority_group p
group_or_new p (some g) = g

-- One round of the loop of `initializePriorityGroups`.
pub add_candidate : Candidate → List PriorityGroup → List PriorityGroup
add_candidate c groups =
    if c.enabled
    then put_group (add_model (to_model c) (group_or_new c.priority (find_group c.priority groups)))
        groups
    else groups

pub initialize_priority_groups : List Candidate → List PriorityGroup → List PriorityGroup
initialize_priority_groups [] groups = groups
initialize_priority_groups (c ∷ cs) groups = initialize_priority_groups cs (add_candidate c groups)

pub new : PriorityConfig → NewError ⊎ Strategy
new cfg = elim (validate_config cfg) [
  | some e ↦ inl (invalid_config e)
  | none ↦
      let groups = initialize_priority_groups cfg.candidates [] in
      if is_empty groups
      then inl no_enabled_candidates
      else inr (record { cfg = cfg; priority_groups = groups })
]

pub record VisibleSelection : Type 0 where
  pub selected_priority : ℤ
  pub selected_group : Option PriorityGroup
  pub selected_visible : List ModelCandidate
  pub all_visible : List ModelCandidate

-- One group of the loop of `visibleSelectionFor`.
pub visit_group :
    Option Identity → ℕ → ℤ → Option PriorityGroup → VisibleSelection → VisibleSelection
visit_group identity now priority none selection = selection
visit_group identity now priority (some group) selection =
    let visible = filter_visible_models group.models identity now in
    let extended = selection.all_visible ++ visible in
    if is_empty visible then selection else elim selection.selected_group [
      | none ↦ record {
        selected_priority = priority;
        selected_group = some group;
        selected_visible = visible;
        all_visible = extended;
      }
      | some g ↦ record selection { all_visible = extended }
    ]

pub visit_groups :
    Option Identity → ℕ → List PriorityGroup → List ℤ → VisibleSelection → VisibleSelection
visit_groups identity now groups [] selection = selection
visit_groups identity now groups (p ∷ ps) selection =
    visit_groups identity now groups ps (visit_group identity now p (find_group p groups) selection)

pub visible_selection_for : Strategy → Option Identity → ℕ → VisibleSelection
visible_selection_for s identity now =
    visit_groups identity now s.priority_groups
      (sort ltb_ℤ (map (λ (g : PriorityGroup). g.priority) s.priority_groups))
      (record {
        selected_priority = negsuc 0;
        selected_group = none;
        selected_visible = [];
        all_visible = [];
      })

-- `strings.EqualFold(model, "auto")`: no letter of "auto" folds to a letter outside ASCII.
unfoldable pub is_auto : Text → Bool
is_auto model =
    text_eq (map (λ c. if leb b'A' c && leb c b'Z' then c + 32 else c) model) (text "auto")

-- The results of `Run`; the second, the user's input, is always empty here.
pub record Routed : Type 0 where
  pub selected_model : Text
  pub ordered_candidates : List Text
  pub error : Option RunError

abbrev pub unrouted : Option RunError → Routed
unrouted e = record { selected_model = []; ordered_candidates = []; error = e }

pub record RouteRequest : Type 0 where
  pub model : Text
  pub messages : List Message

-- The part of `Run` after its early returns.
pub route : Strategy → VisibleSelection → Routed × Strategy
route s selection =
    if is_empty selection.all_visible
    then (unrouted (some no_visible_candidates), s)
    else elim selection.selected_group [
      | none ↦ (unrouted (some visible_group_not_found), s)
      | some group ↦
          let (selected, group') =
            select_visible_model_by_round_robin selection.selected_visible group in
          let ordered = build_ordered_candidates selected selection.all_visible in
          (
            record {
              selected_model = selected;
              ordered_candidates =
                  append_visible_fallback s.cfg.fallback_model_name ordered selection.all_visible;
              error = none;
            },
            record s { priority_groups = put_group group' s.priority_groups },
          )
    ]

pub run : Strategy → Option Identity → ℕ → Option RouteRequest → Routed × Strategy
run s identity now none = (unrouted none, s)
run s identity now (some req) =
    if is_empty req.messages
    then (unrouted none, s)
    else if is_auto req.model
    then route s (visible_selection_for s identity now)
    else (unrouted none, s)
