-- ===== src/Router/Priority/Group.antt =====
-- One group of candidates with the same priority, and the smooth weighted round robin among those
-- that a user may see (internal/router/strategies/priority/round_robin.go).
--
-- `pg.mu` makes a selection one step; the group after the step is returned beside the result.
pub mod Balance
pub mod Step
pub mod Turns
pub mod Fairness
pub mod Chosen
use chat_rag.Common.{
  digits, ℕ, zero, suc, Bool, Text, text_eq, List, [], ◌∷◌, ◌++◌, ℤ, pos, negsuc, ◌+ℤ◌, ◌-ℤ◌, ltb_ℤ,
  if◌then◌else◌, ◌==◌, length, replicate,
}

pub record ModelCandidate : Type 0 where
  pub model_name : Text
  pub priority : ℤ
  pub weight : ℤ
  pub enabled : Bool
  pub min_vip_level : ℤ

-- The map `states` is an association list: the first entry of a key counts.
pub record PriorityGroup : Type 0 where
  pub priority : ℤ
  pub models : List ModelCandidate
  pub states : List (Text × List ℤ)

unfoldable pub new_priority_group : ℤ → PriorityGroup
new_priority_group p = record { priority = p; models = []; states = [] }

unfoldable pub add_model : ModelCandidate → PriorityGroup → PriorityGroup
add_model m pg = record pg { models = pg.models ++ m ∷ [] }

-- `fmt.Fprintf(&sb, "%d:%s", len(name), name)` for each model.
pub build_visible_set_key : List ModelCandidate → Text
build_visible_set_key [] = []
build_visible_set_key (m ∷ ms) =
    digits (length m.model_name) ++ (b':' ∷ (m.model_name ++ build_visible_set_key ms))

-- `pg.states[key]`; a missing key reads as the nil slice.
unfoldable pub state_at : Text → List (Text × List ℤ) → List ℤ
state_at key [] = []
state_at key ((k, ws) ∷ rest) = if text_eq k key then ws else state_at key rest

-- `pg.states[key] = weights`.
pub put_state : Text → List ℤ → List (Text × List ℤ) → List (Text × List ℤ)
put_state key ws [] = (key, ws) ∷ []
put_state key ws ((k, vs) ∷ rest) =
    if text_eq k key then (k, ws) ∷ rest else (k, vs) ∷ put_state key ws rest

pub total_weight : List ModelCandidate → ℤ
total_weight [] = pos 0
total_weight (m ∷ ms) = m.weight +ℤ total_weight ms

-- What the loop over `visible` holds after its last round.
pub record Scan : Type 0 where
  pub weights : List ℤ
  pub max_weight : ℤ
  pub selected_idx : ℕ

-- The loop: adds each model's weight to its current weight and keeps the first maximum. `i`,
-- `max_weight` and `selected_idx` are its variables. The slices have one length.
pub scan : List ModelCandidate → List ℤ → ℕ → ℤ → ℕ → Scan
scan [] ws i max_weight selected_idx = record {
  weights = ws;
  max_weight = max_weight;
  selected_idx = selected_idx;
}
scan (m ∷ ms) [] i max_weight selected_idx = record {
  weights = [];
  max_weight = max_weight;
  selected_idx = selected_idx;
}
scan (m ∷ ms) (w ∷ ws) i max_weight selected_idx =
    let w' = w +ℤ m.weight in
    let higher = ltb_ℤ max_weight w' in
    let r =
      scan ms ws (suc i) (if higher then w' else max_weight) (if higher then i else selected_idx) in
    record r { weights = w' ∷ r.weights }

-- `weights[selectedIdx] -= totalWeight`.
pub subtract_at : ℕ → ℤ → List ℤ → List ℤ
subtract_at i t [] = []
subtract_at zero t (w ∷ ws) = (w -ℤ t) ∷ ws
subtract_at (suc i) t (w ∷ ws) = w ∷ subtract_at i t ws

-- `weights` when the loop begins: what is stored, or zeros where the lengths differ.
pub start_weights : List ModelCandidate → List ℤ → List ℤ
start_weights visible ws =
    if length ws == length visible then ws else replicate (length visible) (pos 0)

-- The index that is selected and the new weights, given the stored ones.
pub pick : List ModelCandidate → List ℤ → ℕ × List ℤ
unfolding scan subtract_at start_weights total_weight
pick visible stored =
    let s = scan visible (start_weights visible stored) 0 (negsuc 0) 0 in
    (s.selected_idx, subtract_at s.selected_idx (total_weight visible) s.weights)

abbrev pub name_at : List ModelCandidate → ℕ → Text
name_at [] i = []
name_at (m ∷ ms) zero = m.model_name
name_at (m ∷ ms) (suc i) = name_at ms i

pub select_visible_model_by_round_robin : List ModelCandidate → PriorityGroup → Text × PriorityGroup
unfolding build_visible_set_key state_at put_state pick
select_visible_model_by_round_robin [] pg = ([], pg)
select_visible_model_by_round_robin (m ∷ []) pg = (m.model_name, pg)
select_visible_model_by_round_robin (m ∷ n ∷ ms) pg =
    let visible = m ∷ n ∷ ms in
    let key = build_visible_set_key visible in
    let (idx, weights) = pick visible (state_at key pg.states) in
    (name_at visible idx, record pg { states = put_state key weights pg.states })
