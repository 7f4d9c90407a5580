-- ===== src/Router/Priority/Group/Fairness.antt =====
-- The order of selections over many rounds of `selectVisibleModelByRoundRobin`.
use chat_rag.Common.{
  if◌then◌else◌, length, replicate, ℤ, Text, text_eq, text_eq_refl, ℕ, zero, suc, ◌+◌, ◌*◌, ◌≡◌,
  refl, ◌∙◌, subst, List, [], ◌∷◌, arith,
}
use native.Mathlib.Nat.{zero-add, add-zero}
use chat_rag.Router.Priority.Group.{
  ModelCandidate, PriorityGroup, build_visible_set_key, state_at, put_state, start_weights, pick,
  name_at, select_visible_model_by_round_robin,
}
use chat_rag.Router.Priority.Group.Balance.{Positive, total, inc_at}
use chat_rag.Router.Priority.Group.Step.{
  Tracks-length, IsBalanced, start_weights_same, pick-IsBalanced,
}
use chat_rag.Router.Priority.Group.Turns.{
  times, weight_of, times_in, times_in-inc_at, times_in-zeros, fresh-IsBalanced, Tracks-AtMost,
  AtMost-exact,
}

-- The names of `n` selections in a row among the same visible models.
pub selections : ℕ → List ModelCandidate → PriorityGroup → List Text
selections zero visible pg = []
selections (suc n) visible pg =
    let (name, pg') = select_visible_model_by_round_robin visible pg in
    name ∷ selections n visible pg'

state_at-put_state :
    (key : Text) (ws : List ℤ) (st : List (Text × List ℤ)) → state_at key (put_state key ws st) ≡ ws
unfolding state_at put_state
state_at-put_state key ws [] = ground (arith, text_eq_refl key)
state_at-put_state key ws ((k, vs) ∷ rest) = ground (arith, state_at-put_state key ws rest)

abbrev stored : List ModelCandidate → PriorityGroup → List ℤ
stored vs pg = state_at (build_visible_set_key vs) pg.states

-- What a run of selections leaves behind.
record Outcome (vs : List ModelCandidate) (m : ℕ) (name : Text) (count : ℕ) : Type 0 where
  weights : List ℤ
  counts : List ℕ
  balanced : IsBalanced vs m weights counts
  counted : times_in name vs counts ≡ count

module _ (v₁ v₂ : ModelCandidate) (rest : List ModelCandidate) (pg : PriorityGroup) where
  abbrev after : PriorityGroup
  after = (select_visible_model_by_round_robin (v₁ ∷ v₂ ∷ rest) pg).1

  selected_name :
      (select_visible_model_by_round_robin (v₁ ∷ v₂ ∷ rest) pg).0
      ≡ name_at (v₁ ∷ v₂ ∷ rest) (pick (v₁ ∷ v₂ ∷ rest) (stored (v₁ ∷ v₂ ∷ rest) pg)).0
  unfolding select_visible_model_by_round_robin
  selected_name = refl

  stored-after :
      stored (v₁ ∷ v₂ ∷ rest) after ≡ (pick (v₁ ∷ v₂ ∷ rest) (stored (v₁ ∷ v₂ ∷ rest) pg)).1
  unfolding select_visible_model_by_round_robin
  stored-after = state_at-put_state (build_visible_set_key (v₁ ∷ v₂ ∷ rest)) _ pg.states

-- Selections from a state in which the weights are in balance.
selections-Outcome :
    (n m : ℕ) (v₁ v₂ : ModelCandidate) (rest : List ModelCandidate) (pg : PriorityGroup)
    (cs : List ℕ) (name : Text)
    → let vs = v₁ ∷ v₂ ∷ rest in
      Positive vs
      → IsBalanced vs m (start_weights vs (stored vs pg)) cs
      → Outcome vs (n + m) name (times name (selections n vs pg) + times_in name vs cs)
unfolding selections
selections-Outcome zero m v₁ v₂ rest pg cs name p b = record {
  weights = start_weights (v₁ ∷ v₂ ∷ rest) (stored (v₁ ∷ v₂ ∷ rest) pg);
  counts = cs;
  balanced = rw zero-add b;
  counted = omega arith;
}
selections-Outcome (suc n) m v₁ v₂ rest pg cs name p b =
    let vs = v₁ ∷ v₂ ∷ rest in
    let idx = (pick vs (stored vs pg)).0 in
    let (b', inside) = pick-IsBalanced vs p (omega (arith, p.0)) m (stored vs pg) cs b in
    let same = Tracks-length (total vs) m vs (start_weights vs (stored vs pg)) cs b.tracks in
    let same' =
      Tracks-length (total vs) (suc m) vs (pick vs (stored vs pg)).1 (inc_at idx cs) b'.tracks in
    let o = selections-Outcome n (suc m) v₁ v₂ rest (after v₁ v₂ rest pg) (inc_at idx cs) name p (
      rw (stored-after v₁ v₂ rest pg, start_weights_same vs (pick vs (stored vs pg)).1 same'.0)
        b') in
    let shift : n + suc m ≡ suc n + m = omega arith in
    record {
      weights = o.weights;
      counts = o.counts;
      balanced = subst (λ k. IsBalanced vs k o.weights o.counts) shift o.balanced;
      counted =
          o.counted
          ∙ ground
              (arith, times_in-inc_at name vs cs idx same.1 inside, selected_name v₁ v₂ rest pg);
    }

selections-single :
    (n : ℕ) (v : ModelCandidate) (pg : PriorityGroup) (name : Text)
    → times name (selections n (v ∷ []) pg) ≡ (if text_eq v.model_name name then n else 0)
unfolding selections select_visible_model_by_round_robin
selections-single zero v pg name = ground arith
selections-single (suc n) v pg name = ground (arith, selections-single n v pg name)

-- Among visible models of positive weight in a group that has no weights stored for them, any
-- whole number `k` of turns, a turn being as many selections as the total weight, selects each name
-- exactly `k` times the weight of its models.
pub selections_fair :
    (k : ℕ) (visible : List ModelCandidate) (pg : PriorityGroup) (name : Text)
    → Positive visible
    → state_at (build_visible_set_key visible) pg.states ≡ []
    → times name (selections (k * total visible) visible pg) ≡ k * weight_of name visible
unfolding selections
selections_fair k [] pg name p fresh = let none_left : k * 0 ≡ 0 = omega arith in rw none_left
selections_fair k (v ∷ []) pg name p fresh =
    ground (arith, selections-single (k * total (v ∷ [])) v pg name)
selections_fair k (v₁ ∷ v₂ ∷ rest) pg name p fresh =
    let vs = v₁ ∷ v₂ ∷ rest in
    let o =
      selections-Outcome (k * total vs) 0 v₁ v₂ rest pg (replicate (length vs) 0) name p
        (fresh-IsBalanced v₁ (v₂ ∷ rest) (stored vs pg) p fresh) in
    let bal : IsBalanced vs (k * total vs) o.weights o.counts = rw add-zero at o.balanced in
    omega (
      arith,
      o.counted,
      times_in-zeros name vs,
      AtMost-exact name k vs o.counts
          (Tracks-AtMost (total vs) k vs o.weights o.counts bal.tracks bal.above)
          (omega (arith, bal.rounds)),
    )
