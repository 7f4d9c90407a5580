-- ===== src/Router/Priority/Group/Chosen.antt =====
-- What a selection returns, and what it leaves of the group.
use chat_rag.Common.{length, is_empty, ℕ, zero, suc, ◌<◌, ◌≡◌, refl, false, List, [], ◌∷◌, arith}
use mathlib.Core.List.{Memᴰ}
use chat_rag.Router.Priority.Group.{
  ModelCandidate, PriorityGroup, build_visible_set_key, state_at, pick, name_at,
  select_visible_model_by_round_robin,
}
use chat_rag.Router.Priority.Group.Step.{pick-lt-length}

name_at-Mem :
    (vs : List ModelCandidate) (i : ℕ)
    → i < length vs
    → (c : ModelCandidate) × Memᴰ c vs × (name_at vs i ≡ c.model_name)
name_at-Mem [] i h = elim h [ ]
name_at-Mem (v ∷ vs) zero h = (v, Memᴰ.head refl, refl)
name_at-Mem (v ∷ vs) (suc i) h =
    let (c, m, e) = name_at-Mem vs i (omega arith) in (c, Memᴰ.tail m, e)

pub select-Mem :
    (vs : List ModelCandidate) (pg : PriorityGroup)
    → is_empty vs ≡ false
    → (c : ModelCandidate) × Memᴰ c vs
      × ((select_visible_model_by_round_robin vs pg).0 ≡ c.model_name)
unfolding select_visible_model_by_round_robin
select-Mem [] pg h = cc
select-Mem (v ∷ []) pg h = (v, Memᴰ.head refl, refl)
select-Mem (v ∷ w ∷ vs) pg h =
    let key = build_visible_set_key (v ∷ w ∷ vs) in
    name_at-Mem (v ∷ w ∷ vs) (pick (v ∷ w ∷ vs) (state_at key pg.states)).0
      (pick-lt-length v (w ∷ vs) (state_at key pg.states))

pub select_keeps :
    (vs : List ModelCandidate) (pg : PriorityGroup)
    → let pg' = (select_visible_model_by_round_robin vs pg).1 in
      (pg'.models ≡ pg.models) × (pg'.priority ≡ pg.priority)
unfolding select_visible_model_by_round_robin
select_keeps [] pg = (refl, refl)
select_keeps (v ∷ []) pg = (refl, refl)
select_keeps (v ∷ w ∷ vs) pg = (refl, refl)
