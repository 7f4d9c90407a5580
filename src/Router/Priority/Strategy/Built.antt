-- ===== src/Router/Priority/Strategy/Built.antt =====
-- The strategy that `New` builds from a configuration.
use chat_rag.Common.{
  if◌then◌else◌, Bool-cases, is_empty, any, All, All-append, ℤ, eqb_ℤ, eqb_ℤ→eq, ◌≡◌, refl, sym, ap,
  subst, inl, inr, true, false, not, ◌&&◌, ◌||◌, none, List, [], ◌∷◌, ◌++◌, arith,
}
use mathlib.Core.List.{append-nil, append_assoc}
use chat_rag.Router.Priority.Config.{
  Candidate, PriorityConfig, IsValidCandidate, validate_config, validate_config_iff,
}
use chat_rag.Router.Priority.Group.{PriorityGroup, add_model}
use chat_rag.Router.Priority.Strategy.{
  Strategy, find_group, put_group, to_model, group_or_new, add_candidate,
  initialize_priority_groups, new,
}
use chat_rag.Router.Priority.Strategy.Groups.{
  models_at, configured_at, priority-group_or_new, models-group_or_new, models_at-put_group,
  All-put_group, put_group-IsDistinct, models_at-IsMember, IsMember, IsWellFormed,
}

-- The group that an enabled candidate is added to, as it is written back.
abbrev extended : Candidate → List PriorityGroup → PriorityGroup
extended c gs = add_model (to_model c) (group_or_new c.priority (find_group c.priority gs))

priority-extended :
    (c : Candidate) (gs : List PriorityGroup) → (extended c gs).priority ≡ c.priority
unfolding add_model
priority-extended c gs = priority-group_or_new c.priority gs

models-extended :
    (c : Candidate) (gs : List PriorityGroup)
    → (extended c gs).models ≡ models_at c.priority gs ++ to_model c ∷ []
unfolding add_model
models-extended c gs =
    ap (λ ms. ms ++ to_model c ∷ []) (models-group_or_new c.priority (find_group c.priority gs))

models_at-add_candidate :
    (p : ℤ) (c : Candidate) (gs : List PriorityGroup)
    → models_at p (add_candidate c gs)
      ≡ models_at p gs ++ (if c.enabled && eqb_ℤ c.priority p then to_model c ∷ [] else [])
unfolding add_candidate
models_at-add_candidate p c gs = ground (
  arith,
  models_at-put_group p (extended c gs) gs,
  priority-extended c gs,
  models-extended c gs,
  append-nil (models_at p gs),
  eqb_ℤ→eq c.priority p,
)

-- The models of each group are the enabled candidates of its priority, in the order of the
-- configuration, after those that were there.
models_at-initialize_priority_groups :
    (p : ℤ) (cs : List Candidate) (gs : List PriorityGroup)
    → models_at p (initialize_priority_groups cs gs) ≡ models_at p gs ++ configured_at p cs
unfolding initialize_priority_groups
models_at-initialize_priority_groups p [] gs = sym (append-nil (models_at p gs))
models_at-initialize_priority_groups p (c ∷ cs) gs =
    rw
      (
        models_at-initialize_priority_groups p cs (add_candidate c gs),
        models_at-add_candidate p c gs,
        append_assoc,
      )
      (elim (Bool-cases (c.enabled && eqb_ℤ c.priority p)) [ inl e ↦ rw e | inr e ↦ rw e ])

add_candidate-IsWellFormed :
    (c : Candidate) (gs : List PriorityGroup)
    → IsValidCandidate c
    → IsWellFormed gs
    → IsWellFormed (add_candidate c gs)
unfolding add_candidate
add_candidate-IsWellFormed c gs v w = elim (Bool-cases c.enabled) [
  | inr off ↦ rw off w
  | inl on ↦
      subst (λ b. IsWellFormed (if b then put_group (extended c gs) gs else gs)) (sym on)
        (record {
          distinct = put_group-IsDistinct (extended c gs) gs w.distinct;
          members = All-put_group _ (extended c gs) gs (extended-IsMember c gs v on w) w.members;
        })
]
  where
    extended-IsMember :
        (c : Candidate) (gs : List PriorityGroup)
        → IsValidCandidate c
        → c.enabled ≡ true
        → IsWellFormed gs
        → All (IsMember (extended c gs).priority) (extended c gs).models
    extended-IsMember c gs v on w =
        rw (priority-extended c gs, models-extended c gs)
          (All-append (IsMember c.priority) (models_at c.priority gs) (to_model c ∷ [])
            (models_at-IsMember c.priority gs w)
            (
              record {
                at_priority = unfold to_model in refl;
                weighted = unfold to_model in v.weight_low;
                on = unfold to_model in on;
              },
              tt,
            ))

initialize_priority_groups-IsWellFormed :
    (cs : List Candidate) (gs : List PriorityGroup)
    → All IsValidCandidate cs
    → IsWellFormed gs
    → IsWellFormed (initialize_priority_groups cs gs)
unfolding initialize_priority_groups
initialize_priority_groups-IsWellFormed [] gs v w = w
initialize_priority_groups-IsWellFormed (c ∷ cs) gs v w =
    initialize_priority_groups-IsWellFormed cs (add_candidate c gs) v.1
      (add_candidate-IsWellFormed c gs v.0 w)

-- What `New` must have built.
pub record IsBuiltFrom (cfg : PriorityConfig) (s : Strategy) : Type 0 where
  pub keeps_config : s.cfg ≡ cfg
  pub grouped : (p : ℤ) → models_at p s.priority_groups ≡ configured_at p cfg.candidates
  pub well_formed : IsWellFormed s.priority_groups

put_group-nonempty :
    (g : PriorityGroup) (gs : List PriorityGroup) → is_empty (put_group g gs) ≡ false
unfolding put_group
put_group-nonempty g [] = refl
put_group-nonempty g (x ∷ xs) = ground arith

some_group :
    (cs : List Candidate) (gs : List PriorityGroup)
    → (any (λ c. c.enabled) cs || not (is_empty gs)) ≡ true
    → is_empty (initialize_priority_groups cs gs) ≡ false
unfolding initialize_priority_groups add_candidate
some_group [] gs on = ground arith
some_group (c ∷ cs) gs on =
    some_group cs (add_candidate c gs) (ground (arith, put_group-nonempty (extended c gs) gs))

-- `New` succeeds on every configuration that passes the validation, so that the error for no
-- enabled candidates never shows there. The groups then hold, at each priority, the enabled
-- candidates of that priority in the order of the configuration.
pub new-IsBuiltFrom :
    (cfg : PriorityConfig)
    → validate_config cfg ≡ none
    → (s : Strategy) × (new cfg ≡ inr s) × IsBuiltFrom cfg s
unfolding new find_group
new-IsBuiltFrom cfg h =
    let (valid, on) = (validate_config_iff cfg).0 h in
    let groups = initialize_priority_groups cfg.candidates [] in
    let some' : is_empty groups ≡ false = some_group cfg.candidates [] (ground arith) in
    (
      record { cfg = cfg; priority_groups = groups },
      ground (arith, h, some'),
      record {
        keeps_config = refl;
        grouped = λ p. models_at-initialize_priority_groups p cfg.candidates [];
        well_formed =
            initialize_priority_groups-IsWellFormed cfg.candidates [] valid
              (record { distinct = tt; members = tt });
      },
    )
