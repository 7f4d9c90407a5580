-- ===== src/Router/Priority/Strategy/Groups.antt =====
-- The groups of a strategy, and what well-formed groups are.
use chat_rag.Common.{
  if◌then◌else◌, Bool-cases, Option-cases, keep, All, ℤ, ◌≤ℤ◌, eqb_ℤ, eqb_ℤ→eq, pos, ◌≡◌, refl, ap,
  ◌∙◌, subst, inl, inr, true, false, ◌&&◌, Option, none, some, List, [], ◌∷◌, map, arith,
}
use chat_rag.Router.Priority.Config.{Candidate}
use chat_rag.Router.Priority.Group.{ModelCandidate, PriorityGroup, new_priority_group}
use chat_rag.Router.Priority.Strategy.{find_group, put_group, to_model, group_or_new}

abbrev pub models_of : Option PriorityGroup → List ModelCandidate
models_of none = []
models_of (some g) = g.models

-- The models of the group of a priority; none where there is no such group.
abbrev pub models_at : ℤ → List PriorityGroup → List ModelCandidate
models_at p gs = models_of (find_group p gs)

-- What the configuration says should be in the group of a priority, in order.
abbrev pub configured_at : ℤ → List Candidate → List ModelCandidate
configured_at p cs = map to_model (keep (λ (c : Candidate). c.enabled && eqb_ℤ c.priority p) cs)

pub find_group-put_group :
    (p : ℤ) (g : PriorityGroup) (gs : List PriorityGroup)
    → find_group p (put_group g gs) ≡ (if eqb_ℤ g.priority p then some g else find_group p gs)
unfolding find_group put_group
find_group-put_group p g [] = refl
find_group-put_group p g (h ∷ hs) = ground (
  arith,
  find_group-put_group p g hs,
  eqb_ℤ→eq h.priority g.priority,
  eqb_ℤ→eq h.priority p,
  eqb_ℤ→eq g.priority p,
)

pub find_group-priority :
    (p : ℤ) (gs : List PriorityGroup) (g : PriorityGroup)
    → find_group p gs ≡ some g
    → g.priority ≡ p
unfolding find_group
find_group-priority p [] g h = cc
find_group-priority p (x ∷ xs) g h =
    ground (arith, eqb_ℤ→eq x.priority p, find_group-priority p xs g)

pub priority-group_or_new :
    (p : ℤ) (gs : List PriorityGroup) → (group_or_new p (find_group p gs)).priority ≡ p
unfolding new_priority_group
priority-group_or_new p gs = elim (Option-cases (find_group p gs)) [
  | inl e ↦ rw e refl
  | inr (g, e) ↦ rw e (find_group-priority p gs g e)
]

pub models-group_or_new :
    (p : ℤ) (o : Option PriorityGroup) → (group_or_new p o).models ≡ models_of o
unfolding new_priority_group
models-group_or_new p none = refl
models-group_or_new p (some g) = refl

pub models_at-put_group :
    (p : ℤ) (g : PriorityGroup) (gs : List PriorityGroup)
    → models_at p (put_group g gs) ≡ (if eqb_ℤ g.priority p then g.models else models_at p gs)
models_at-put_group p g gs =
    ap models_of (find_group-put_group p g gs)
    ∙ elim (Bool-cases (eqb_ℤ g.priority p)) [ inl e ↦ rw e | inr e ↦ rw e ]

abbrev pub IsDistinct : List PriorityGroup → Type 0
IsDistinct [] = Unit
IsDistinct (g ∷ gs) =
    All (λ (h : PriorityGroup). eqb_ℤ h.priority g.priority ≡ false) gs × IsDistinct gs

pub record IsMember (p : ℤ) (c : ModelCandidate) : Type 0 where
  pub at_priority : c.priority ≡ p
  pub weighted : pos 1 ≤ℤ c.weight
  pub on : c.enabled ≡ true

-- One group for a priority; its models are enabled, have its priority and a positive weight.
pub record IsWellFormed (gs : List PriorityGroup) : Type 0 where
  pub distinct : IsDistinct gs
  pub members : All (λ (g : PriorityGroup). All (IsMember g.priority) g.models) gs

pub All-put_group {κ} :
    (P : PriorityGroup → Type κ) (g : PriorityGroup) (gs : List PriorityGroup)
    → P g
    → All P gs
    → All P (put_group g gs)
unfolding put_group
All-put_group P g [] pg h = (pg, tt)
All-put_group P g (x ∷ xs) pg h = elim (Bool-cases (eqb_ℤ x.priority g.priority)) [
  | inl e ↦ rw e (pg, h.1)
  | inr e ↦ rw e (h.0, All-put_group P g xs pg h.1)
]

pub put_group-IsDistinct :
    (g : PriorityGroup) (gs : List PriorityGroup) → IsDistinct gs → IsDistinct (put_group g gs)
unfolding put_group
put_group-IsDistinct g [] h = (tt, tt)
put_group-IsDistinct g (x ∷ xs) h = elim (Bool-cases (eqb_ℤ x.priority g.priority)) [
  | inl e ↦ rw e (rw (← eqb_ℤ→eq x.priority g.priority e) h.0, h.1)
  | inr e ↦ rw e (
    All-put_group (λ (y : PriorityGroup). eqb_ℤ y.priority x.priority ≡ false) g xs (ground arith)
        h.0,
    put_group-IsDistinct g xs h.1,
  )
]

pub All-find_group {κ} :
    (P : PriorityGroup → Type κ) (p : ℤ) (gs : List PriorityGroup) (g : PriorityGroup)
    → find_group p gs ≡ some g
    → All P gs
    → P g
unfolding find_group
All-find_group P p [] g e h = cc
All-find_group P p (x ∷ xs) g e h = elim (Bool-cases (eqb_ℤ x.priority p)) [
  | inl same ↦ let q : x ≡ g = ground arith in subst P q h.0
  | inr other ↦ All-find_group P p xs g (ground arith) h.1
]

pub models_at-IsMember :
    (p : ℤ) (gs : List PriorityGroup) → IsWellFormed gs → All (IsMember p) (models_at p gs)
models_at-IsMember p gs w = elim (Option-cases (find_group p gs)) [
  | inl e ↦ rw e tt
  | inr (g, e) ↦ rw e (
      subst (λ q. All (IsMember q) g.models) (find_group-priority p gs g e)
        (All-find_group (λ (h : PriorityGroup). All (IsMember h.priority) h.models) p gs g e
          w.members))
]
