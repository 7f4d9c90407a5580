-- ===== src/Router/Priority/Strategy/Runs.antt =====
-- What `Run` answers, in terms of the groups.
use chat_rag.Common.{
  Bool-cases, is_empty, any, All, is_empty→nil, any-append, any-keep, ℤ, ltb_ℤ, eqb_ℤ, eqb_ℤ-refl,
  Text, text_eq, text_eq→eq, sort, IsSorted, sort-IsSorted, any-sort, ℕ, ◌≡◌, refl, sym, ap, ◌∙◌,
  ◌⊎◌, inl, inr, Bool, true, false, ◌&&◌, ◌||◌, Option, none, some, List, [], ◌∷◌, map, arith,
}
use mathlib.Core.List.{Memᴰ}
use chat_rag.Types.{Identity}
use chat_rag.Router.Priority.Group.{
  ModelCandidate, PriorityGroup, select_visible_model_by_round_robin,
}
use chat_rag.Router.Priority.Group.Chosen.{select-Mem}
use chat_rag.Router.Priority.Visible.{
  is_candidate_visible, filter_visible_models, other_names, build_ordered_candidates,
  contains_model, tried_before,
}
use chat_rag.Router.Priority.Visible.Ordering.{append_visible_fallback-build_ordered_candidates}
use chat_rag.Router.Priority.Strategy.{
  Strategy, Routed, VisibleSelection, find_group, visible_selection_for, route,
}
use chat_rag.Router.Priority.Strategy.Groups.{models_of, IsWellFormed, IsDistinct}
use chat_rag.Router.Priority.Strategy.Selection.{
  visible_at, visible_in, all_visible-visit_groups, IsFirst, visit_groups-IsFirst,
}

abbrev named : Text → ModelCandidate → Bool
named name c = text_eq c.model_name name

-- Some group has a model of this name that the user may see.
abbrev pub is_offered : Option Identity → ℕ → List PriorityGroup → Text → Bool
is_offered identity now groups name =
    any
      (λ (g : PriorityGroup).
        any
          (λ (c : ModelCandidate).
            text_eq c.model_name name && is_candidate_visible (some c) identity now)
          g.models)
      groups

contains_model-other_names :
    (s name : Text) (cs : List ModelCandidate)
    → text_eq s name ≡ false
    → contains_model (other_names s cs) name ≡ any (named name) cs
unfolding contains_model other_names
contains_model-other_names s name [] ne = refl
contains_model-other_names s name (c ∷ cs) ne =
    ground (arith, contains_model-other_names s name cs ne, text_eq→eq c.model_name s)

-- The ordered list has the selected name and those of the visible models.
contains_model-build_ordered_candidates :
    (s name : Text) (cs : List ModelCandidate)
    → contains_model (build_ordered_candidates s cs) name ≡ (text_eq s name || any (named name) cs)
unfolding build_ordered_candidates contains_model
contains_model-build_ordered_candidates s name cs = elim (Bool-cases (text_eq s name)) [
  | inl e ↦ rw e refl
  | inr e ↦ rw e (
      contains_model-other_names s name (sort tried_before cs) e
      ∙ any-sort tried_before (named name) cs)
]

Mem-any :
    (name : Text) (c : ModelCandidate) (cs : List ModelCandidate)
    → Memᴰ c cs
    → text_eq c.model_name name ≡ true
    → any (named name) cs ≡ true
Mem-any name c [] m h = elim m [ ]
Mem-any name c (x ∷ xs) (Memᴰ.head e) h = rw (← e, h) refl
Mem-any name c (x ∷ xs) (Memᴰ.tail m) h = ground (arith, Mem-any name c xs m h)

own_tail :
    (g : PriorityGroup) (gs xs : List PriorityGroup)
    → All (λ (h : PriorityGroup). eqb_ℤ h.priority g.priority ≡ false) xs
    → All (λ (h : PriorityGroup). find_group h.priority gs ≡ some h) xs
    → All (λ (h : PriorityGroup). find_group h.priority (g ∷ gs) ≡ some h) xs
unfolding find_group
own_tail g gs [] d o = tt
own_tail g gs (x ∷ xs) d o = (ground (arith, d.0, o.0), own_tail g gs xs d.1 o.1)

-- A group is found by its own priority.
pub find_group_own :
    (groups : List PriorityGroup)
    → IsDistinct groups
    → All (λ (g : PriorityGroup). find_group g.priority groups ≡ some g) groups
unfolding find_group
find_group_own [] h = tt
find_group_own (g ∷ gs) h =
    (rw (eqb_ℤ-refl g.priority) refl, own_tail g gs gs h.0 (find_group_own gs h.1))

module _ (identity : Option Identity) (now : ℕ) (groups : List PriorityGroup) (name : Text) where
  any-visible_in :
      (ps : List ℤ)
      → any (named name) (visible_in identity now groups ps)
        ≡ any (λ p. any (named name) (visible_at identity now groups p)) ps
  any-visible_in [] = refl
  any-visible_in (p ∷ ps) =
      any-append (named name) (visible_at identity now groups p) (visible_in identity now groups ps)
      ∙ ground (arith, any-visible_in ps)

  any-visible_at :
      (gs : List PriorityGroup)
      → All (λ (g : PriorityGroup). find_group g.priority groups ≡ some g) gs
      → any
          (λ p. any (named name) (visible_at identity now groups p))
          (map (λ (g : PriorityGroup). g.priority) gs)
        ≡ is_offered identity now gs name
  unfolding filter_visible_models
  any-visible_at [] o = refl
  any-visible_at (g ∷ gs) o = rw o.0 (
      rw
        (
          any-keep (named name) (λ c. is_candidate_visible (some c) identity now) g.models,
          any-visible_at gs o.1,
        )
        refl)

  -- What `visibleSelectionFor` collects has the names of the models that are visible in some group.
  any-visible :
      IsDistinct groups
      → any (named name) (
          visible_in identity now groups
            (sort ltb_ℤ (map (λ (g : PriorityGroup). g.priority) groups)))
        ≡ is_offered identity now groups name
  any-visible d =
      any-visible_in (sort ltb_ℤ (map (λ (g : PriorityGroup). g.priority) groups))
      ∙ any-sort ltb_ℤ _ (map (λ (g : PriorityGroup). g.priority) groups)
      ∙ any-visible_at groups (find_group_own groups d)

pub hidden→nil :
    (identity : Option Identity) (now : ℕ) (groups : List PriorityGroup) (ps : List ℤ)
    → All (λ p. is_empty (visible_at identity now groups p) ≡ true) ps
    → visible_in identity now groups ps ≡ []
hidden→nil identity now groups [] h = refl
hidden→nil identity now groups (p ∷ ps) h =
    rw (is_empty→nil (visible_at identity now groups p) h.0, hidden→nil identity now groups ps h.1)

any-find_group :
    (f : PriorityGroup → Bool) (p : ℤ) (gs : List PriorityGroup) (g : PriorityGroup)
    → find_group p gs ≡ some g
    → f g ≡ true
    → any f gs ≡ true
unfolding find_group
any-find_group f p [] g e h = cc
any-find_group f p (x ∷ xs) g e h = ground (arith, any-find_group f p xs g)

-- `Run` for a request that asks for the model "auto" and has messages.
module _ (s : Strategy) (identity : Option Identity) (now : ℕ)
    (w : IsWellFormed s.priority_groups) where
  abbrev pub priorities : List ℤ
  priorities = sort ltb_ℤ (map (λ (g : PriorityGroup). g.priority) s.priority_groups)

  abbrev pub chosen : VisibleSelection
  chosen = visible_selection_for s identity now

  pub all_visible-chosen : chosen.all_visible ≡ visible_in identity now s.priority_groups priorities
  unfolding visible_selection_for
  all_visible-chosen = all_visible-visit_groups identity now s.priority_groups priorities _

  priorities-IsSorted : IsSorted ltb_ℤ priorities
  priorities-IsSorted =
      sort-IsSorted ltb_ℤ
        (record { asym = λ a b h. ground arith; trans = λ a b c h k. ground arith })
        (map (λ (g : PriorityGroup). g.priority) s.priority_groups)

  pub chosen-cases :
      All (λ p. is_empty (visible_at identity now s.priority_groups p) ≡ true) priorities
      ⊎ IsFirst identity now s.priority_groups priorities chosen
  unfolding visible_selection_for
  chosen-cases =
      visit_groups-IsFirst identity now s.priority_groups priorities _ priorities-IsSorted refl

  any-chosen :
      (name : Text)
      → any (named name) chosen.all_visible ≡ is_offered identity now s.priority_groups name
  any-chosen name =
      ap (any (named name)) all_visible-chosen
      ∙ any-visible identity now s.priority_groups name w.distinct

  module _ (f : IsFirst identity now s.priority_groups priorities chosen) where
    abbrev pub selected : Text
    selected = (select_visible_model_by_round_robin chosen.selected_visible f.group).0

    selected-is_offered :
        (name : Text)
        → text_eq selected name ≡ true
        → is_offered identity now s.priority_groups name ≡ true
    unfolding filter_visible_models
    selected-is_offered name e =
        let (c, m, same) = select-Mem chosen.selected_visible f.group f.nonempty in
        let seen : any (named name) chosen.selected_visible ≡ true =
          Mem-any name c chosen.selected_visible m (rw same at e) in
        let seen' : any (named name) (filter_visible_models (models_of (some f.group)) identity now)
            ≡ true =
          rw (f.visible, f.found) at seen in
        any-find_group _ chosen.selected_priority s.priority_groups f.group f.found (
          sym
            (any-keep (named name) (λ c. is_candidate_visible (some c) identity now) f.group.models)
          ∙ seen')

    pub routed_list :
        is_empty chosen.all_visible ≡ false
        → (route s chosen).0 ≡ record {
          selected_model = selected;
          ordered_candidates = build_ordered_candidates selected chosen.all_visible;
          error = none;
        }
    unfolding route
    routed_list nonempty = ground (
      arith,
      f.selected,
      append_visible_fallback-build_ordered_candidates s.cfg.fallback_model_name selected
          chosen.all_visible,
    )

    contains_model-first :
        (name : Text)
        → contains_model (build_ordered_candidates selected chosen.all_visible) name
          ≡ is_offered identity now s.priority_groups name
    contains_model-first name =
        contains_model-build_ordered_candidates selected name chosen.all_visible
        ∙ ground (arith, any-chosen name, selected-is_offered name)

  pub contains_model-route :
      (name : Text)
      → contains_model (route s chosen).0.ordered_candidates name
        ≡ is_offered identity now s.priority_groups name
  unfolding route contains_model
  contains_model-route name = elim (Bool-cases (is_empty chosen.all_visible)) [
    | inl empty ↦
        rw empty
          (ap (any (named name)) (sym (is_empty→nil chosen.all_visible empty)) ∙ any-chosen name)
    | inr nonempty ↦ elim chosen-cases [
      | inl hidden ↦ absurd (
          cc (
            sym nonempty
            ∙ ap is_empty
                (all_visible-chosen ∙ hidden→nil identity now s.priority_groups priorities hidden)))
      | inr f ↦
          rw (ap (λ (r : Routed). r.ordered_candidates) (routed_list f nonempty))
            (contains_model-first f name)
    ]
  ]
