-- ===== src/Router/Priority/Strategy/Selection.antt =====
-- What `visibleSelectionFor` finds.
use chat_rag.Common.{
  is_empty→nil, Bool-cases, Option-cases, is_empty, All, All-mono, ℤ, ◌≤ℤ◌, ltb_ℤ, IsSorted, ℕ, ◌≡◌,
  refl, sym, ap, ◌∙◌, subst, ◌⊎◌, inl, inr, true, false, Option, none, some, List, [], ◌∷◌, ◌++◌,
  arith,
}
use mathlib.Core.List.{append-nil, append_assoc}
use chat_rag.Types.{Identity}
use chat_rag.Router.Priority.Group.{ModelCandidate, PriorityGroup}
use chat_rag.Router.Priority.Visible.{filter_visible_models}
use chat_rag.Router.Priority.Strategy.{VisibleSelection, find_group, visit_group, visit_groups}
use chat_rag.Router.Priority.Strategy.Groups.{models_at}

not_less : (p q : ℤ) → ltb_ℤ q p ≡ false → p ≤ℤ q
not_less p q h = ground arith

module _ (identity : Option Identity) (now : ℕ) (groups : List PriorityGroup) where
  abbrev pub visible_at : ℤ → List ModelCandidate
  visible_at p = filter_visible_models (models_at p groups) identity now

  abbrev pub visible_in : List ℤ → List ModelCandidate
  visible_in [] = []
  visible_in (p ∷ ps) = visible_at p ++ visible_in ps

  -- A group of which nothing is visible changes nothing.
  visit_group-hidden :
      (p : ℤ) (s : VisibleSelection)
      → is_empty (visible_at p) ≡ true
      → visit_group identity now p (find_group p groups) s ≡ s
  unfolding visit_group
  visit_group-hidden p s e = elim (Option-cases (find_group p groups)) [
    | inl missing ↦ rw missing refl
    | inr (g, found) ↦ rw found (ground arith)
  ]

  all_visible-visit_group :
      (p : ℤ) (s : VisibleSelection)
      → (visit_group identity now p (find_group p groups) s).all_visible
        ≡ s.all_visible ++ visible_at p
  unfolding visit_group filter_visible_models
  all_visible-visit_group p s = elim (Option-cases (find_group p groups)) [
    | inl missing ↦ rw missing (sym (append-nil s.all_visible))
    | inr (g, found) ↦ rw found (
        let visible = filter_visible_models g.models identity now in
        ground (arith, is_empty→nil visible, append-nil s.all_visible))
  ]

  pub all_visible-visit_groups :
      (ps : List ℤ) (s : VisibleSelection)
      → (visit_groups identity now groups ps s).all_visible ≡ s.all_visible ++ visible_in ps
  unfolding visit_groups
  all_visible-visit_groups [] s = sym (append-nil s.all_visible)
  all_visible-visit_groups (p ∷ ps) s = rw (
    all_visible-visit_groups ps (visit_group identity now p (find_group p groups) s),
    all_visible-visit_group p s,
    append_assoc,
  )

  visit_group-selected :
      (p : ℤ) (s : VisibleSelection) (g : PriorityGroup)
      → s.selected_group ≡ some g
      → let r = visit_group identity now p (find_group p groups) s in
        (r.selected_group ≡ some g)
        × (r.selected_priority ≡ s.selected_priority)
        × (r.selected_visible ≡ s.selected_visible)
  unfolding visit_group
  visit_group-selected p s g e = elim (Option-cases (find_group p groups)) [
    | inl missing ↦ rw missing (e, refl, refl)
    | inr (h, found) ↦ rw found (ground arith, ground arith, ground arith)
  ]

  visit_group-first :
      (p : ℤ) (s : VisibleSelection)
      → s.selected_group ≡ none
      → is_empty (visible_at p) ≡ false
      → let r = visit_group identity now p (find_group p groups) s in
        (g : PriorityGroup) × (find_group p groups ≡ some g)
        × (r.selected_group ≡ some g)
        × (r.selected_priority ≡ p)
        × (r.selected_visible ≡ visible_at p)
  unfolding visit_group filter_visible_models
  visit_group-first p s e some' = elim (Option-cases (find_group p groups)) [
    | inl missing ↦ absurd (cc (rw missing at some'))
    | inr (g, found) ↦
        let some'' : is_empty (filter_visible_models g.models identity now) ≡ false =
          rw found at some' in
        (g, found, rw found (ground arith), rw found (ground arith), rw found (ground arith))
  ]

  -- Once a group is selected it stays.
  visit_groups-selected :
      (ps : List ℤ) (s : VisibleSelection) (g : PriorityGroup)
      → s.selected_group ≡ some g
      → let r = visit_groups identity now groups ps s in
        (r.selected_group ≡ some g)
        × (r.selected_priority ≡ s.selected_priority)
        × (r.selected_visible ≡ s.selected_visible)
  unfolding visit_groups
  visit_groups-selected [] s g e = (e, refl, refl)
  visit_groups-selected (p ∷ ps) s g e =
      let t = visit_group identity now p (find_group p groups) s in
      let (a, b, c) = visit_group-selected p s g e in
      let (a', b', c') = visit_groups-selected ps t g a in (a', b' ∙ b, c' ∙ c)

  -- The first of some priorities at which anything is visible, and what was selected for it.
  pub record IsFirst (ps : List ℤ) (r : VisibleSelection) : Type 0 where
    pub group : PriorityGroup
    pub selected : r.selected_group ≡ some group
    pub found : find_group r.selected_priority groups ≡ some group
    pub visible : r.selected_visible ≡ visible_at r.selected_priority
    pub nonempty : is_empty r.selected_visible ≡ false
    pub lowest : All (λ p. (r.selected_priority ≤ℤ p) ⊎ (is_empty (visible_at p) ≡ true)) ps

  pub visit_groups-IsFirst :
      (ps : List ℤ) (s : VisibleSelection)
      → IsSorted ltb_ℤ ps
      → s.selected_group ≡ none
      → All (λ p. is_empty (visible_at p) ≡ true) ps
        ⊎ IsFirst ps (visit_groups identity now groups ps s)
  unfolding visit_groups
  visit_groups-IsFirst [] s sorted e = inl tt
  visit_groups-IsFirst (p ∷ ps) s sorted e = elim (Bool-cases (is_empty (visible_at p))) [
    | inl hidden ↦ rw (visit_group-hidden p s hidden) (elim (visit_groups-IsFirst ps s sorted.1 e) [
      | inl none_left ↦ inl (hidden, none_left)
      | inr f ↦ inr (record {
        group = f.group;
        selected = f.selected;
        found = f.found;
        visible = f.visible;
        nonempty = f.nonempty;
        lowest = (inr hidden, f.lowest);
      })
    ])
    | inr shown ↦
        let t = visit_group identity now p (find_group p groups) s in
        let (g, found, a, b, c) = visit_group-first p s e shown in
        let (a', b', c') = visit_groups-selected ps t g a in
        inr (record {
          group = g;
          selected = a';
          found = rw (b', b) found;
          visible = c' ∙ c ∙ ap visible_at (sym (b' ∙ b));
          nonempty = rw (c', c) shown;
          lowest =
              subst (λ q. All (λ r. (q ≤ℤ r) ⊎ (is_empty (visible_at r) ≡ true)) (p ∷ ps))
                (sym (b' ∙ b))
                (inl (omega arith), All-mono _ _ ps (λ q lower. inl (not_less p q lower)) sorted.0);
        })
  ]
