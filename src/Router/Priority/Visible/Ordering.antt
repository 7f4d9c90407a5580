-- ===== src/Router/Priority/Visible/Ordering.antt =====
-- The order in which the visible candidates are tried, and the fallback model.
use chat_rag.Common.{
  keep_comm, All-keep, keep-sort-perm, sort-All, Bool-cases, keep, All, All-mono, ℤ, ◌+ℤ◌, ◌≤ℤ◌,
  eqb_ℤ, pos, Text, text_eq, text_eq→eq, sort, IsSorted, IsOrder, sort-IsSorted, keep-sort, ◌≡◌,
  refl, ap, ◌∙◌, ◌⊎◌, inl, inr, Bool, true, false, not, ◌&&◌, none, List, [], ◌∷◌, map, arith,
}
use mathlib.Core.List.{Perm}
use chat_rag.Router.Priority.Group.{ModelCandidate}
use chat_rag.Router.Priority.Visible.{
  tried_before, other_names, build_ordered_candidates, contains_model, find_candidate_by_name,
  append_visible_fallback,
}

-- `a` may be tried before `b`: a lower priority number, or the same and at least the weight.
abbrev pub Precedes : ModelCandidate → ModelCandidate → Type 0
Precedes a b =
    (pos 1 +ℤ a.priority ≤ℤ b.priority) ⊎ ((a.priority ≡ b.priority) × (b.weight ≤ℤ a.weight))

abbrev pub IsTriedInOrder : List ModelCandidate → Type 0
IsTriedInOrder [] = Unit
IsTriedInOrder (c ∷ cs) = All (Precedes c) cs × IsTriedInOrder cs

abbrev pub has_rank : ℤ → ℤ → ModelCandidate → Bool
has_rank p w c = eqb_ℤ c.priority p && eqb_ℤ c.weight w

abbrev pub is_other : Text → ModelCandidate → Bool
is_other selected c = not (text_eq c.model_name selected)

tried_before-IsOrder : IsOrder tried_before
unfolding tried_before
tried_before-IsOrder = record { asym = λ a b h. ground arith; trans = λ a b c h k. ground arith }

tried_before→Precedes : (a b : ModelCandidate) → tried_before b a ≡ false → Precedes a b
unfolding tried_before ◌+ℤ◌
tried_before→Precedes a b h = ground arith

IsSorted→IsTriedInOrder : (cs : List ModelCandidate) → IsSorted tried_before cs → IsTriedInOrder cs
IsSorted→IsTriedInOrder [] h = tt
IsSorted→IsTriedInOrder (c ∷ cs) h =
    (All-mono _ (Precedes c) cs (tried_before→Precedes c) h.0, IsSorted→IsTriedInOrder cs h.1)

keep-IsTriedInOrder :
    (p : ModelCandidate → Bool) (cs : List ModelCandidate)
    → IsTriedInOrder cs
    → IsTriedInOrder (keep p cs)
keep-IsTriedInOrder p [] h = h
keep-IsTriedInOrder p (c ∷ cs) h = elim (Bool-cases (p c)) [
  | inl e ↦ rw e (All-keep (Precedes c) p cs h.0, keep-IsTriedInOrder p cs h.1)
  | inr e ↦ rw e (keep-IsTriedInOrder p cs h.1)
]

other_names-eq-keep :
    (s : Text) (cs : List ModelCandidate)
    → other_names s cs ≡ map (λ (c : ModelCandidate). c.model_name) (keep (is_other s) cs)
unfolding other_names
other_names-eq-keep s [] = refl
other_names-eq-keep s (c ∷ cs) = ground (arith, other_names-eq-keep s cs)

-- What `others` must be for `selected ∷ names of others` to be the order of trial.
pub record IsOrderOf (selected : Text) (visible others : List ModelCandidate) : Type 0 where
  pub same_models : Perm others (keep (is_other selected) visible)
  pub in_order : IsTriedInOrder others
  pub stable :
      (p w : ℤ)
      → keep (has_rank p w) others ≡ keep (has_rank p w) (keep (is_other selected) visible)

same_rank :
    (p w : ℤ) (a b : ModelCandidate)
    → has_rank p w a ≡ true
    → has_rank p w b ≡ true
    → tried_before b a ≡ false
unfolding tried_before
same_rank p w a b h k = ground arith

-- The model that was selected is tried first. After it come all other visible models, each as often
-- as it is visible: lower priority numbers first, heavier models first within a priority, and
-- otherwise in the order in which they were listed.
pub build_ordered_candidates_order :
    (selected : Text) (visible : List ModelCandidate)
    → (others : List ModelCandidate) × (build_ordered_candidates selected visible
        ≡ selected ∷ map (λ (c : ModelCandidate). c.model_name) others)
      × IsOrderOf selected visible others
unfolding build_ordered_candidates
build_ordered_candidates_order selected visible =
    let sorted = sort tried_before visible in
    let other = is_other selected in
    (
      keep other sorted,
      ap (λ ns. selected ∷ ns) (other_names-eq-keep selected sorted),
      record {
        same_models = keep-sort-perm tried_before other visible;
        in_order = keep-IsTriedInOrder other sorted (
            IsSorted→IsTriedInOrder sorted
              (sort-IsSorted tried_before tried_before-IsOrder visible));
        stable = λ p w.
            keep_comm (has_rank p w) other sorted
            ∙ ap (keep other) (keep-sort tried_before (has_rank p w) visible (same_rank p w))
            ∙ keep_comm other (has_rank p w) visible;
      },
    )

abbrev pub Unnamed : Text → List ModelCandidate → Type 0
Unnamed name = All (λ (c : ModelCandidate). text_eq c.model_name name ≡ false)

contains_model-other_names :
    (s name : Text) (cs : List ModelCandidate)
    → text_eq s name ≡ false
    → contains_model (other_names s cs) name ≡ false
    → Unnamed name cs
unfolding contains_model other_names
contains_model-other_names s name [] ne h = tt
contains_model-other_names s name (c ∷ cs) ne h = elim (Bool-cases (text_eq c.model_name s)) [
  | inl e ↦
      (rw (text_eq→eq c.model_name s e) ne, contains_model-other_names s name cs ne (ground arith))
  | inr e ↦ (ground arith, contains_model-other_names s name cs ne (ground arith))
]

Unnamed→find_candidate_by_name :
    (name : Text) (cs : List ModelCandidate)
    → Unnamed name cs
    → find_candidate_by_name cs name ≡ none
unfolding find_candidate_by_name
Unnamed→find_candidate_by_name name [] h = refl
Unnamed→find_candidate_by_name name (c ∷ cs) h = rw h.0 (Unnamed→find_candidate_by_name name cs h.1)

-- A name that the ordered list lacks is the name of no visible model.
pub contains_model→Unnamed :
    (selected name : Text) (visible : List ModelCandidate)
    → contains_model (build_ordered_candidates selected visible) name ≡ false
    → Unnamed name visible
unfolding build_ordered_candidates contains_model
contains_model→Unnamed selected name visible h = sort-All tried_before _ visible (
    contains_model-other_names selected name (sort tried_before visible) (ground arith)
      (ground arith))

-- The fallback never adds a model: where it is visible to the user it is in the list already.
pub append_visible_fallback-build_ordered_candidates :
    (fallback selected : Text) (visible : List ModelCandidate)
    → append_visible_fallback fallback (build_ordered_candidates selected visible) visible
      ≡ build_ordered_candidates selected visible
unfolding append_visible_fallback
append_visible_fallback-build_ordered_candidates fallback selected visible =
    elim (Bool-cases (contains_model (build_ordered_candidates selected visible) fallback)) [
      | inl e ↦ ground arith
      | inr e ↦ ground (
        arith,
        Unnamed→find_candidate_by_name fallback visible
            (contains_model→Unnamed selected fallback visible e),
      )
    ]
