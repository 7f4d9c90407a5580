-- ===== src/Router/Priority/Strategy/Answers.antt =====
-- `Run` as its caller sees it.
use chat_rag.Common.{
  is_empty-append, Bool-cases, is_empty, keep, All, ℤ, ◌≤ℤ◌, ltb_ℤ, Text, sort, sort-All, ℕ, ◌≡◌,
  refl, sym, ap, ◌∙◌, subst, ◌⊎◌, inl, inr, Bool, true, false, Option, none, some, List, [], ◌∷◌,
  map, arith,
}
use mathlib.Core.List.{Memᴰ}
use chat_rag.Types.{Identity}
use chat_rag.Router.Priority.Group.{
  ModelCandidate, PriorityGroup, select_visible_model_by_round_robin,
}
use chat_rag.Router.Priority.Group.Chosen.{select-Mem, select_keeps}
use chat_rag.Router.Priority.Visible.{
  is_candidate_visible, filter_visible_models, contains_model, other_names, tried_before,
  build_ordered_candidates,
}
use chat_rag.Router.Priority.Strategy.{
  Strategy, RouteRequest, Routed, no_visible_candidates, put_group, is_auto, route, run,
}
use chat_rag.Router.Priority.Strategy.Groups.{
  models_of, models_at, IsMember, IsWellFormed, All-put_group, put_group-IsDistinct, All-find_group,
  models_at-IsMember,
}
use chat_rag.Router.Priority.Strategy.Selection.{visible_at, visible_in, IsFirst}
use chat_rag.Router.Priority.Strategy.Runs.{
  find_group_own, is_offered, priorities, chosen, selected, hidden→nil, all_visible-chosen,
  chosen-cases, routed_list, contains_model-route,
}

-- A request that the strategy routes: it has messages and asks for the model "auto".
pub record AsksForAuto (req : RouteRequest) : Type 0 where
  pub has_messages : is_empty req.messages ≡ false
  pub auto : is_auto req.model ≡ true

run-eq-route :
    (s : Strategy) (identity : Option Identity) (now : ℕ) (req : RouteRequest)
    (w : IsWellFormed s.priority_groups)
    → AsksForAuto req
    → run s identity now (some req) ≡ route s (chosen s identity now w)
unfolding run
run-eq-route s identity now req w a = rw (a.has_messages, a.auto) refl

-- The candidates that `Run` lists for a request for "auto" are the names of exactly those models
-- that some group holds and that the user may see; there are none where it fails.
pub contains_model-run :
    (s : Strategy) (identity : Option Identity) (now : ℕ) (req : RouteRequest) (name : Text)
    → IsWellFormed s.priority_groups
    → AsksForAuto req
    → contains_model (run s identity now (some req)).0.ordered_candidates name
      ≡ is_offered identity now s.priority_groups name
contains_model-run s identity now req name w a =
    rw (run-eq-route s identity now req w a) (contains_model-route s identity now w name)

-- A model that the user may see, in a group of the lowest priority number that has any.
pub record IsLowestVisible (groups : List PriorityGroup) (identity : Option Identity) (now : ℕ)
    (c : ModelCandidate) : Type 0 where
  pub member : Memᴰ c (models_at c.priority groups)
  pub visible : is_candidate_visible (some c) identity now ≡ true
  pub lowest :
      All
        (λ (g : PriorityGroup).
          (c.priority ≤ℤ g.priority)
          ⊎ (is_empty (filter_visible_models g.models identity now) ≡ true))
        groups

Mem-keep {ℓ} :
    {A : Type ℓ} (p : A → Bool) (c : A) (cs : List A)
    → Memᴰ c (keep p cs)
    → Memᴰ c cs × (p c ≡ true)
Mem-keep p c [] m = elim m [ ]
Mem-keep p c (x ∷ xs) m = elim (Bool-cases (p x)) [
  | inr skip ↦
      let m' : Memᴰ c (keep p xs) = rw skip at m in
      let (n, e) = Mem-keep p c xs m' in (Memᴰ.tail n, e)
  | inl pass ↦
      let m' : Memᴰ c (x ∷ keep p xs) = rw pass at m in kept p c x xs pass m' (Mem-keep p c xs)
]
  where
    kept :
        {B : Type ℓ} (q : B → Bool) (b y : B) (ys : List B)
        → q y ≡ true
        → Memᴰ b (y ∷ keep q ys)
        → (Memᴰ b (keep q ys) → Memᴰ b ys × (q b ≡ true))
        → Memᴰ b (y ∷ ys) × (q b ≡ true)
    kept q b y ys pass (Memᴰ.head e) ih = (Memᴰ.head e, rw e pass)
    kept q b y ys pass (Memᴰ.tail m) ih = let (n, e) = ih m in (Memᴰ.tail n, e)

Mem-All {ℓ κ} : {A : Type ℓ} (P : A → Type κ) (c : A) (cs : List A) → Memᴰ c cs → All P cs → P c
Mem-All P c [] m h = elim m [ ]
Mem-All P c (x ∷ xs) (Memᴰ.head e) h = subst P (sym e) h.0
Mem-All P c (x ∷ xs) (Memᴰ.tail m) h = Mem-All P c xs m h.1

All-map {ℓ κ ℓ'} :
    {A : Type ℓ} {B : Type κ} (P : B → Type ℓ') (f : A → B) (xs : List A)
    → All P (map f xs)
    → All (λ x. P (f x)) xs
All-map P f [] h = tt
All-map P f (x ∷ xs) h = (h.0, All-map P f xs h.1)

All-zip {ℓ κ κ' κ''} :
    {A : Type ℓ} (P : A → Type κ) (Q : A → Type κ') (R : A → Type κ'') (xs : List A)
    → ((x : A) → P x → Q x → R x)
    → All P xs
    → All Q xs
    → All R xs
All-zip P Q R [] f h k = tt
All-zip P Q R (x ∷ xs) f h k = (f x h.0 k.0, All-zip P Q R xs f h.1 k.1)

-- What is so at each of the priorities visited is so of each group.
at_groups :
    (s : Strategy) (identity : Option Identity) (now : ℕ) (w : IsWellFormed s.priority_groups)
    (P : ℤ → List ModelCandidate → Type 0)
    → All (λ p. P p (visible_at identity now s.priority_groups p)) (priorities s identity now w)
    → All
        (λ (g : PriorityGroup). P g.priority (filter_visible_models g.models identity now))
        s.priority_groups
at_groups s identity now w P h =
    All-zip _ _ _ s.priority_groups
      (λ g own here.
        subst (λ o. P g.priority (filter_visible_models (models_of o) identity now)) own here)
      (find_group_own s.priority_groups w.distinct)
      (All-map _ (λ (g : PriorityGroup). g.priority) s.priority_groups
        (sort-All ltb_ℤ _ (map (λ (g : PriorityGroup). g.priority) s.priority_groups) h))

module _ (s : Strategy) (identity : Option Identity) (now : ℕ) (w : IsWellFormed s.priority_groups)
    (f : IsFirst identity now s.priority_groups
      (priorities s identity now w)
      (chosen s identity now w)) where
  selected_candidate :
      (c : ModelCandidate) × (selected s identity now w f ≡ c.model_name)
      × IsLowestVisible s.priority_groups identity now c
  unfolding filter_visible_models
  selected_candidate =
      let v = chosen s identity now w in
      let p = v.selected_priority in
      let (c, m, same) = select-Mem v.selected_visible f.group f.nonempty in
      let m' : Memᴰ c (visible_at identity now s.priority_groups p) = subst (Memᴰ c) f.visible m in
      let (n, seen) =
        Mem-keep (λ d. is_candidate_visible (some d) identity now) c (models_at p s.priority_groups)
          m' in
      let at =
        (Mem-All (IsMember p) c (models_at p s.priority_groups) n
          (models_at-IsMember p s.priority_groups w)).at_priority in
      (
        c,
        same,
        record {
          member = subst (λ q. Memᴰ c (models_at q s.priority_groups)) (sym at) n;
          visible = seen;
          lowest =
              at_groups s identity now w (λ q ms. (c.priority ≤ℤ q) ⊎ (is_empty ms ≡ true))
                (subst
                  (λ r.
                    All
                      (λ q.
                        (r ≤ℤ q) ⊎ (is_empty (visible_at identity now s.priority_groups q) ≡ true))
                      (priorities s identity now w))
                  (sym at) f.lowest);
        },
      )

  group_after-IsWellFormed : IsWellFormed (
      put_group
        (select_visible_model_by_round_robin (chosen s identity now w).selected_visible f.group).1
        s.priority_groups)
  group_after-IsWellFormed =
      let (same, at) = select_keeps (chosen s identity now w).selected_visible f.group in
      let g' =
        (select_visible_model_by_round_robin (chosen s identity now w).selected_visible
          f.group).1 in
      record {
        distinct = put_group-IsDistinct g' s.priority_groups w.distinct;
        members =
            All-put_group _ g' s.priority_groups
              (rw (same, at)
                (All-find_group (λ (g : PriorityGroup). All (IsMember g.priority) g.models)
                  (chosen s identity now w).selected_priority s.priority_groups f.group f.found
                  w.members))
              w.members;
      }

  groups_after :
      is_empty (chosen s identity now w).all_visible ≡ false
      → (route s (chosen s identity now w)).1.priority_groups
        ≡ put_group
            (select_visible_model_by_round_robin
              (chosen s identity now w).selected_visible
              f.group).1
            s.priority_groups
  unfolding route
  groups_after nonempty = ground (arith, f.selected)

shown→hidden :
    (identity : Option Identity) (now : ℕ) (groups : List PriorityGroup) (ps : List ℤ)
    → is_empty (visible_in identity now groups ps) ≡ true
    → All (λ p. is_empty (visible_at identity now groups p) ≡ true) ps
shown→hidden identity now groups [] h = tt
shown→hidden identity now groups (p ∷ ps) h =
    let both =
      is_empty-append (visible_at identity now groups p) (visible_in identity now groups ps) in
    (ground (arith, both), shown→hidden identity now groups ps (ground (arith, both)))

-- Where the groups are well formed and the request has messages and asks for "auto", `Run` does one
-- of two things. It fails for want of visible candidates, lists nothing and leaves the strategy as
-- it was, and then no group has a model that the user may see. Or it selects a model of the lowest
-- priority number that the user may see, which heads the list, and the groups stay well formed.
pub run_selects :
    (s : Strategy) (identity : Option Identity) (now : ℕ) (req : RouteRequest)
    → IsWellFormed s.priority_groups
    → AsksForAuto req
    → let (r, s') = run s identity now (some req) in
      ((r.error ≡ some no_visible_candidates)
        × (r.ordered_candidates ≡ [])
        × (s' ≡ s)
        × All
            (λ (g : PriorityGroup). is_empty (filter_visible_models g.models identity now) ≡ true)
            s.priority_groups)
      ⊎ ((r.error ≡ none)
          × ((c : ModelCandidate) × (r.selected_model ≡ c.model_name)
              × IsLowestVisible s.priority_groups identity now c)
          × ((rest : List Text) × (r.ordered_candidates ≡ r.selected_model ∷ rest))
          × IsWellFormed s'.priority_groups)
unfolding route build_ordered_candidates
run_selects s identity now req w a =
    rw (run-eq-route s identity now req w a)
      (elim (Bool-cases (is_empty (chosen s identity now w).all_visible)) [
        | inl empty ↦ inl (
          rw empty refl,
          rw empty refl,
          rw empty refl,
          at_groups s identity now w (λ _ ms. is_empty ms ≡ true)
              (shown→hidden identity now s.priority_groups (priorities s identity now w)
                (ap is_empty (sym (all_visible-chosen s identity now w)) ∙ empty)),
        )
        | inr shown ↦ elim (chosen-cases s identity now w) [
          | inl hidden ↦ absurd (
              cc (
                sym shown
                ∙ ap is_empty (
                    all_visible-chosen s identity now w
                    ∙ hidden→nil identity now s.priority_groups (priorities s identity now w)
                        hidden)))
          | inr f ↦
              let routed = routed_list s identity now w f shown in
              let (c, name, low) = selected_candidate s identity now w f in
              inr (
                ap (λ (r : Routed). r.error) routed,
                (c, ap (λ (r : Routed). r.selected_model) routed ∙ name, low),
                (
                  other_names (selected s identity now w f)
                      (sort tried_before (chosen s identity now w).all_visible),
                  rw
                      (
                        ap (λ (r : Routed). r.ordered_candidates) routed,
                        ap (λ (r : Routed). r.selected_model) routed,
                      )
                      refl,
                ),
                rw (groups_after s identity now w f shown)
                    (group_after-IsWellFormed s identity now w f),
              )
        ]
      ])
