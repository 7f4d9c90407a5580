-- ===== src/Router/Semantic/Offered.antt =====
-- The models that `orderCandidatesByLabel` of internal/router/strategies/semantic/semantic.go offers.
use chat_rag.Common.{
  ltb, if◌then◌else◌, Bool-cases, length, is_empty, keep, any, any-append, concat, Text, text_eq,
  text_eq→eq, sort, any-sort, ℕ, ◌+◌, ◌≡◌, refl, ap, ◌∙◌, inl, inr, Bool, true, not, ◌&&◌, ◌||◌,
  List, [], ◌∷◌, ◌++◌, map, arith,
}
use chat_rag.Router.Semantic.{
  RoutingCandidate, RoutingConfig, Scored, rank_before, text_before, sorted_names, dedup_from,
  dedup, scored, higher, joins, buckets, tie_broken, with_fallback, order_candidates_by_label,
}

-- How often a name stands in a list.
abbrev pub occurrences : Text → List Text → ℕ
occurrences y xs = length (keep (λ x. text_eq x y) xs)

abbrev pub is_listed : Text → List Text → Bool
is_listed y xs = any (λ x. text_eq x y) xs

seen_same :
    (v y : Text) (seen : List Text) → text_eq v y ≡ true → is_listed v seen ≡ is_listed y seen
seen_same v y seen e = ap (λ x. is_listed x seen) (text_eq→eq v y e)

occurrences-dedup_from :
    (y : Text) (seen xs : List Text)
    → occurrences y (dedup_from seen xs)
      ≡ (if is_listed y seen then 0 else if is_listed y xs then 1 else 0)
unfolding dedup_from
occurrences-dedup_from y seen [] = ground arith
occurrences-dedup_from y seen (v ∷ vs) = elim (Bool-cases (is_listed v seen)) [
  | inl e ↦ rw e (ground (arith, e, occurrences-dedup_from y seen vs, seen_same v y seen))
  | inr e ↦ rw e (ground (arith, e, occurrences-dedup_from y (v ∷ seen) vs, seen_same v y seen))
]

is_listed-append :
    (y : Text) (xs ys : List Text) → is_listed y (xs ++ ys) ≡ (is_listed y xs || is_listed y ys)
is_listed-append y xs ys = any-append (λ x. text_eq x y) xs ys

any-map :
    {A : Type 0} (f : A → Text) (y : Text) (xs : List A)
    → is_listed y (map f xs) ≡ any (λ x. text_eq (f x) y) xs
any-map f y [] = refl
any-map f y (x ∷ xs) = ground (arith, any-map f y xs)

abbrev sorted_buckets : (Scored → Scored → Bool) → List (List Scored) → List Scored
sorted_buckets less bs = concat (map (sort less) bs)

any-sorted_buckets :
    (less : Scored → Scored → Bool) (p : Scored → Bool) (g : List Scored) (gs : List (List Scored))
    → any p (sorted_buckets less (g ∷ gs)) ≡ (any p g || any p (sorted_buckets less gs))
unfolding concat
any-sorted_buckets less p g gs =
    any-append p (sort less g) (sorted_buckets less gs)
    ∙ ap (λ b. b || any p (sorted_buckets less gs)) (any-sort less p g)

any-concat-buckets :
    (less : Scored → Scored → Bool) (p : Scored → Bool) (xs : List Scored)
    → any p (sorted_buckets less (buckets xs)) ≡ any p xs
unfolding buckets concat
any-concat-buckets less p [] = refl
any-concat-buckets less p (x ∷ xs) = added (buckets xs) (any-concat-buckets less p xs)
  where
    added :
        (bs : List (List Scored))
        → any p (sorted_buckets less bs) ≡ any p xs
        → any p (
            sorted_buckets less (elim bs [
              | [] ↦ (x ∷ []) ∷ []
              | g ∷ gs ↦ if joins x g then (x ∷ g) ∷ gs else (x ∷ []) ∷ g ∷ gs
            ]))
          ≡ any p (x ∷ xs)
    added [] h = any-sorted_buckets less p (x ∷ []) [] ∙ ground (arith, h)
    added (g ∷ gs) h = elim (Bool-cases (joins x g)) [
      | inl e ↦
          rw e (
            any-sorted_buckets less p (x ∷ g) gs
            ∙ ground (arith, h, any-sorted_buckets less p g gs))
      | inr e ↦ rw e (any-sorted_buckets less p (x ∷ []) (g ∷ gs) ∙ ground (arith, h))
    ]

pub is_listed-sorted_names :
    (cfg : RoutingConfig) (y : Text) (names : List Text)
    → is_listed y (sorted_names cfg names) ≡ is_listed y names
is_listed-sorted_names cfg y names = elim (Bool-cases (is_empty cfg.tie_break_order)) [
  | inl e ↦ rw e (any-sort text_before (λ x. text_eq x y) names)
  | inr e ↦ rw e (any-sort (rank_before cfg.tie_break_order) (λ x. text_eq x y) names)
]

any-tie_broken :
    (cfg : RoutingConfig) (p : Scored → Bool) (arr : List Scored)
    → any p (tie_broken cfg arr) ≡ any p arr
any-tie_broken cfg p arr = elim (Bool-cases (is_empty cfg.tie_break_order)) [
  | inl e ↦ rw e refl
  | inr e ↦ rw e (any-concat-buckets (λ a b. rank_before cfg.tie_break_order a.name b.name) p arr)
]

any-scored :
    (label y : Text) (cs : List RoutingCandidate)
    → any (λ s. text_eq s.name y) (scored label cs) ≡ any (λ c. text_eq c.model_name y) cs
any-scored label y [] = refl
any-scored label y (c ∷ cs) =
    ap (λ r. if text_eq c.model_name y then true else r) (any-scored label y cs)

-- The names before the duplicates go.
abbrev pub ordered_names : RoutingConfig → Text → List RoutingCandidate → List Text
ordered_names cfg label cs =
    if is_empty label
    then sorted_names cfg (map (λ c. c.model_name) cs)
    else map (λ s. s.name) (tie_broken cfg (sort higher (scored label cs)))

pub is_listed-ordered_names :
    (cfg : RoutingConfig) (label y : Text) (cs : List RoutingCandidate)
    → is_listed y (ordered_names cfg label cs) ≡ any (λ c. text_eq c.model_name y) cs
is_listed-ordered_names cfg label y cs = elim (Bool-cases (is_empty label)) [
  | inl e ↦
      rw e (
        is_listed-sorted_names cfg y (map (λ c. c.model_name) cs)
        ∙ any-map (λ c. c.model_name) y cs)
  | inr e ↦ rw e (
      any-map (λ s. s.name) y (tie_broken cfg (sort higher (scored label cs)))
      ∙ any-tie_broken cfg (λ s. text_eq s.name y) (sort higher (scored label cs))
      ∙ any-sort higher (λ s. text_eq s.name y) (scored label cs)
      ∙ any-scored label y cs)
]

-- A name that is listed stands somewhere.
is_listed-occurrences : (y : Text) (xs : List Text) → is_listed y xs ≡ ltb 0 (occurrences y xs)
is_listed-occurrences y [] = refl
is_listed-occurrences y (x ∷ xs) = ground (arith, is_listed-occurrences y xs)

occurrences-append :
    (y f : Text) (xs : List Text)
    → occurrences y (xs ++ f ∷ []) ≡ occurrences y xs + (if text_eq f y then 1 else 0)
occurrences-append y f [] = ground arith
occurrences-append y f (x ∷ xs) = ground (arith, occurrences-append y f xs)

occurrences-with_fallback :
    (cfg : RoutingConfig) (y : Text) (xs : List Text)
    → occurrences y (with_fallback cfg xs)
      ≡ occurrences y xs
        + (if not (is_empty cfg.fallback_model_name) && not (is_listed cfg.fallback_model_name xs)
            then (if text_eq cfg.fallback_model_name y then 1 else 0)
            else 0)
occurrences-with_fallback cfg y xs =
    elim (Bool-cases
      (not (is_empty cfg.fallback_model_name) && not (is_listed cfg.fallback_model_name xs))) [
        | inl e ↦ rw e (occurrences-append y cfg.fallback_model_name xs)
        | inr e ↦ rw e (omega arith)
      ]

-- The count, given which of the two names is a candidate's.
counted_once :
    (no_fallback candidate fallback_listed same : Bool) (n m : ℕ)
    → (same ≡ true → fallback_listed ≡ candidate)
    → n ≡ (if candidate then 1 else 0)
    → m ≡ (if fallback_listed then 1 else 0)
    → n + (if not no_fallback && not (ltb 0 m) then (if same then 1 else 0) else 0)
      ≡ (if candidate || (not no_fallback && same) then 1 else 0)
counted_once no_fallback candidate fallback_listed same n m h p q = ground arith

-- Whether a model is a candidate or the fallback.
abbrev pub is_offered : RoutingConfig → List RoutingCandidate → Text → Bool
is_offered cfg cs y =
    any (λ c. text_eq c.model_name y) cs
    || (not (is_empty cfg.fallback_model_name) && text_eq cfg.fallback_model_name y)

-- Whatever the label, each candidate and the fallback stand once in the ordered list, and no other
-- model does.
pub occurrences-order_candidates_by_label :
    (cfg : RoutingConfig) (label : Text) (cs : List RoutingCandidate) (y : Text)
    → occurrences y (order_candidates_by_label cfg label cs)
      ≡ (if is_offered cfg cs y then 1 else 0)
unfolding order_candidates_by_label
occurrences-order_candidates_by_label cfg label cs y =
    let f : Text = cfg.fallback_model_name in
    let names : List Text = ordered_names cfg label cs in
    let once : (z : Text)
        → occurrences z (dedup names) ≡ (if any (λ c. text_eq c.model_name z) cs then 1 else 0) =
      λ z.
        occurrences-dedup_from z [] names
        ∙ ap (λ b. if b then 1 else 0) (is_listed-ordered_names cfg label z cs) in
    occurrences-with_fallback cfg y (dedup names)
    ∙ ap
        (λ b.
          occurrences y (dedup names)
          + (if not (is_empty f) && not b then (if text_eq f y then 1 else 0) else 0))
        (is_listed-occurrences f (dedup names))
    ∙ counted_once (is_empty f) (any (λ c. text_eq c.model_name y) cs)
        (any (λ c. text_eq c.model_name f) cs) (text_eq f y) (occurrences y (dedup names))
        (occurrences f (dedup names))
        (λ e. ap (λ z. any (λ c. text_eq c.model_name z) cs) (text_eq→eq f y e)) (once y) (once f)
