-- ===== src/Router/Priority/Group/Balance.antt =====
-- One selection of the smooth weighted round robin, as a step on three parallel lists: the models,
-- their current weights, and how often each was selected so far.
use chat_rag.Common.{
  Bool-cases, length, get_elem?, All, ℤ, pos_part, neg_part, ◌+ℤ◌, ◌≤ℤ◌, ltb_ℤ, int_laws, pos, ℕ,
  zero, suc, ◌+◌, ◌*◌, ◌<◌, ◌≡◌, refl, sym, ap, ◌∙◌, ◌⊎◌, inl, inr, some, List, [], ◌∷◌, arith,
}
use chat_rag.Router.Priority.Group.{ModelCandidate, Scan, scan, total_weight}

abbrev pub Positive : List ModelCandidate → Type 0
Positive = All (λ m. pos 1 ≤ℤ m.weight)

abbrev pub sum : List ℕ → ℕ
sum [] = 0
sum (c ∷ cs) = c + sum cs

abbrev pub sum_pos : List ℤ → ℕ
sum_pos [] = 0
sum_pos (w ∷ ws) = pos_part w + sum_pos ws

abbrev pub sum_neg : List ℤ → ℕ
sum_neg [] = 0
sum_neg (w ∷ ws) = neg_part w + sum_neg ws

-- The sum of the weights, as a number.
abbrev pub total : List ModelCandidate → ℕ
total [] = 0
total (m ∷ ms) = pos_part m.weight + total ms

abbrev pub inc_at : ℕ → List ℕ → List ℕ
inc_at i [] = []
inc_at zero (c ∷ cs) = suc c ∷ cs
inc_at (suc i) (c ∷ cs) = c ∷ inc_at i cs

-- After `m` rounds a model of weight `v` that was selected `c` times has the weight `m * v - t * c`.
abbrev pub Tracks : ℕ → ℕ → List ModelCandidate → List ℤ → List ℕ → Type 0
Tracks t m [] [] [] = Unit
Tracks t m (v ∷ vs) (w ∷ ws) (c ∷ cs) =
    (pos_part w + t * c ≡ m * pos_part v.weight + neg_part w) × Tracks t m vs ws cs
Tracks t m _ _ _ = ⊥

-- No current weight is `-t` or less.
abbrev pub AboveMinus : ℕ → List ℤ → Type 0
AboveMinus t = All (λ w. neg_part w < t)

pub total_weight-eq-total :
    (vs : List ModelCandidate) → Positive vs → total_weight vs ≡ pos (total vs)
unfolding total_weight ◌+ℤ◌
total_weight-eq-total [] h = refl
total_weight-eq-total (v ∷ vs) h = ground (arith, total_weight-eq-total vs h.1)

-- The weights that the loop leaves have moved on by one round, with nothing selected yet.
pub scan-Tracks :
    (t m : ℕ) (vs : List ModelCandidate) (ws : List ℤ) (cs : List ℕ) (i : ℕ) (x : ℤ) (j : ℕ)
    → Positive vs
    → Tracks t m vs ws cs
    → Tracks t (suc m) vs (scan vs ws i x j).weights cs
unfolding scan
scan-Tracks t m [] [] [] i x j p h = tt
scan-Tracks t m (v ∷ vs) (w ∷ ws) (c ∷ cs) i x j p h =
    (omega (int_laws, h.0, p.0), scan-Tracks t m vs ws cs (suc i) _ _ p.1 h.1)
scan-Tracks t m [] [] (c ∷ cs) i x j p h = h
scan-Tracks t m [] (w ∷ ws) cs i x j p h = absurd h
scan-Tracks t m (v ∷ vs) [] cs i x j p h = absurd h
scan-Tracks t m (v ∷ vs) (w ∷ ws) [] i x j p h = absurd h

-- The loop only adds to the weights.
pub scan-AboveMinus :
    (t : ℕ) (vs : List ModelCandidate) (ws : List ℤ) (i : ℕ) (x : ℤ) (j : ℕ)
    → Positive vs
    → AboveMinus t ws
    → AboveMinus t (scan vs ws i x j).weights
unfolding scan
scan-AboveMinus t [] ws i x j p h = h
scan-AboveMinus t (v ∷ vs) [] i x j p h = h
scan-AboveMinus t (v ∷ vs) (w ∷ ws) i x j p h =
    (omega (int_laws, h.0, p.0), scan-AboveMinus t vs ws (suc i) _ _ p.1 h.1)

-- What is so of a loop's result: every weight is at most the maximum, and the maximum is the
-- weight at the selected index, unless no weight passed the maximum that the loop began with.
pub record IsMaximum (i : ℕ) (x : ℤ) (j : ℕ) (s : Scan) : Type 0 where
  pub above : x ≤ℤ s.max_weight
  pub all_below : All (λ w. w ≤ℤ s.max_weight) s.weights
  pub attained :
      ((s.max_weight ≡ x) × (s.selected_idx ≡ j))
      ⊎ ((k : ℕ) × (s.selected_idx ≡ i + k) × (get_elem? s.weights k ≡ some s.max_weight))

pub scan-IsMaximum :
    (vs : List ModelCandidate) (ws : List ℤ) (i : ℕ) (x : ℤ) (j : ℕ)
    → length ws ≡ length vs
    → IsMaximum i x j (scan vs ws i x j)
unfolding scan
scan-IsMaximum [] [] i x j e = record {
  above = omega arith;
  all_below = tt;
  attained = inl (refl, refl);
}
scan-IsMaximum [] (w ∷ ws) i x j e = absurd (omega arith)
scan-IsMaximum (v ∷ vs) [] i x j e = absurd (omega arith)
scan-IsMaximum (v ∷ vs) (w ∷ ws) i x j e = elim (Bool-cases (ltb_ℤ x (w +ℤ v.weight))) [
  | inl higher ↦
      let r = scan-IsMaximum vs ws (suc i) (w +ℤ v.weight) i (omega arith) in
      rw higher (record {
        above = ground (arith, r.above);
        all_below = (r.above, r.all_below);
        attained = inr (elim r.attained [
          | inl (top, here) ↦ (0, here ∙ omega arith, ap some (sym top))
          | inr (k, at, val) ↦ (suc k, at ∙ omega arith, val)
        ]);
      })
  | inr lower ↦
      let r = scan-IsMaximum vs ws (suc i) x j (omega arith) in
      rw lower (record {
        above = r.above;
        all_below = (ground (arith, r.above), r.all_below);
        attained = elim r.attained [
          | inl same ↦ inl same
          | inr (k, at, val) ↦ inr (suc k, at ∙ omega arith, val)
        ];
      })
]
