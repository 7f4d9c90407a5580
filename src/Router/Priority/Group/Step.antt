-- ===== src/Router/Priority/Group/Step.antt =====
-- A whole selection, `selectVisibleModelByRoundRobin`, and the balance of the weights.
use chat_rag.Common.{
  get_elem?-lt, length-replicate, length, get_elem?, All, ℤ, pos_part, neg_part, ◌-ℤ◌, ◌≤ℤ◌,
  parts_cases, int_laws, pos, negsuc, ℕ, zero, suc, ◌+◌, ◌*◌, ◌<◌, ◌≡◌, refl, ap, ◌∙◌, inl, inr,
  some, List, [], ◌∷◌, arith,
}
use native.Mathlib.Decide.{dec_lt}
use chat_rag.Router.Priority.Group.{ModelCandidate, Scan, scan, subtract_at, start_weights, pick}
use chat_rag.Router.Priority.Group.Balance.{
  Positive, sum, sum_pos, sum_neg, total, inc_at, Tracks, AboveMinus, total_weight-eq-total,
  scan-Tracks, scan-AboveMinus, IsMaximum, scan-IsMaximum,
}

Tracks-sum :
    (t m : ℕ) (vs : List ModelCandidate) (ws : List ℤ) (cs : List ℕ)
    → Tracks t m vs ws cs
    → sum_pos ws + t * sum cs ≡ m * total vs + sum_neg ws
Tracks-sum t m [] [] [] h = omega arith
Tracks-sum t m (v ∷ vs) (w ∷ ws) (c ∷ cs) h = omega (arith, Tracks-sum t m vs ws cs h.1, h.0)
Tracks-sum t m [] [] (c ∷ cs) h = absurd h
Tracks-sum t m [] (w ∷ ws) cs h = absurd h
Tracks-sum t m (v ∷ vs) [] cs h = absurd h
Tracks-sum t m (v ∷ vs) (w ∷ ws) [] h = absurd h

pub Tracks-length :
    (t m : ℕ) (vs : List ModelCandidate) (ws : List ℤ) (cs : List ℕ)
    → Tracks t m vs ws cs
    → (length ws ≡ length vs) × (length cs ≡ length vs)
Tracks-length t m [] [] [] h = (refl, refl)
Tracks-length t m (v ∷ vs) (w ∷ ws) (c ∷ cs) h =
    let (a, b) = Tracks-length t m vs ws cs h.1 in (ap suc a, ap suc b)
Tracks-length t m [] [] (c ∷ cs) h = absurd h
Tracks-length t m [] (w ∷ ws) cs h = absurd h
Tracks-length t m (v ∷ vs) [] cs h = absurd h
Tracks-length t m (v ∷ vs) (w ∷ ws) [] h = absurd h

sum_pos-eq-zero : (x : ℤ) (ws : List ℤ) → pos_part x ≡ 0 → All (λ w. w ≤ℤ x) ws → sum_pos ws ≡ 0
sum_pos-eq-zero x [] e h = refl
sum_pos-eq-zero x (w ∷ ws) e h =
    omega (arith, sum_pos-eq-zero x ws e h.1, parts_cases w, parts_cases x, h.0)

subtract_at-Tracks :
    (t m k : ℕ) (w : ℤ) (vs : List ModelCandidate) (ws : List ℤ) (cs : List ℕ)
    → get_elem? ws k ≡ some w
    → Tracks t m vs ws cs
    → Tracks t m vs (subtract_at k (pos t) ws) (inc_at k cs)
unfolding subtract_at
subtract_at-Tracks t m zero u (v ∷ vs) (w ∷ ws) (c ∷ cs) g h = (omega (int_laws, h.0), h.1)
subtract_at-Tracks t m (suc k) u (v ∷ vs) (w ∷ ws) (c ∷ cs) g h =
    (h.0, subtract_at-Tracks t m k u vs ws cs g h.1)
subtract_at-Tracks t m k u [] [] cs g h = cc
subtract_at-Tracks t m k u [] (w ∷ ws) cs g h = absurd h
subtract_at-Tracks t m k u (v ∷ vs) [] cs g h = absurd h
subtract_at-Tracks t m k u (v ∷ vs) (w ∷ ws) [] g h = absurd h

take_total : (w : ℤ) (t : ℕ) → 0 < pos_part w → neg_part w < t → neg_part (w -ℤ pos t) < t
unfolding ◌-ℤ◌
take_total w t p h = ground arith

subtract_at-AboveMinus :
    (t k : ℕ) (w : ℤ) (ws : List ℤ)
    → get_elem? ws k ≡ some w
    → 0 < pos_part w
    → AboveMinus t ws
    → AboveMinus t (subtract_at k (pos t) ws)
unfolding subtract_at
subtract_at-AboveMinus t k u [] g p h = h
subtract_at-AboveMinus t zero u (w ∷ ws) g p h = (take_total w t p' h.0, h.1)
  where
    p' : 0 < pos_part w
    p' = ground (arith, p)
subtract_at-AboveMinus t (suc k) u (w ∷ ws) g p h = (h.0, subtract_at-AboveMinus t k u ws g p h.1)

sum-inc_at : (k : ℕ) (cs : List ℕ) → k < length cs → sum (inc_at k cs) ≡ suc (sum cs)
sum-inc_at k [] h = elim h [ ]
sum-inc_at zero (c ∷ cs) h = omega arith
sum-inc_at (suc k) (c ∷ cs) h = omega (arith, sum-inc_at k cs (omega arith))

-- The state after `m` rounds in which the models were selected `cs` times each.
pub record IsBalanced (vs : List ModelCandidate) (m : ℕ) (ws : List ℤ) (cs : List ℕ) : Type 0 where
  pub tracks : Tracks (total vs) m vs ws cs
  pub above : AboveMinus (total vs) ws
  pub rounds : sum cs ≡ m

pub start_weights_same :
    (vs : List ModelCandidate) (ws : List ℤ) → length ws ≡ length vs → start_weights vs ws ≡ ws
unfolding start_weights
start_weights_same vs ws e = ground arith

-- Where some weight is positive, the selected index is that of a maximal, positive weight.
pub IsMaximum-attained :
    (s : Scan)
    → IsMaximum 0 (negsuc 0) 0 s
    → 0 < sum_pos s.weights
    → (get_elem? s.weights s.selected_idx ≡ some s.max_weight) × (0 < pos_part s.max_weight)
IsMaximum-attained s top some_pos =
    let up : 0 < pos_part s.max_weight = elim (dec_lt 0 (pos_part s.max_weight)) [
      | yes h ↦ h
      | no h ↦
          absurd (omega (arith, sum_pos-eq-zero s.max_weight s.weights (omega arith) top.all_below))
    ] in
    (
      elim top.attained [
        | inl (same, _) ↦ absurd (omega (arith, ap pos_part same))
        | inr (k, at, val) ↦ let idx : s.selected_idx ≡ k = omega (arith, at) in rw idx val
      ],
      up,
    )

module _ (vs : List ModelCandidate) (p : Positive vs) (busy : 0 < total vs) where
  pub pick-IsBalanced :
      (m : ℕ) (stored : List ℤ) (cs : List ℕ)
      → IsBalanced vs m (start_weights vs stored) cs
      → IsBalanced vs (suc m) (pick vs stored).1 (inc_at (pick vs stored).0 cs)
        × ((pick vs stored).0 < length vs)
  unfolding pick
  pick-IsBalanced m stored cs b =
      let ws = start_weights vs stored in
      let s = scan vs ws 0 (negsuc 0) 0 in
      let lengths = Tracks-length (total vs) m vs ws cs b.tracks in
      let moved = scan-Tracks (total vs) m vs ws cs 0 (negsuc 0) 0 p b.tracks in
      let top = scan-IsMaximum vs ws 0 (negsuc 0) 0 lengths.0 in
      let sums = Tracks-sum (total vs) (suc m) vs s.weights cs moved in
      let (found, up) =
        IsMaximum-attained s top (omega (arith, sums, ap (λ (n : ℕ). total vs * n) b.rounds)) in
      let inside = get_elem?-lt s.weights s.selected_idx found in
      let after = Tracks-length (total vs) (suc m) vs s.weights cs moved in
      (
        rw (total_weight-eq-total vs p) (record {
          tracks =
              subtract_at-Tracks (total vs) (suc m) s.selected_idx s.max_weight vs s.weights cs
                found moved;
          above =
              subtract_at-AboveMinus (total vs) s.selected_idx s.max_weight s.weights found up
                (scan-AboveMinus (total vs) vs ws 0 (negsuc 0) 0 p b.above);
          rounds = sum-inc_at s.selected_idx cs (omega arith) ∙ ap suc b.rounds;
        }),
        omega arith,
      )

length-start_weights :
    (vs : List ModelCandidate) (st : List ℤ) → length (start_weights vs st) ≡ length vs
unfolding start_weights
length-start_weights vs st = ground (arith, length-replicate (length vs) (pos 0))

length-scan :
    (vs : List ModelCandidate) (ws : List ℤ) (i : ℕ) (x : ℤ) (j : ℕ)
    → length (scan vs ws i x j).weights ≡ length ws
unfolding scan
length-scan [] ws i x j = refl
length-scan (v ∷ vs) [] i x j = refl
length-scan (v ∷ vs) (w ∷ ws) i x j = ap suc (length-scan vs ws (suc i) _ _)

-- Whatever is stored, the index that is selected is that of a visible model.
pub pick-lt-length :
    (v : ModelCandidate) (vs : List ModelCandidate) (st : List ℤ)
    → (pick (v ∷ vs) st).0 < length (v ∷ vs)
unfolding pick
pick-lt-length v vs st =
    let ws = start_weights (v ∷ vs) st in
    let s = scan (v ∷ vs) ws 0 (negsuc 0) 0 in
    let same = length-start_weights (v ∷ vs) st in
    elim (scan-IsMaximum (v ∷ vs) ws 0 (negsuc 0) 0 same).attained [
      | inl (_, at) ↦ omega (arith, at)
      | inr (k, at, val) ↦
          omega
            (arith, at, get_elem?-lt s.weights k val, length-scan (v ∷ vs) ws 0 (negsuc 0) 0, same)
    ]
