-- ===== src/Router/Priority/Group/Turns.antt =====
-- Balanced weights at the start of a turn and at its end.
use chat_rag.Common.{
  if◌then◌else◌, Bool-cases, length, replicate, ℤ, pos_part, pos, Text, text_eq, ℕ, zero, suc, ◌+◌,
  ◌*◌, ◌≤◌, ◌<◌, ◌≡◌, refl, inl, inr, List, [], ◌∷◌, arith,
}
use chat_rag.Router.Priority.Group.{ModelCandidate, start_weights, name_at}
use chat_rag.Router.Priority.Group.Balance.{Positive, sum, total, inc_at, Tracks, AboveMinus}
use chat_rag.Router.Priority.Group.Step.{IsBalanced}

abbrev pub times : Text → List Text → ℕ
times name [] = 0
times name (x ∷ xs) = let n = times name xs in if text_eq x name then suc n else n

-- The weights of the models of a name, added up.
abbrev pub weight_of : Text → List ModelCandidate → ℕ
weight_of name [] = 0
weight_of name (v ∷ vs) =
    let n = weight_of name vs in if text_eq v.model_name name then pos_part v.weight + n else n

-- How many of the selections counted in `cs` fell on a name.
abbrev pub times_in : Text → List ModelCandidate → List ℕ → ℕ
times_in name [] cs = 0
times_in name (v ∷ vs) [] = 0
times_in name (v ∷ vs) (c ∷ cs) =
    let n = times_in name vs cs in if text_eq v.model_name name then c + n else n

pub times_in-inc_at :
    (name : Text) (vs : List ModelCandidate) (cs : List ℕ) (k : ℕ)
    → length cs ≡ length vs
    → k < length vs
    → times_in name vs (inc_at k cs) ≡ times name (name_at vs k ∷ []) + times_in name vs cs
times_in-inc_at name [] cs k e h = elim h [ ]
times_in-inc_at name (v ∷ vs) [] k e h = absurd (omega arith)
times_in-inc_at name (v ∷ vs) (c ∷ cs) zero e h = ground arith
times_in-inc_at name (v ∷ vs) (c ∷ cs) (suc k) e h =
    ground (arith, times_in-inc_at name vs cs k (omega arith) (omega arith))

fresh-Tracks :
    (t : ℕ) (vs : List ModelCandidate)
    → Tracks t 0 vs (replicate (length vs) (pos 0)) (replicate (length vs) 0)
fresh-Tracks t [] = tt
fresh-Tracks t (v ∷ vs) = (omega arith, fresh-Tracks t vs)

fresh-AboveMinus : (t n : ℕ) → 0 < t → AboveMinus t (replicate n (pos 0))
fresh-AboveMinus t zero h = tt
fresh-AboveMinus t (suc n) h = (h, fresh-AboveMinus t n h)

sum-zeros : (n : ℕ) → sum (replicate n 0) ≡ 0
sum-zeros zero = refl
sum-zeros (suc n) = omega (arith, sum-zeros n)

pub times_in-zeros :
    (name : Text) (vs : List ModelCandidate) → times_in name vs (replicate (length vs) 0) ≡ 0
times_in-zeros name [] = refl
times_in-zeros name (v ∷ vs) = ground (arith, times_in-zeros name vs)

start_weights_fresh :
    (v : ModelCandidate) (vs : List ModelCandidate) (ws : List ℤ)
    → ws ≡ []
    → start_weights (v ∷ vs) ws ≡ replicate (length (v ∷ vs)) (pos 0)
unfolding start_weights
start_weights_fresh v vs ws e = rw e (ground arith)

-- A group that has no weights for these models yet.
pub fresh-IsBalanced :
    (v : ModelCandidate) (vs : List ModelCandidate) (ws : List ℤ)
    → Positive (v ∷ vs)
    → ws ≡ []
    → IsBalanced (v ∷ vs) 0 (start_weights (v ∷ vs) ws) (replicate (length (v ∷ vs)) 0)
fresh-IsBalanced v vs ws p e = rw (start_weights_fresh v vs ws e) (record {
  tracks = fresh-Tracks (total (v ∷ vs)) (v ∷ vs);
  above = fresh-AboveMinus (total (v ∷ vs)) (length (v ∷ vs)) (omega (arith, p.0));
  rounds = sum-zeros (length (v ∷ vs));
})

-- After `k` times the total weight rounds, no model was selected more than `k` times its weight.
pub AtMost : ℕ → List ModelCandidate → List ℕ → Type 0
AtMost k [] [] = Unit
AtMost k (v ∷ vs) (c ∷ cs) = (c ≤ k * pos_part v.weight) × AtMost k vs cs
AtMost k _ _ = ⊥

cancel : (t c b : ℕ) → t * c < t * (b + 1) → c ≤ b
cancel t c b h = grind arith

pub Tracks-AtMost :
    (t k : ℕ) (vs : List ModelCandidate) (ws : List ℤ) (cs : List ℕ)
    → Tracks t (k * t) vs ws cs
    → AboveMinus t ws
    → AtMost k vs cs
unfolding AtMost
Tracks-AtMost t k [] [] [] h a = tt
Tracks-AtMost t k (v ∷ vs) (w ∷ ws) (c ∷ cs) h a = (
  cancel t c (k * pos_part v.weight) (omega (arith, h.0, a.0)),
  Tracks-AtMost t k vs ws cs h.1 a.1,
)
Tracks-AtMost t k [] [] (c ∷ cs) h a = h
Tracks-AtMost t k [] (w ∷ ws) cs h a = absurd h
Tracks-AtMost t k (v ∷ vs) [] cs h a = absurd h
Tracks-AtMost t k (v ∷ vs) (w ∷ ws) [] h a = absurd h

AtMost-sum :
    (k : ℕ) (vs : List ModelCandidate) (cs : List ℕ) → AtMost k vs cs → sum cs ≤ k * total vs
unfolding AtMost
AtMost-sum k [] [] h = omega arith
AtMost-sum k (v ∷ vs) (c ∷ cs) h = omega (arith, AtMost-sum k vs cs h.1, h.0)
AtMost-sum k [] (c ∷ cs) h = absurd h
AtMost-sum k (v ∷ vs) [] h = omega arith

-- Where the selections also add up to `k` times the total, each model was selected exactly so often.
pub AtMost-exact :
    (name : Text) (k : ℕ) (vs : List ModelCandidate) (cs : List ℕ)
    → AtMost k vs cs
    → k * total vs ≤ sum cs
    → times_in name vs cs ≡ k * weight_of name vs
unfolding AtMost
AtMost-exact name k [] [] h e = omega arith
AtMost-exact name k (v ∷ vs) (c ∷ cs) h e =
    let rest = AtMost-exact name k vs cs h.1 (omega (arith, AtMost-sum k vs cs h.1, h.0, e)) in
    let here : c ≡ k * pos_part v.weight = omega (arith, AtMost-sum k vs cs h.1, h.0, e) in
    elim (Bool-cases (text_eq v.model_name name)) [
      | inl yes' ↦ rw yes' (omega (arith, rest, here))
      | inr no' ↦ rw no' rest
    ]
AtMost-exact name k [] (c ∷ cs) h e = absurd h
AtMost-exact name k (v ∷ vs) [] h e = absurd h
