-- ===== src/Processor/Search.antt =====
-- The search of the first match by `indexOf`, and what a match says of the text.
use mathlib.Core.Option
use chat_rag.Common.{
  leb, if◌then◌else◌, Bool-cases, Option-cases, length, take, drop, length-append, drop-append,
  append_assoc, Text, text_eq, has_prefix, index, has_prefix-append, shift, shift-zero, ℕ, zero,
  suc, ◌+◌, ◌-◌, ◌≤◌, ◌<◌, ◌≡◌, refl, sym, ap, ◌∙◌, subst, inl, inr, Bool, true, false, Option,
  none, some, [], ◌∷◌, ◌++◌, arith,
}
use chat_rag.Processor.Filter.{index_from, index_of}

prefix-eq : (s p : Text) → text_eq (take (length p) s) p ≡ has_prefix s p
unfolding text_eq has_prefix
prefix-eq s [] = refl
prefix-eq [] (y ∷ p) = refl
prefix-eq (x ∷ s) (y ∷ p) = ground (arith, prefix-eq s p)

prefix-bound : (s p : Text) → has_prefix s p ≡ true → length p ≤ length s
unfolding has_prefix
prefix-bound s [] h = omega arith
prefix-bound [] (y ∷ p) h = cc
prefix-bound (x ∷ s) (y ∷ p) h = ground (arith, prefix-bound s p)

pub index-bound : (s p : Text) (i : ℕ) → index s p ≡ some i → i + length p ≤ length s
unfolding index
index-bound [] p i h = ground (arith, prefix-bound [] p)
index-bound (x ∷ s) p i h = elim (Option-cases (index s p)) [
  | inl nowhere ↦ ground (arith, prefix-bound (x ∷ s) p)
  | inr (j, at) ↦ let later = index-bound s p j at in ground (arith, prefix-bound (x ∷ s) p)
]

-- The first match stands no later than a given one.
pub index-occurs : (a p s : Text) → (i : ℕ) × (index (a ++ (p ++ s)) p ≡ some i) × (i ≤ length a)
unfolding index
index-occurs [] [] [] = (0, refl, omega arith)
index-occurs [] [] (x ∷ s) = (0, refl, omega arith)
index-occurs [] (y ∷ p) s = let here = has_prefix-append (y ∷ p) s in (0, rw here refl, omega arith)
index-occurs (x ∷ a) p s =
    let (i, at, le) = index-occurs a p s in
    elim (Bool-cases (has_prefix (x ∷ (a ++ (p ++ s))) p)) [
      | inl here ↦ (0, rw here refl, omega arith)
      | inr later ↦ (suc i, rw (later, at) refl, omega (arith, le))
    ]

pub drop-prefix : (i : ℕ) (a s : Text) → i ≤ length a → drop i (a ++ s) ≡ drop i a ++ s
drop-prefix zero a s h = refl
drop-prefix (suc i) [] s h = absurd (omega (arith, h))
drop-prefix (suc i) (x ∷ a) s h = drop-prefix i a s (omega (arith, h))

pub too_long : (s p : Text) → length s < length p → index s p ≡ none
too_long s p h = elim (Option-cases (index s p)) [
  | inl nowhere ↦ nowhere
  | inr (i, at) ↦ absurd (omega (arith, h, index-bound s p i at))
]

index_from-at :
    (r : ℕ) (a s p : Text)
    → index_from (suc r) (length a) (a ++ s) p
      ≡ (if has_prefix s p then some (length a) else index_from r (suc (length a)) (a ++ s) p)
unfolding index_from
index_from-at r a s p = rw (drop-append a s, prefix-eq s p) refl

no_rounds : (i n : ℕ) (s p : Text) → n ≡ 0 → index_from n i s p ≡ none
unfolding index_from
no_rounds i n s p h = ap (λ n. index_from n i s p) h

shift_test :
    (b : Bool) (k : ℕ) (o : Option ℕ)
    → (if b then some k else shift (suc k) o) ≡ shift k (if b then some 0 else Option.map suc o)
shift_test true k o = ap some (omega arith)
shift_test false k none = refl
shift_test false k (some n) = ap some (omega arith)

move :
    (a : Text) (x : ℕ) (s p : Text)
    → index_from (suc (length s) - length p) (length (a ++ (x ∷ []))) ((a ++ (x ∷ [])) ++ s) p
      ≡ shift (length (a ++ (x ∷ []))) (index s p)
    → index_from (suc (length s) - length p) (suc (length a)) (a ++ (x ∷ s)) p
      ≡ shift (suc (length a)) (index s p)
move a x s p h =
    let count : length (a ++ (x ∷ [])) ≡ suc (length a) = length-append a (x ∷ []) ∙ omega arith in
    subst
      (λ t.
        index_from (suc (length s) - length p) (suc (length a)) t p
        ≡ shift (suc (length a)) (index s p))
      (append_assoc a (x ∷ []) s)
      (subst
        (λ n.
          index_from (suc (length s) - length p) n ((a ++ (x ∷ [])) ++ s) p ≡ shift n (index s p))
        count h)

index_from-index :
    (a s p : Text)
    → index_from (suc (length s) - length p) (length a) (a ++ s) p ≡ shift (length a) (index s p)
unfolding index_from index has_prefix text_eq
index_from-index a [] [] = index_from-at 0 a [] [] ∙ ap some (omega arith)
index_from-index a [] (y ∷ p) =
    no_rounds (length a) (1 - suc (length p)) (a ++ []) (y ∷ p) (omega arith)
index_from-index a (x ∷ s) p = elim (Bool-cases (leb (length p) (suc (length s)))) [
  | inl fits ↦
      let rounds : suc (suc (length s)) - length p ≡ suc (suc (length s) - length p) =
        ground arith in
      ap (λ r. index_from r (length a) (a ++ (x ∷ s)) p) rounds
      ∙ index_from-at (suc (length s) - length p) a (x ∷ s) p
      ∙ ap (λ o. if has_prefix (x ∷ s) p then some (length a) else o)
          (move a x s p (index_from-index (a ++ (x ∷ [])) s p))
      ∙ shift_test (has_prefix (x ∷ s) p) (length a) (index s p)
  | inr long ↦
      let none_there = too_long (x ∷ s) p (ground arith) in
      no_rounds (length a) (suc (suc (length s)) - length p) (a ++ (x ∷ s)) p (ground arith)
      ∙ sym (ap (shift (length a)) none_there)
]

-- The tests of the source's loop are those of `strings.Index`.
pub index_of-index : (s p : Text) → index_of s p ≡ index s p
unfolding index_of
index_of-index s p = index_from-index [] s p ∙ shift-zero (index s p)

pub prefix-append : (s p : Text) → has_prefix s p ≡ true → p ++ drop (length p) s ≡ s
unfolding has_prefix
prefix-append s [] h = refl
prefix-append [] (y ∷ p) h = cc
prefix-append (x ∷ s) (y ∷ p) h =
    let same : y ≡ x = ground arith in
    ap (λ r. y ∷ r) (prefix-append s p (ground arith)) ∙ ap (λ z. z ∷ s) same

drop-nil : (n : ℕ) → drop {A = ℕ} n [] ≡ []
drop-nil zero = refl
drop-nil (suc n) = refl

pub prefix-index : (s p : Text) (i : ℕ) → index s p ≡ some i → has_prefix (drop i s) p ≡ true
unfolding index
prefix-index [] p i h =
    let here : has_prefix [] p ≡ true = ground arith in
    subst (λ t. has_prefix t p ≡ true) (sym (drop-nil i)) here
prefix-index (x ∷ s) p zero h = elim (Option-cases (index s p)) [
  | inl nowhere ↦ ground arith
  | inr (j, at) ↦ ground arith
]
prefix-index (x ∷ s) p (suc i) h = elim (Option-cases (index s p)) [
  | inl nowhere ↦ ground arith
  | inr (j, at) ↦ let same : index s p ≡ some i = ground arith in prefix-index s p i same
]

pub drop-drop : (a b : ℕ) (s : Text) → drop a (drop b s) ≡ drop (b + a) s
drop-drop a zero s = let same : a ≡ 0 + a = omega arith in ap (λ n. drop n s) same
drop-drop a (suc b) [] = drop-nil a ∙ sym (drop-nil (suc b + a))
drop-drop a (suc b) (x ∷ s) =
    let same : suc (b + a) ≡ suc b + a = omega arith in
    drop-drop a b s ∙ ap (λ n. drop n (x ∷ s)) same
