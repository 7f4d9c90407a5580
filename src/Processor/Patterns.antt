-- ===== src/Processor/Patterns.antt =====
-- What the loop that removes the patterns of the tools that ran leaves and cuts.
use chat_rag.Common.{
  Option-cases, length, take, drop, length-append, append_assoc, take-drop, Text, has_prefix, index,
  ℕ, zero, suc, ◌+◌, ◌-◌, ◌≤◌, ◌<◌, ◌≡◌, sym, ap, ◌∙◌, subst, ◌≢◌, inl, inr, true, none, some, [],
  ◌∷◌, ◌++◌, arith,
}
use chat_rag.Processor.Filter.{remove_pairs, tool_search_start, tool_search_end}
use chat_rag.Processor.Search.{
  index-bound, index-occurs, drop-prefix, too_long, index_of-index, prefix-append, prefix-index,
  drop-drop,
}

-- No start pattern of the text has an end pattern after it.
abbrev pub IsUnpaired : Text → Text → Text → Type 0
IsUnpaired p q r = (a b c : Text) → r ≢ a ++ (p ++ (b ++ (q ++ c)))

without_start : (p q r : Text) → index r p ≡ none → IsUnpaired p q r
without_start p q r h a b c e =
    let (i, at, _) = index-occurs a p (b ++ (q ++ c)) in
    let at_r : index r p ≡ some i = subst (λ t. index t p ≡ some i) (sym e) at in cc

without_end :
    (p q r : Text) (i : ℕ) → index r p ≡ some i → index (drop i r) q ≡ none → IsUnpaired p q r
without_end p q r i h n a b c e =
    let (j, at, le) = index-occurs a p (b ++ (q ++ c)) in
    let at_r : index r p ≡ some j = subst (λ t. index t p ≡ some j) (sym e) at in
    let same : i ≡ j = ground (arith, h, at_r) in
    let rest : drop i r ≡ drop i a ++ (p ++ (b ++ (q ++ c))) =
      ap (drop i) e ∙ drop-prefix i a (p ++ (b ++ (q ++ c))) (omega (arith, same, le)) in
    let whole : drop i r ≡ (drop i a ++ (p ++ b)) ++ (q ++ c) =
      rest
      ∙ ap (λ t. drop i a ++ t) (sym (append_assoc p b (q ++ c)))
      ∙ sym (append_assoc (drop i a) (p ++ b) (q ++ c)) in
    let (k, found, _) = index-occurs (drop i a ++ (p ++ b)) q c in
    let found_r : index (drop i r) q ≡ some k = subst (λ t. index t q ≡ some k) (sym whole) found in
    cc

length-take_le : (n : ℕ) (s : Text) → length (take n s) ≤ n
length-take_le zero s = omega arith
length-take_le (suc n) [] = omega arith
length-take_le (suc n) (x ∷ s) = omega (arith, length-take_le n s)

length-drop : (n : ℕ) (s : Text) → length (drop n s) ≡ length s - n
length-drop zero s = omega arith
length-drop (suc n) [] = omega arith
length-drop (suc n) (x ∷ s) = length-drop n s ∙ omega arith

-- A round that finds both patterns makes the text shorter.
cut_shorter :
    (r : Text) (s n : ℕ) → s < length r → 1 ≤ n → length (take s r ++ drop (n + s) r) < length r
cut_shorter r s n h k = omega (
  arith,
  h,
  k,
  length-append (take s r) (drop (n + s) r),
  length-take_le s r,
  length-drop (n + s) r,
)

cut_found :
    (r p q : Text) (s e : ℕ)
    → 1 ≤ length p
    → 1 ≤ length q
    → index r p ≡ some s
    → length (take s r ++ drop (e + s + length q) r) < length r
cut_found r p q s e hp hq at =
    let same : e + length q + s ≡ e + s + length q = omega arith in
    let room : s < length r = omega (arith, hp, index-bound r p s at) in
    subst (λ n. length (take s r ++ drop n r) < length r) same
      (cut_shorter r s (e + length q) room (omega (arith, hq)))

remove_pairs-IsUnpaired_fuel :
    (fuel : ℕ) (p q r : Text)
    → 1 ≤ length p
    → 1 ≤ length q
    → length r ≤ fuel
    → IsUnpaired p q (remove_pairs fuel p q r)
unfolding remove_pairs
remove_pairs-IsUnpaired_fuel zero p q r hp hq enough =
    without_start p q r (too_long r p (omega (arith, hp, enough)))
remove_pairs-IsUnpaired_fuel (suc fuel) p q r hp hq enough = elim (Option-cases (index r p)) [
  | inl nowhere ↦
      let test = index_of-index r p ∙ nowhere in
      rw (remove_pairs, test) (without_start p q r nowhere)
  | inr (s, at) ↦
      let test = index_of-index r p ∙ at in
      elim (Option-cases (index (drop s r) q)) [
        | inl nowhere ↦
            let open_test = index_of-index (drop s r) q ∙ nowhere in
            rw (remove_pairs, test, open_test) (without_end p q r s at nowhere)
        | inr (e, ends) ↦
            let end_test = index_of-index (drop s r) q ∙ ends in
            let shorter = cut_found r p q s e hp hq at in
            rw (remove_pairs, test, end_test)
              (remove_pairs-IsUnpaired_fuel fuel p q (take s r ++ drop (e + s + length q) r) hp hq
                (omega (arith, shorter, enough)))
      ]
]

-- A text and what is left of it when stretches are cut out one after the other, each from the first
-- byte of a start pattern to the last byte of an end pattern.
pub data Cut (p q : Text) : Text → Text → Type 0 where
  kept : (r : Text) → Cut p q r r
  cut :
      (a b c r : Text)
      → has_prefix (b ++ (q ++ c)) p ≡ true
      → Cut p q (a ++ c) r
      → Cut p q (a ++ (b ++ (q ++ c))) r

parts_of :
    (r q : Text) (s e : ℕ)
    → index (drop s r) q ≡ some e
    → take e (drop s r) ++ (q ++ drop (e + s + length q) r) ≡ drop s r
parts_of r q s e ends =
    let d = drop s r in
    let place : s + (e + length q) ≡ e + s + length q = omega arith in
    let rest : drop (length q) (drop e d) ≡ drop (e + s + length q) r =
      drop-drop (length q) e d ∙ drop-drop (e + length q) s r ∙ ap (λ n. drop n r) place in
    ap (λ t. take e d ++ (q ++ t)) (sym rest)
    ∙ ap (λ t. take e d ++ t) (prefix-append (drop e d) q (prefix-index d q e ends))
    ∙ take-drop e d

cut_at :
    (p q r t : Text) (s e : ℕ)
    → index r p ≡ some s
    → index (drop s r) q ≡ some e
    → Cut p q (take s r ++ drop (e + s + length q) r) t
    → Cut p q r t
cut_at p q r t s e at ends c =
    let stretch = parts_of r q s e ends in
    let starts = subst (λ d. has_prefix d p ≡ true) (sym stretch) (prefix-index r p s at) in
    subst (λ x. Cut p q x t) (ap (λ d. take s r ++ d) stretch ∙ take-drop s r)
      (cut (take s r) (take e (drop s r)) (drop (e + s + length q) r) t starts c)

remove_pairs-Cut : (fuel : ℕ) (p q r : Text) → Cut p q r (remove_pairs fuel p q r)
unfolding remove_pairs
remove_pairs-Cut zero p q r = kept r
remove_pairs-Cut (suc fuel) p q r = elim (Option-cases (index r p)) [
  | inl nowhere ↦ let test = index_of-index r p ∙ nowhere in rw (remove_pairs, test) (kept r)
  | inr (s, at) ↦
      let test = index_of-index r p ∙ at in
      elim (Option-cases (index (drop s r) q)) [
        | inl nowhere ↦
            let open_test = index_of-index (drop s r) q ∙ nowhere in
            rw (remove_pairs, test, open_test) (kept r)
        | inr (e, ends) ↦
            let end_test = index_of-index (drop s r) q ∙ ends in
            rw (remove_pairs, test, end_test)
              (cut_at p q r (remove_pairs fuel p q (take s r ++ drop (e + s + length q) r)) s e at
                ends (remove_pairs-Cut fuel p q (take s r ++ drop (e + s + length q) r)))
      ]
]

-- With as many rounds as the content has bytes, the loop of `removeToolExecutionPatterns` cuts only
-- stretches from a start pattern to an end pattern, and it ends with a text in which no start
-- pattern has an end pattern after it.
pub remove_pairs-IsUnpaired :
    (content : Text)
    → Cut tool_search_start tool_search_end content
        (remove_pairs (length content) tool_search_start tool_search_end content)
      × IsUnpaired tool_search_start tool_search_end
          (remove_pairs (length content) tool_search_start tool_search_end content)
remove_pairs-IsUnpaired content = (
  remove_pairs-Cut (length content) tool_search_start tool_search_end content,
  remove_pairs-IsUnpaired_fuel (length content) tool_search_start tool_search_end content
      (omega arith) (omega arith) (omega arith),
)
