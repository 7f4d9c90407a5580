-- ===== src/Chat/Degradation/Unique.antt =====
-- The list of models that degradation goes through.
use chat_rag.Common.{
  Bool-cases, is_empty, any, Text, text_eq, text_eq_refl, text_eq→eq, ◌≡◌, ◌∙◌, subst, inl, inr,
  Bool, false, not, ◌&&◌, List, [], ◌∷◌, arith,
}
use chat_rag.Chat.Degradation.{unique_models}

abbrev pub names : Text → List Text → Bool
names x = any (text_eq x)

abbrev pub IsDistinct : List Text → Type 0
IsDistinct [] = Unit
IsDistinct (m ∷ ms) = (names m ms ≡ false) × IsDistinct ms

names-unique_models :
    (x : Text) (seen ms : List Text)
    → names x (unique_models seen ms) ≡ (not (is_empty x) && not (names x seen)) && names x ms
unfolding unique_models
names-unique_models x seen [] = ground arith
names-unique_models x seen (m ∷ ms) = elim (Bool-cases (text_eq x m)) [
  | inl same ↦
      subst
        (λ y.
          names x (unique_models seen (y ∷ ms))
          ≡ (not (is_empty x) && not (names x seen)) && names x (y ∷ ms))
        (text_eq→eq x m same)
        (ground (
          arith,
          names-unique_models x seen ms,
          names-unique_models x (x ∷ seen) ms,
          text_eq_refl x,
        ))
  | inr differs ↦ ground (arith, names-unique_models x seen ms, names-unique_models x (m ∷ seen) ms)
]

unique_models-IsDistinct : (seen ms : List Text) → IsDistinct (unique_models seen ms)
unfolding unique_models
unique_models-IsDistinct seen [] = tt
unique_models-IsDistinct seen (m ∷ ms) = elim (Bool-cases (is_empty m)) [
  | inl blank ↦ rw blank (unique_models-IsDistinct seen ms)
  | inr named ↦ rw named (elim (Bool-cases (names m seen)) [
    | inl old ↦ rw old (unique_models-IsDistinct seen ms)
    | inr new ↦ rw new (
      ground (arith, names-unique_models m (m ∷ seen) ms, text_eq_refl m),
      unique_models-IsDistinct (m ∷ seen) ms,
    )
  ])
]

-- The models that degradation goes through are distinct, and they are those of the list whose name
-- is not empty.
pub unique_models_lem :
    (ms : List Text)
    → IsDistinct (unique_models [] ms)
      × ((x : Text) → names x (unique_models [] ms) ≡ not (is_empty x) && names x ms)
unique_models_lem ms =
    (unique_models-IsDistinct [] ms, λ x. names-unique_models x [] ms ∙ ground arith)
