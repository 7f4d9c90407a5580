-- ===== src/Common/Order.antt =====
-- `sort.SliceStable` and `sort.Ints` of Go's standard library, as an insertion sort by a test `less`.
use mathlib.Core.Path.{◌≡◌, refl}
use mathlib.Core.Logic.{inl, inr}
use mathlib.Core.Bool.{Bool, true, false}
use mathlib.Core.List.{List, [], ◌∷◌, Perm}
use mathlib.Core.List.Perm
use native.Mathlib.Omega.{arith}
use chat_rag.Common.Tests.{if◌then◌else◌, Bool-cases}
use chat_rag.Common.Lists.{All, All-mono, any, keep}

module _ {ℓ} {A : Type ℓ} (less : A → A → Bool) where
  unfoldable pub insert : A → List A → List A
  insert x [] = x ∷ []
  insert x (y ∷ ys) = if less y x then y ∷ insert x ys else x ∷ y ∷ ys

  unfoldable pub sort : List A → List A
  unfolding insert
  sort [] = []
  sort (x ∷ xs) = insert x (sort xs)

  -- No element is less than one that stands before it.
  abbrev pub IsSorted : List A → Type 0
  IsSorted [] = Unit
  IsSorted (x ∷ xs) = All (λ y. less y x ≡ false) xs × IsSorted xs

module _ {ℓ} {A : Type ℓ} (less : A → A → Bool) where
  pub All-insert {κ} :
      (P : A → Type κ) (x : A) (ys : List A) → P x → All P ys → All P (insert less x ys)
  unfolding insert
  All-insert P x [] px py = (px, tt)
  All-insert P x (y ∷ ys) px py = elim (Bool-cases (less y x)) [
    | inl e ↦ rw e (py.0, All-insert P x ys px py.1)
    | inr e ↦ rw e (px, py)
  ]

  pub All-sort {κ} : (P : A → Type κ) (xs : List A) → All P xs → All P (sort less xs)
  unfolding sort
  All-sort P [] h = h
  All-sort P (x ∷ xs) h = All-insert P x (sort less xs) h.0 (All-sort P xs h.1)

  insert-perm : (x : A) (ys : List A) → Perm (insert less x ys) (x ∷ ys)
  unfolding insert
  insert-perm x [] = Perm.refl (x ∷ [])
  insert-perm x (y ∷ ys) = elim (Bool-cases (less y x)) [
    | inl e ↦ rw e (Perm.trans (Perm.cons y (insert-perm x ys)) (Perm.swap x y ys))
    | inr e ↦ rw e (Perm.refl (x ∷ y ∷ ys))
  ]

  pub sort-perm : (xs : List A) → Perm (sort less xs) xs
  unfolding sort
  sort-perm [] = Perm.refl []
  sort-perm (x ∷ xs) = Perm.trans (insert-perm x (sort less xs)) (Perm.cons x (sort-perm xs))

  -- `less` is the strict part of a total preorder.
  pub record IsOrder : Type ℓ where
    pub asym : (a b : A) → less a b ≡ true → less b a ≡ false
    pub trans : (a b c : A) → less b a ≡ false → less c b ≡ false → less c a ≡ false

  insert-IsSorted :
      IsOrder → (x : A) (ys : List A) → IsSorted less ys → IsSorted less (insert less x ys)
  unfolding insert
  insert-IsSorted o x [] h = (tt, tt)
  insert-IsSorted o x (y ∷ ys) h = elim (Bool-cases (less y x)) [
    | inl e ↦
        rw e
          (All-insert (λ z. less z y ≡ false) x ys (o.asym y x e) h.0, insert-IsSorted o x ys h.1)
    | inr e ↦ rw e (
      (
        e,
        All-mono (λ z. less z y ≡ false) (λ z. less z x ≡ false) ys (λ z hz. o.trans x y z e hz)
            h.0,
      ),
      h,
    )
  ]

  pub sort-IsSorted : IsOrder → (xs : List A) → IsSorted less (sort less xs)
  unfolding sort
  sort-IsSorted o [] = tt
  sort-IsSorted o (x ∷ xs) = insert-IsSorted o x (sort less xs) (sort-IsSorted o xs)

  keep-insert :
      (p : A → Bool) (x : A) (ys : List A)
      → ((a b : A) → p a ≡ true → p b ≡ true → less b a ≡ false)
      → keep p (insert less x ys) ≡ keep p (x ∷ ys)
  unfolding insert
  keep-insert p x [] h = refl
  keep-insert p x (y ∷ ys) h = ground (arith, h x y, keep-insert p x ys h)

  -- Elements none of which is less than another keep their order.
  pub keep-sort :
      (p : A → Bool) (xs : List A)
      → ((a b : A) → p a ≡ true → p b ≡ true → less b a ≡ false)
      → keep p (sort less xs) ≡ keep p xs
  unfolding sort
  keep-sort p [] h = refl
  keep-sort p (x ∷ xs) h = ground (arith, keep-insert p x (sort less xs) h, keep-sort p xs h)

  keep-insert-perm :
      (p : A → Bool) (x : A) (ys : List A) → Perm (keep p (insert less x ys)) (keep p (x ∷ ys))
  unfolding insert
  keep-insert-perm p x [] = Perm.refl (keep p (x ∷ []))
  keep-insert-perm p x (y ∷ ys) = elim (Bool-cases (less y x)) [
    | inr e ↦ rw e (Perm.refl (keep p (x ∷ y ∷ ys)))
    | inl e ↦ rw e (elim (Bool-cases (p y)) [
      | inr f ↦ rw f (keep-insert-perm p x ys)
      | inl f ↦
          rw f (Perm.trans (Perm.cons y (keep-insert-perm p x ys)) (swap_head p x y (keep p ys)))
    ])
  ]
    where
      swap_head :
          (p : A → Bool) (x y : A) (zs : List A)
          → Perm (y ∷ (if p x then x ∷ zs else zs)) (if p x then x ∷ y ∷ zs else y ∷ zs)
      swap_head p x y zs = elim (Bool-cases (p x)) [
        | inl g ↦ rw g (Perm.swap x y zs)
        | inr g ↦ rw g (Perm.refl (y ∷ zs))
      ]

  -- What passes a test is the same before and after sorting, up to order.
  pub keep-sort-perm : (p : A → Bool) (xs : List A) → Perm (keep p (sort less xs)) (keep p xs)
  unfolding sort
  keep-sort-perm p [] = Perm.refl []
  keep-sort-perm p (x ∷ xs) =
      Perm.trans (keep-insert-perm p x (sort less xs)) (keep_cons (p x) x (keep-sort-perm p xs))
    where
      keep_cons :
          (b : Bool) (x : A) {ys zs : List A}
          → Perm ys zs
          → Perm (if b then x ∷ ys else ys) (if b then x ∷ zs else zs)
      keep_cons true x h = Perm.cons x h
      keep_cons false x h = h

  insert-All {κ} :
      (P : A → Type κ) (x : A) (ys : List A) → All P (insert less x ys) → P x × All P ys
  unfolding insert
  insert-All P x [] h = h
  insert-All P x (y ∷ ys) h = elim (Bool-cases (less y x)) [
    | inr e ↦ rw e at h
    | inl e ↦
        let h' : All P (y ∷ insert less x ys) = rw e at h in
        let (px, rest) = insert-All P x ys h'.1 in (px, (h'.0, rest))
  ]

  -- Sorting loses no element.
  pub sort-All {κ} : (P : A → Type κ) (xs : List A) → All P (sort less xs) → All P xs
  unfolding sort
  sort-All P [] h = h
  sort-All P (x ∷ xs) h =
      let (px, rest) = insert-All P x (sort less xs) h in (px, sort-All P xs rest)

  any-insert : (p : A → Bool) (x : A) (ys : List A) → any p (insert less x ys) ≡ any p (x ∷ ys)
  unfolding insert
  any-insert p x [] = refl
  any-insert p x (y ∷ ys) = ground (arith, any-insert p x ys)

  pub any-sort : (p : A → Bool) (xs : List A) → any p (sort less xs) ≡ any p xs
  unfolding sort
  any-sort p [] = refl
  any-sort p (x ∷ xs) = ground (arith, any-insert p x (sort less xs), any-sort p xs)
