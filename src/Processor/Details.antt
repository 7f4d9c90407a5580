-- ===== src/Processor/Details.antt =====
-- What is kept of the environment details.
use chat_rag.Common.{
  ltb, if◌then◌else◌, Bool-cases, length, take, keep, text, ℕ, zero, suc, ◌+◌, ◌-◌, ◌≡◌, refl, sym,
  ap, ◌∙◌, inl, inr, Bool, true, false, not, List, [], ◌∷◌, ◌++◌, map, arith,
}
use chat_rag.Types.{Message, Json, Content, list, absent, string, parts, other}
use chat_rag.Processor.{PromptMsg}
use chat_rag.Processor.Filter.{
  is_environment, filter_items, filter_content, filter_message, filter_details, has_role,
  with_content, filter_environment_details,
}

abbrev items_of : Content → List Json
items_of (list items) = items
items_of _ = []

-- The items of a user's message whose content is a list; the filter does not look into other contents.
abbrev user_items : Message → List Json
user_items m = if has_role (text "user") m then items_of m.content else []

abbrev pub listed_environments : List Message → List Json
listed_environments [] = []
listed_environments (m ∷ ms) = keep is_environment (user_items m) ++ listed_environments ms

abbrev content_without : Content → Content
content_without (list items) = list (keep (λ x. not (is_environment x)) items)
content_without c = c

-- A message without environment details, where it is a user's.
abbrev pub without_details : Message → Message
without_details m =
    if has_role (text "user") m then with_content (content_without m.content) m else m

take-nil : {A : Type 0} (n : ℕ) → take {A = A} n [] ≡ []
take-nil zero = refl
take-nil (suc n) = refl

take-spent : {A : Type 0} (n : ℕ) (xs : List A) → n ≡ 0 → take n xs ≡ []
take-spent n xs h = ap (λ n. take n xs) h

take-append2 :
    {A : Type 0} (k : ℕ) (xs ys : List A) → take k (xs ++ ys) ≡ take k xs ++ take (k - length xs) ys
take-append2 k [] ys = let same : k - 0 ≡ k = omega arith in rw (same, take-nil k) refl
take-append2 zero (x ∷ xs) ys = sym (take-spent (0 - suc (length xs)) ys (omega arith))
take-append2 (suc k) (x ∷ xs) ys =
    let same : k - length xs ≡ suc k - suc (length xs) = omega arith in
    ap (λ r. x ∷ r) (take-append2 k xs ys ∙ ap (λ n. take k xs ++ take n ys) same)

count-filter_items :
    (n : ℕ) (xs : List Json) → (filter_items n xs).0 ≡ n + length (keep is_environment xs)
unfolding filter_items
count-filter_items n [] = omega arith
count-filter_items n (x ∷ xs) = elim (Bool-cases (is_environment x)) [
  | inl is_one ↦ rw is_one (count-filter_items (suc n) xs ∙ omega arith)
  | inr not_one ↦ rw not_one (count-filter_items n xs)
]

kept-filter_items :
    (n : ℕ) (xs : List Json)
    → keep is_environment (filter_items n xs).1 ≡ take (1 - n) (keep is_environment xs)
unfolding filter_items
kept-filter_items zero [] = refl
kept-filter_items (suc n) [] = sym (take-nil (1 - suc n))
kept-filter_items zero (x ∷ xs) = elim (Bool-cases (is_environment x)) [
  | inl is_one ↦ rw (is_one, is_one) (ap (λ r. x ∷ r) (kept-filter_items 1 xs))
  | inr not_one ↦ rw (not_one, not_one) (kept-filter_items 0 xs)
]
kept-filter_items (suc n) (x ∷ xs) =
    let late : ltb 1 (suc (suc n)) ≡ true = ground arith in
    elim (Bool-cases (is_environment x)) [
      | inl is_one ↦
          rw (is_one, late)
            (kept-filter_items (suc (suc n)) xs
              ∙ take-spent (1 - suc (suc n)) (keep is_environment xs) (omega arith)
              ∙ sym (take-spent (1 - suc n) (x ∷ keep is_environment xs) (omega arith)))
      | inr not_one ↦ rw (not_one, not_one) (kept-filter_items (suc n) xs)
    ]

by_test :
    (x : Json)
    → is_environment x ≡ true
    → (b : Bool) (r : List Json)
    → keep (λ x. not (is_environment x)) (if b then r else x ∷ r)
      ≡ keep (λ x. not (is_environment x)) r
by_test x h true r = refl
by_test x h false r = rw h refl

others-filter_items :
    (n : ℕ) (xs : List Json)
    → keep (λ x. not (is_environment x)) (filter_items n xs).1
      ≡ keep (λ x. not (is_environment x)) xs
unfolding filter_items
others-filter_items n [] = refl
others-filter_items n (x ∷ xs) = elim (Bool-cases (is_environment x)) [
  | inl is_one ↦ rw is_one (
      by_test x is_one (ltb 1 (suc n)) (filter_items (suc n) xs).1 ∙ others-filter_items (suc n) xs)
  | inr not_one ↦ rw (not_one, not_one) (ap (λ r. x ∷ r) (others-filter_items n xs))
]

count-filter_content :
    (n : ℕ) (c : Content) → (filter_content n c).0 ≡ n + length (keep is_environment (items_of c))
count-filter_content n (list items) = count-filter_items n items
count-filter_content n absent = omega arith
count-filter_content n (string s) = omega arith
count-filter_content n (parts ps) = omega arith
count-filter_content n (other j) = omega arith

kept-filter_content :
    (n : ℕ) (c : Content)
    → keep is_environment (items_of (filter_content n c).1)
      ≡ take (1 - n) (keep is_environment (items_of c))
kept-filter_content n (list items) = kept-filter_items n items
kept-filter_content n absent = sym (take-nil (1 - n))
kept-filter_content n (string s) = sym (take-nil (1 - n))
kept-filter_content n (parts ps) = sym (take-nil (1 - n))
kept-filter_content n (other j) = sym (take-nil (1 - n))

others-filter_content :
    (n : ℕ) (c : Content) → content_without (filter_content n c).1 ≡ content_without c
others-filter_content n (list items) = ap list (others-filter_items n items)
others-filter_content n absent = refl
others-filter_content n (string s) = refl
others-filter_content n (parts ps) = refl
others-filter_content n (other j) = refl

count-filter_message :
    (n : ℕ) (m : Message) → (filter_message n m).0 ≡ n + length (keep is_environment (user_items m))
count-filter_message n m = elim (Bool-cases (has_role (text "user") m)) [
  | inl user ↦ rw user (count-filter_content n m.content)
  | inr else_ ↦ rw else_ (omega arith)
]

kept-filter_message :
    (n : ℕ) (m : Message)
    → keep is_environment (user_items (filter_message n m).1)
      ≡ take (1 - n) (keep is_environment (user_items m))
kept-filter_message n m = elim (Bool-cases (has_role (text "user") m)) [
  | inl user ↦ rw (user, user) (kept-filter_content n m.content)
  | inr else_ ↦ rw (else_, else_) (sym (take-nil (1 - n)))
]

others-filter_message :
    (n : ℕ) (m : Message) → without_details (filter_message n m).1 ≡ without_details m
others-filter_message n m = elim (Bool-cases (has_role (text "user") m)) [
  | inl user ↦ rw (user, user) (ap (λ c. with_content c m) (others-filter_content n m.content))
  | inr else_ ↦ rw (else_, else_) refl
]

listed_environments-filter_details :
    (n : ℕ) (ms : List Message)
    → listed_environments (filter_details n ms) ≡ take (1 - n) (listed_environments ms)
unfolding filter_details
listed_environments-filter_details n [] = sym (take-nil (1 - n))
listed_environments-filter_details n (m ∷ ms) =
    let items = keep is_environment (user_items m) in
    let after = (filter_message n m).0 in
    let left : 1 - after ≡ 1 - n - length items = omega (arith, count-filter_message n m) in
    ap (λ r. r ++ listed_environments (filter_details after ms)) (kept-filter_message n m)
    ∙ ap (λ r. take (1 - n) items ++ r) (listed_environments-filter_details after ms)
    ∙ ap (λ k. take (1 - n) items ++ take k (listed_environments ms)) left
    ∙ sym (take-append2 (1 - n) items (listed_environments ms))

others-filter_details :
    (n : ℕ) (ms : List Message) → map without_details (filter_details n ms) ≡ map without_details ms
unfolding filter_details
others-filter_details n [] = refl
others-filter_details n (m ∷ ms) =
    ap (λ x. x ∷ map without_details (filter_details (filter_message n m).0 ms))
      (others-filter_message n m)
    ∙ ap (λ xs. without_details m ∷ xs) (others-filter_details (filter_message n m).0 ms)

abbrev is_list : Content → Bool
is_list (list items) = true
is_list _ = false

abbrev pub is_unlisted : Message → Bool
is_unlisted m = not (is_list m.content)

unlisted-filter_content :
    (n : ℕ) (m : Message) (c : Content) (ms : List Message)
    → m.content ≡ c
    → keep is_unlisted (with_content (filter_content n c).1 m ∷ ms)
      ≡ (if is_list c then keep is_unlisted ms else m ∷ keep is_unlisted ms)
unlisted-filter_content n m (list items) ms e = refl
unlisted-filter_content n m absent ms e = ap (λ x. with_content x m ∷ keep is_unlisted ms) (sym e)
unlisted-filter_content n m (string s) ms e =
    ap (λ x. with_content x m ∷ keep is_unlisted ms) (sym e)
unlisted-filter_content n m (parts ps) ms e =
    ap (λ x. with_content x m ∷ keep is_unlisted ms) (sym e)
unlisted-filter_content n m (other j) ms e =
    ap (λ x. with_content x m ∷ keep is_unlisted ms) (sym e)

unlisted_test :
    (m : Message) (ms : List Message)
    → (if is_list m.content then keep is_unlisted ms else m ∷ keep is_unlisted ms)
      ≡ keep is_unlisted (m ∷ ms)
unlisted_test m ms = ground arith

unlisted-filter_details :
    (n : ℕ) (ms : List Message) → keep is_unlisted (filter_details n ms) ≡ keep is_unlisted ms
unfolding filter_details
unlisted-filter_details n [] = refl
unlisted-filter_details n (m ∷ ms) = elim (Bool-cases (has_role (text "user") m)) [
  | inl user ↦ rw user (
      unlisted-filter_content n m m.content (filter_details (filter_content n m.content).0 ms) refl
      ∙ ap (λ r. if is_list m.content then r else m ∷ r)
          (unlisted-filter_details (filter_content n m.content).0 ms)
      ∙ unlisted_test m ms)
  | inr else_ ↦
      rw else_ (ap (λ r. if is_unlisted m then m ∷ r else r) (unlisted-filter_details n ms))
]

-- Of the environment details that are items of list contents in the older messages of the user, the
-- enabled filter keeps the first and no other, over all these messages, and whatever else the older
-- messages hold stays as it is and where it is. Messages whose content is no list, such as a string,
-- all stay as they are, with any environment details in them.
pub listed_environments-filter_environment_details :
    (p : PromptMsg)
    → (listed_environments (filter_environment_details true p).older_user_msg_list
        ≡ take 1 (listed_environments p.older_user_msg_list))
      × (map without_details (filter_environment_details true p).older_user_msg_list
          ≡ map without_details p.older_user_msg_list)
      × (keep is_unlisted (filter_environment_details true p).older_user_msg_list
          ≡ keep is_unlisted p.older_user_msg_list)
unfolding filter_environment_details
listed_environments-filter_environment_details p = (
  listed_environments-filter_details 0 p.older_user_msg_list,
  others-filter_details 0 p.older_user_msg_list,
  unlisted-filter_details 0 p.older_user_msg_list,
)
