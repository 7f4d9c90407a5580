-- ===== src/Messages/Split.antt =====
-- How a conversation is split into old and recent messages.
use chat_rag.Common.{
  leb, ◌==◌, if◌then◌else◌, Bool-cases, length, take, drop, ltb_ℤ, pos, ℕ, zero, suc, ◌+◌, ◌-◌, ◌≤◌,
  ◌<◌, ◌≡◌, refl, sym, ap, ◌∙◌, subst, inl, inr, true, false, Option, none, some, List, [], ◌∷◌,
  ◌++◌, arith,
}
use chat_rag.Types.{Message}
use chat_rag.Messages.{
  is_user, visit, look_back, first_system, get_recent_user_msgs_with_num,
  get_old_user_msgs_with_num,
}

-- How many of the messages are a user's or a tool's.
abbrev pub users : List Message → ℕ
users [] = 0
users (m ∷ ms) = let rest = users ms in if is_user m then suc rest else rest

visit-kept :
    (num i : ℕ) (m : Message) (r : ℕ × Option ℕ) (p : ℕ)
    → r.1 ≡ some p
    → (visit num i m r).1 ≡ some p
visit-kept num i m (c, some q) p h = h
visit-kept num i m (c, none) p h = cc

look_back-none :
    (num i : ℕ) (ms : List Message) → users ms < num → look_back num i ms ≡ (users ms, none)
look_back-none num i [] h = refl
look_back-none num i (m ∷ ms) h = elim (Bool-cases (is_user m)) [
  | inl user ↦
      let before : users ms < num = ground arith in
      let more : (suc (users ms) == num) ≡ false = ground arith in
      rw (look_back-none num (suc i) ms before, user, more) refl
  | inr other ↦
      let before : users ms < num = ground arith in
      rw (look_back-none num (suc i) ms before, other) refl
]

-- The last `num` messages of a user or a tool begin `k` messages on.
look_back-found :
    (num i : ℕ) (ms : List Message)
    → 1 ≤ num
    → num ≤ users ms
    → (k : ℕ) × ((look_back num i ms).1 ≡ some (i + k)) × (users (drop k ms) ≡ num)
look_back-found num i [] h b = absurd (omega (arith, h, b))
look_back-found num i (m ∷ ms) h b = elim (Bool-cases (leb num (users ms))) [
  | inl later ↦
      let (k, q, n) = look_back-found num (suc i) ms h (ground arith) in
      let there : (look_back num i (m ∷ ms)).1 ≡ some (suc i + k) =
        visit-kept num i m (look_back num (suc i) ms) (suc i + k) q in
      let shift : suc i + k ≡ i + suc k = omega arith in (suc k, there ∙ ap some shift, n)
  | inr now ↦
      let user : is_user m ≡ true = ground arith in
      let last : (suc (users ms) == num) ≡ true = ground arith in
      let count : suc (users ms) ≡ num = ground arith in
      let start : i ≡ i + 0 = omega arith in
      (
        0,
        rw (look_back-none num (suc i) ms (ground arith), user, last) (ap some start),
        rw user count,
      )
]

pub look_back-append :
    (num i : ℕ) (xs ys : List Message) (p : ℕ)
    → (look_back num (i + length xs) ys).1 ≡ some p
    → (look_back num i (xs ++ ys)).1 ≡ some p
look_back-append num i [] ys p h =
    let start : i + 0 ≡ i = omega arith in subst (λ j. (look_back num j ys).1 ≡ some p) start h
look_back-append num i (x ∷ xs) ys p h =
    let shift : i + suc (length xs) ≡ suc i + length xs = omega arith in
    visit-kept num i x (look_back num (suc i) (xs ++ ys)) p
      (look_back-append num (suc i) xs ys p (subst (λ j. (look_back num j ys).1 ≡ some p) shift h))

append-take-drop : (n : ℕ) (ms : List Message) → take n ms ++ drop n ms ≡ ms
append-take-drop zero ms = refl
append-take-drop (suc n) [] = refl
append-take-drop (suc n) (m ∷ ms) = ap (λ xs. m ∷ xs) (append-take-drop n ms)

drop-nil : (n : ℕ) → drop {A = Message} n [] ≡ []
drop-nil zero = refl
drop-nil (suc n) = refl

drop-drop : (a b : ℕ) (ms : List Message) → drop a (drop b ms) ≡ drop (b + a) ms
drop-drop a zero ms = let same : a ≡ 0 + a = omega arith in ap (λ n. drop n ms) same
drop-drop a (suc b) [] = drop-nil a ∙ sym (drop-nil (suc b + a))
drop-drop a (suc b) (m ∷ ms) =
    let same : suc (b + a) ≡ suc b + a = omega arith in
    drop-drop a b ms ∙ ap (λ n. drop n (m ∷ ms)) same

length-take : (n : ℕ) (ms : List Message) → 1 ≤ users (drop n ms) → length (take n ms) ≡ n
length-take zero ms h = refl
length-take (suc n) [] h = absurd (omega (arith, h))
length-take (suc n) (m ∷ ms) h = ap suc (length-take n ms h)

users_bounded : (n : ℕ) (ms : List Message) → users (drop n ms) ≤ length ms - n
users_bounded zero [] = omega arith
users_bounded zero (m ∷ ms) = ground (arith, users_bounded zero ms)
users_bounded (suc n) [] = omega arith
users_bounded (suc n) (m ∷ ms) = omega (arith, users_bounded n ms)

pub recent-at :
    (messages : List Message) (num p : ℕ)
    → 1 ≤ num
    → (look_back num 0 messages).1 ≡ some p
    → get_recent_user_msgs_with_num messages (pos num) ≡ drop p messages
unfolding get_recent_user_msgs_with_num
recent-at messages num p h at =
    let positive : ltb_ℤ (pos 0) (pos num) ≡ true = ground arith in
    rw (get_recent_user_msgs_with_num, positive, at) refl

pub old-at :
    (messages : List Message) (num k : ℕ)
    → 1 ≤ num
    → num < length messages
    → (look_back num 0 messages).1 ≡ some (suc (first_system 0 messages) + k)
    → get_old_user_msgs_with_num messages (pos num)
      ≡ take k (drop (suc (first_system 0 messages)) messages)
unfolding get_old_user_msgs_with_num
old-at messages num k h room at =
    let s = first_system 0 messages in
    let positive : ltb_ℤ (pos 0) (pos num) ≡ true = ground arith in
    let fewer : ltb_ℤ (pos num) (pos (length messages)) ≡ true = ground arith in
    let behind : leb (suc s + k) s ≡ false = ground arith in
    let gap : suc s + k - suc s ≡ k = omega arith in
    rw (get_old_user_msgs_with_num, positive, fewer, at, behind, gap) refl

-- Where `num` is not zero and as many messages of a user or a tool follow the first system message,
-- the old and the recent messages are, in this order, all that follows it, and `num` of the recent
-- messages are a user's or a tool's. Without a system message all this follows the first message.
pub old_recent_split :
    (messages : List Message) (num : ℕ)
    → 1 ≤ num
    → num ≤ users (drop (suc (first_system 0 messages)) messages)
    → (get_old_user_msgs_with_num messages (pos num)
          ++ get_recent_user_msgs_with_num messages (pos num)
        ≡ drop (suc (first_system 0 messages)) messages)
      × (users (get_recent_user_msgs_with_num messages (pos num)) ≡ num)
old_recent_split messages num h b =
    let s = suc (first_system 0 messages) in
    let after = drop s messages in
    let before = take s messages in
    let (k, q, n) = look_back-found num (0 + length before) after h b in
    let reach : length before ≡ s = length-take s messages (omega (arith, h, b)) in
    let found : (look_back num 0 messages).1 ≡ some (0 + length before + k) =
      subst (λ ms. (look_back num 0 ms).1 ≡ some (0 + length before + k))
        (append-take-drop s messages)
        (look_back-append num 0 before after (0 + length before + k) q) in
    let place : 0 + length before + k ≡ s + k = omega (arith, reach) in
    let at : (look_back num 0 messages).1 ≡ some (s + k) = found ∙ ap some place in
    let room : num < length messages = omega (arith, b, h, users_bounded s messages) in
    let recent = recent-at messages num (s + k) h at in
    let last = drop-drop k s messages in
    (
      ap (λ xs. xs ++ get_recent_user_msgs_with_num messages (pos num))
            (old-at messages num k h room at)
          ∙ ap (λ ys. take k after ++ ys) (recent ∙ sym last)
          ∙ append-take-drop k after,
      ap users (recent ∙ sym last) ∙ n,
    )
