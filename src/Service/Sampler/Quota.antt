-- ===== src/Service/Sampler/Quota.antt =====
-- How many logs are kept in one window.
use chat_rag.Common.{
  leb, if◌then◌else◌, Bool-cases, All, All-mono, eqb_ℤ, eqb_ℤ→eq, eqb_ℤ-refl, pos, Text, text_eq,
  text_eq_refl, text_eq→eq, text_eq_comm, ℕ, suc, ◌+◌, ◌/◌, ◌≤◌, ◌≡◌, refl, sym, ap, ◌∙◌, subst,
  ◌≢◌, inl, inr, Bool, true, false, ◌&&◌, List, [], ◌∷◌, arith,
}
use chat_rag.Service.Sampler.{ErrorLogSampler, count_of, increment, key_of, enter, allow}

count_of-increment :
    (key k : Text) (cs : List (Text × ℕ))
    → count_of key (increment k cs)
      ≡ (if text_eq k key then suc (count_of key cs) else count_of key cs)
unfolding count_of increment
count_of-increment key k [] = refl
count_of-increment key k ((j, n) ∷ rest) = elim (Bool-cases (text_eq j k)) [
  | inl same ↦
      subst
        (λ y. count_of key (increment y ((j, n) ∷ rest)) ≡ (
          if text_eq y key
          then suc (count_of key ((j, n) ∷ rest))
          else count_of key ((j, n) ∷ rest)))
        (text_eq→eq j k same) (ground (arith, text_eq_refl j))
  | inr differs ↦ rw differs (elim (Bool-cases (text_eq j key)) [
    | inl here ↦
        let other : text_eq k key ≡ false =
          text_eq_comm k key ∙ subst (λ y. text_eq y k ≡ false) (text_eq→eq j key here) differs in
        rw (here, other) refl
    | inr away ↦ rw away (count_of-increment key k rest)
  ])
]

-- One call of `Allow`: when, for which user and which type of error.
pub record Call : Type 0 where
  pub now : ℕ
  pub user : Text
  pub error_type : Text

-- The calls of a user and a type, as the map tells them apart.
abbrev pub asked : Text → List Call → ℕ
asked key [] = 0
asked key (c ∷ cs) =
    let rest = asked key cs in if text_eq (key_of c.user c.error_type) key then suc rest else rest

-- How many of these the sampler allows.
abbrev pub granted : Text → List Call → ErrorLogSampler → ℕ
granted key [] s = 0
granted key (c ∷ cs) s =
    let r = allow c.now c.user c.error_type s in
    let rest = granted key cs r.1 in
    if r.0 && text_eq (key_of c.user c.error_type) key then suc rest else rest

abbrev pub min : ℕ → ℕ → ℕ
min a b = if leb a b then a else b

-- In the window of the sampler.
abbrev pub IsIn : ErrorLogSampler → Call → Type 0
IsIn s c = pos (c.now / s.window_sec) ≡ s.window_id

enter-IsIn : (s : ErrorLogSampler) (c : Call) → IsIn s c → enter c.now s ≡ s
unfolding enter
enter-IsIn s c h =
    subst
      (λ x. (if x then s else record s { window_id = pos (c.now / s.window_sec); counts = [] }) ≡ s)
      (sym (ap (λ z. eqb_ℤ z s.window_id) h ∙ eqb_ℤ-refl s.window_id)) refl

granted_lem :
    (key : Text) (cs : List Call) (s : ErrorLogSampler)
    → All (IsIn s) cs
    → count_of key s.counts ≤ s.max_per_window
    → granted key cs s + count_of key s.counts
      ≡ min (asked key cs + count_of key s.counts) s.max_per_window
unfolding allow
granted_lem key [] s h b = ground arith
granted_lem key (c ∷ cs) s h b =
    let k = key_of c.user c.error_type in
    let s' : ErrorLogSampler = record s { counts = increment k s.counts } in
    rw (enter-IsIn s c h.0) (elim (Bool-cases (leb s.max_per_window (count_of k s.counts))) [
      | inl spent ↦ rw spent (elim (Bool-cases (text_eq k key)) [
        | inl mine ↦
            let none_left =
              subst (λ y. leb s.max_per_window (count_of y s.counts) ≡ true) (text_eq→eq k key mine)
                spent in
            ground (arith, granted_lem key cs s h.1 b)
        | inr other ↦ ground (arith, granted_lem key cs s h.1 b)
      ])
      | inr free ↦ rw free (elim (Bool-cases (text_eq k key)) [
        | inl mine ↦
            let some_left =
              subst (λ y. leb s.max_per_window (count_of y s.counts) ≡ false)
                (text_eq→eq k key mine) free in
            let more : count_of key (increment k s.counts) ≡ suc (count_of key s.counts) =
              count_of-increment key k s.counts ∙ rw mine refl in
            ground (arith, more, granted_lem key cs s' h.1 (rw more (ground arith)))
        | inr other ↦
            let same : count_of key (increment k s.counts) ≡ count_of key s.counts =
              count_of-increment key k s.counts ∙ rw other refl in
            ground (arith, same, granted_lem key cs s' h.1 (rw same b))
      ])
    ])

-- The sampler when the window `w` has begun.
abbrev pub entered : ℕ → ErrorLogSampler → ErrorLogSampler
entered w s = record s { window_id = pos w; counts = [] }

enter-entered :
    (w : ℕ) (s : ErrorLogSampler) (now : ℕ)
    → s.window_id ≢ pos w
    → now / s.window_sec ≡ w
    → enter now s ≡ entered w s
unfolding enter
enter-entered w s now n h = elim (Bool-cases (eqb_ℤ (pos w) s.window_id)) [
  | inl same ↦ absurd (n (sym (eqb_ℤ→eq (pos w) s.window_id same)))
  | inr other ↦
      subst (λ v. (if eqb_ℤ (pos v) s.window_id then s else entered v s) ≡ entered w s) (sym h)
        (subst (λ x. (if x then s else entered w s) ≡ entered w s) (sym other) refl)
]

allow-entered :
    (w : ℕ) (s : ErrorLogSampler) (c : Call)
    → s.window_id ≢ pos w
    → c.now / s.window_sec ≡ w
    → allow c.now c.user c.error_type s ≡ allow c.now c.user c.error_type (entered w s)
unfolding allow
allow-entered w s c n h =
    ap
      (λ (s' : ErrorLogSampler).
        if leb s'.max_per_window (count_of (key_of c.user c.error_type) s'.counts)
        then (false, s')
        else (true, record s' { counts = increment (key_of c.user c.error_type) s'.counts }))
      (enter-entered w s c.now n h ∙ sym (enter-IsIn (entered w s) c (ap pos h)))

at_zero : (g a m : ℕ) → g + 0 ≡ min (a + 0) m → g ≡ min a m
at_zero g a m h = ground arith

-- Whatever calls are made in a window that the sampler enters with them, in whatever order, it
-- allows those of a user and a type of error until they are as many as its bound, and no more.
pub window_quota :
    (w : ℕ) (key : Text) (cs : List Call) (s : ErrorLogSampler)
    → s.window_id ≢ pos w
    → All (λ (c : Call). c.now / s.window_sec ≡ w) cs
    → granted key cs s ≡ min (asked key cs) s.max_per_window
unfolding count_of
window_quota w key [] s n h = ground arith
window_quota w key (c ∷ cs) s n h =
    let fresh = entered w s in
    let later : All (IsIn fresh) (c ∷ cs) = (
      ap pos h.0,
      All-mono (λ (x : Call). x.now / s.window_sec ≡ w) (IsIn fresh) cs (λ x e. ap pos e) h.1,
    ) in
    let known : granted key (c ∷ cs) fresh + 0 ≡ min (asked key (c ∷ cs) + 0) s.max_per_window =
      granted_lem key (c ∷ cs) fresh later (omega arith) in
    let first : granted key (c ∷ cs) s ≡ granted key (c ∷ cs) fresh =
      ap
        (λ (r : Bool × ErrorLogSampler).
          let rest = granted key cs r.1 in
          if r.0 && text_eq (key_of c.user c.error_type) key then suc rest else rest)
        (allow-entered w s c n h.0) in
    first ∙ at_zero (granted key (c ∷ cs) fresh) (asked key (c ∷ cs)) s.max_per_window known
