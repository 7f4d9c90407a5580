-- ===== src/Idle/Watch/Quiet.antt =====
-- What becomes of a timer whose request takes no step.
use chat_rag.Common.{
  length, All, length-append, ℕ, zero, suc, ◌≤◌, ◌≡◌, refl, sym, ap, ◌∙◌, subst, ◌⊎◌, inl, inr,
  true, false, some, List, [], ◌∷◌, ◌++◌, arith,
}
use chat_rag.Idle.Timer
use chat_rag.Idle.Timer.{running, halted}
use chat_rag.Idle.Watch.{
  System, selecting, received, captured, deciding, gone, Step, expires, receives, captures, handles,
  gives_up, Reach, here, next, expire, receive, capture, handle, give_up, finish, event_of, events,
}
use chat_rag.Idle.Watch.Race.{IsTimedOut}
use chat_rag.Idle.Watch.Only.{
  is_quiet, expired, only_expires, only_receives, only_captures, only_handles, only_gives_up,
  only_finishes, none_is_left,
}

All-split {ℓ κ} :
    {A : Type ℓ} (P : A → Type κ) (xs ys : List A) → All P (xs ++ ys) → All P xs × All P ys
All-split P [] ys h = (tt, h)
All-split P (x ∷ xs) ys h = let (a, b) = All-split P xs ys h.1 in ((h.0, a), b)

module _ (s : System) (p : s.place ≡ selecting) (r : s.it.timer ≡ some running)
    (f : s.it.stopped ≡ false) (n : s.it.first_token_received ≡ false)
    (c : s.it.cancelled ≡ false) where
  abbrev s1 : System
  s1 = expire s

  abbrev s2 : System
  s2 = receive s1

  abbrev s3 : System
  s3 = capture s2

  abbrev s4 : System
  s4 = handle s.it.generation s3

  -- The state after some steps.
  abbrev state_at : ℕ → System
  state_at zero = s
  state_at (suc zero) = s1
  state_at (suc (suc zero)) = s2
  state_at (suc (suc (suc zero))) = s3
  state_at (suc (suc (suc (suc zero)))) = s4
  state_at (suc (suc (suc (suc (suc zero))))) = give_up s4
  state_at (suc (suc (suc (suc (suc (suc k)))))) = finish (give_up s4)

  next_state :
      (k : ℕ) {t u : System} (st : Step t u)
      → is_quiet (event_of st) ≡ true
      → t ≡ state_at k
      → (u ≡ state_at (suc k)) × (k ≤ 5)
  unfolding handle give_up capture receive expire finish Timer.charge Timer.time_out
  next_state zero {t} st q e =
      let pl : t.place ≡ selecting = ap (λ x. x.place) e ∙ ground arith in
      let tm : t.it.timer ≡ some running = ap (λ x. x.it.timer) e ∙ ground arith in
      let cn : t.it.cancelled ≡ false = ap (λ x. x.it.cancelled) e ∙ ground arith in
      (only_expires st q pl tm cn ∙ ap expire e, omega arith)
  next_state (suc zero) {t} st q e =
      let pl : t.place ≡ selecting = ap (λ x. x.place) e ∙ ground arith in
      let tm : t.it.timer ≡ some expired = ap (λ x. x.it.timer) e ∙ ground arith in
      let cn : t.it.cancelled ≡ false = ap (λ x. x.it.cancelled) e ∙ ground arith in
      (only_receives st q pl tm cn ∙ ap receive e, omega arith)
  next_state (suc (suc zero)) {t} st q e =
      let pl : t.place ≡ received = ap (λ x. x.place) e ∙ ground arith in
      let tm : t.it.timer ≡ some halted = ap (λ x. x.it.timer) e ∙ ground arith in
      (only_captures st q pl tm ∙ ap capture e, omega arith)
  next_state (suc (suc (suc zero))) {t} st q e =
      let pl : t.place ≡ captured s.it.generation = ap (λ x. x.place) e ∙ ground arith in
      let tm : t.it.timer ≡ some halted = ap (λ x. x.it.timer) e ∙ ground arith in
      (only_handles s.it.generation st q pl tm ∙ ap (handle s.it.generation) e, omega arith)
  next_state (suc (suc (suc (suc zero)))) {t} st q e =
      let pl : t.place ≡ deciding = ap (λ x. x.place) e ∙ ground arith in
      let tm : t.it.timer ≡ some halted = ap (λ x. x.it.timer) e ∙ ground arith in
      (only_gives_up st q pl tm ∙ ap give_up e, omega arith)
  next_state (suc (suc (suc (suc (suc zero))))) {t} st q e =
      let pl : t.place ≡ selecting = ap (λ x. x.place) e ∙ ground arith in
      let tm : t.it.timer ≡ some halted = ap (λ x. x.it.timer) e ∙ ground arith in
      let cn : t.it.cancelled ≡ true = ap (λ x. x.it.cancelled) e ∙ ground arith in
      (only_finishes st q pl tm cn ∙ ap finish e, omega arith)
  next_state (suc (suc (suc (suc (suc (suc k)))))) {t} st q e =
      let pl : t.place ≡ gone = ap (λ x. x.place) e ∙ ground arith in
      let tm : t.it.timer ≡ some halted = ap (λ x. x.it.timer) e ∙ ground arith in
      let clash = none_is_left st q pl tm in cc

  quiet_state :
      {t : System} (run : Reach s t)
      → All (λ e. is_quiet e ≡ true) (events run)
      → (t ≡ state_at (length (events run))) × (length (events run) ≤ 6)
  quiet_state here h = (refl, omega arith)
  quiet_state (next run st) h =
      let (before, now) = All-split (λ e. is_quiet e ≡ true) (events run) (event_of st ∷ []) h in
      let (at, few) = quiet_state run before in
      let (then_at, bound) = next_state (length (events run)) st now.0 at in
      let count : length (events run ++ (event_of st ∷ [])) ≡ suc (length (events run)) =
        length-append (events run) (event_of st ∷ []) ∙ omega arith in
      (then_at ∙ ap state_at (sym count), omega (arith, bound, count))

  -- It has come to the timeout, or the goroutine or the runtime can go on.
  abbrev Progress : System → Type 0
  Progress t =
      IsTimedOut s.it.tracker s.it.per_idle t
      ⊎ ((u : System) × (st : Step t u) × (is_quiet (event_of st) ≡ true))

  state_at-Progress : (k : ℕ) → Progress (state_at k)
  unfolding handle give_up capture receive expire finish Timer.charge Timer.time_out
  state_at-Progress zero = inr (expire s, expires s running r refl, refl)
  state_at-Progress (suc zero) = inr (receive s1, receives s1 expired p refl refl, refl)
  state_at-Progress (suc (suc zero)) = inr (capture s2, captures s2 refl, refl)
  state_at-Progress (suc (suc (suc zero))) =
      inr (handle s.it.generation s3, handles s3 s.it.generation (rw f refl), refl)
  state_at-Progress (suc (suc (suc (suc zero)))) =
      inr (give_up s4, gives_up s4 (ground arith), refl)
  state_at-Progress (suc (suc (suc (suc (suc zero))))) = inl (ground arith)
  state_at-Progress (suc (suc (suc (suc (suc (suc k)))))) = inl (ground arith)

-- A timer that runs and is not stopped, before the first token and with a context that is not cancelled,
-- times out when no data comes, from where its goroutine is in the `select`: every run of the runtime
-- and the goroutine alone has at most six steps, and at its end either such a step can follow, or the
-- context is cancelled and the timeout reported, with the total budget as its reason exactly if that is
-- used up and with one window taken from the budget.
pub timeout_comes :
    (s : System)
    → s.place ≡ selecting
    → s.it.timer ≡ some running
    → s.it.stopped ≡ false
    → s.it.first_token_received ≡ false
    → s.it.cancelled ≡ false
    → {t : System} (run : Reach s t) → All (λ e. is_quiet e ≡ true) (events run)
    → (length (events run) ≤ 6)
      × (IsTimedOut s.it.tracker s.it.per_idle t
          ⊎ ((u : System) × (st : Step t u) × (is_quiet (event_of st) ≡ true)))
timeout_comes s p r f n c {t} run h =
    let (at, few) = quiet_state s p r f n c run h in
    (
      few,
      subst (λ x. Progress s p r f n c x) (sym at)
          (state_at-Progress s p r f n c (length (events run))),
    )
