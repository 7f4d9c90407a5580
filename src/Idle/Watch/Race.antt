-- ===== src/Idle/Watch/Race.antt =====
-- Timeouts that are stale, that are taken for due by mistake, and that overtake the first token.
use chat_rag.Common.{if◌then◌else◌, ℤ, ℕ, ◌≤◌, ◌≡◌, refl, true, false, [], ◌∷◌, arith}
use chat_rag.Idle.Tracker
use chat_rag.Idle.Tracker.{IdleTracker}
use chat_rag.Idle.Timer
use chat_rag.Idle.Timer.{is_spent, total_timeout, per_idle_timeout}
use chat_rag.Idle.Watch.{
  System, selecting, received, captured, token, reading, charging, cancelling, events, Step,
  expires, receives, captures, handles, gives_up, finishes, resets, stops, first_token, Reach, here,
  next, expire, receive, capture, handle, give_up, finish, on_timer,
}

Step-generation : {s t : System} → Step s t → s.it.generation ≤ t.it.generation
unfolding expire receive capture handle give_up finish Timer.reset Timer.stop
    Timer.set_first_token_received Timer.charge Timer.time_out
Step-generation (resets s now q) = ground arith
Step-generation (handles s g p) = ground arith
Step-generation (stops s q) = ground arith
Step-generation (expires s t e a) = omega arith
Step-generation (receives s t p e a) = omega arith
Step-generation (captures s p) = omega arith
Step-generation (gives_up s p) = omega arith
Step-generation (finishes s p c) = omega arith
Step-generation (first_token s) = omega arith

Reach-generation : {s t : System} → Reach s t → s.it.generation ≤ t.it.generation
Reach-generation here = omega arith
Reach-generation (next r st) = omega (arith, Reach-generation r, Step-generation st)

-- A timeout whose generation was read before a `Reset` of a timer that is not stopped does nothing
-- to the timer, the budget and the context, whatever happens before it is handled, and the goroutine
-- goes back to its `select`.
pub reset_makes_stale :
    (s : System) (now g : ℕ) {t : System}
    → s.it.stopped ≡ false
    → g ≤ s.it.generation
    → Reach (on_timer (Timer.reset now) s) t
    → ((handle g t).it ≡ t.it) × ((handle g t).place ≡ selecting)
unfolding handle Timer.charge Timer.reset
reset_makes_stale s now g {t} f le r =
    (ground (arith, Reach-generation r), ground (arith, Reach-generation r))

-- The context is cancelled and a timeout reported, with the total budget as its reason exactly if
-- that is used up, and one window has been taken from the tracker `before`.
pub record IsTimedOut (before : IdleTracker) (per_idle : ℤ) (t : System) : Type 0 where
  pub done : t.it.cancelled ≡ true
  pub reported : t.it.timed_out ≡ true
  pub why : t.it.reason ≡ (if is_spent t.it.tracker then total_timeout else per_idle_timeout)
  pub charged : t.it.tracker ≡ Tracker.consume per_idle before

-- A timeout that `watch` has received when the request calls `Reset`, and whose generation it reads
-- only after, is not seen to be stale, where the timer is not stopped and no first token has come:
-- there is a run of exactly three steps of the goroutine, without a new expiry, the reading of the
-- generation, the charge and the cancel, that cancels the request though its data has just arrived, and
-- charges the budget that the reset restored for a whole window.
pub reset_race :
    (s : System) (now : ℕ)
    → s.place ≡ received
    → s.it.stopped ≡ false
    → s.it.first_token_received ≡ false
    → let fresh = on_timer (Timer.reset now) s in
      (t : System) × (r : Reach fresh t) × (events r ≡ reading ∷ charging ∷ cancelling ∷ [])
      × IsTimedOut fresh.it.tracker s.it.per_idle t
unfolding handle give_up capture Timer.charge Timer.time_out Timer.reset
reset_race s now p f n =
    let s₁ = on_timer (Timer.reset now) s in
    let s₂ = capture s₁ in
    let s₃ = handle s₁.it.generation s₂ in
    (
      give_up s₃,
      next (next (next here (captures s₁ p)) (handles s₂ s₁.it.generation (ground arith)))
          (gives_up s₃ (ground arith)),
      refl,
      ground arith,
    )

-- A first token does not always keep the request alive: where the goroutine handles a due timeout,
-- there is a run of a charge, a first token and a cancel, in this order, which leaves a context that is
-- cancelled and a timeout that is reported although the first token has been received.
pub first_token_race :
    (s : System)
    → s.place ≡ captured s.it.generation
    → s.it.stopped ≡ false
    → s.it.first_token_received ≡ false
    → (t : System) × (r : Reach s t) × (events r ≡ charging ∷ token ∷ cancelling ∷ [])
      × (t.it.first_token_received ≡ true)
      × IsTimedOut s.it.tracker s.it.per_idle t
unfolding handle give_up Timer.charge Timer.time_out Timer.set_first_token_received
first_token_race s p f n =
    let s₁ = handle s.it.generation s in
    let s₂ = on_timer Timer.set_first_token_received s₁ in
    (
      give_up s₂,
      next (next (next here (handles s s.it.generation p)) (first_token s₁))
          (gives_up s₂ (ground arith)),
      refl,
      ground arith,
      ground arith,
    )
