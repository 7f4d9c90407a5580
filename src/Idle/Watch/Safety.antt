-- ===== src/Idle/Watch/Safety.antt =====
-- What holds however the goroutine and the request interleave.
use chat_rag.Common.{
  ◌==◌, Bool-cases, ◌-ℤ◌, ◌≤ℤ◌, pos, ℕ, ◌≡◌, refl, sym, ap, ◌∙◌, inl, inr, true, false, arith,
}
use chat_rag.Idle.Tracker
use chat_rag.Idle.Tracker.{IsWithinBudget, consume-IsWithinBudget, reset-IsWithinBudget}
use chat_rag.Idle.Timer
use chat_rag.Idle.Timer.{IdleTimer}
use chat_rag.Idle.Watch.{
  System, Place, deciding, Step, expires, receives, captures, handles, gives_up, finishes, resets,
  stops, first_token, Reach, here, next, expire, receive, capture, handle, give_up, finish,
  is_deciding,
}

-- A window that is not negative and a budget that is within bounds.
pub record IsSound (s : System) : Type 0 where
  pub window : pos 0 ≤ℤ s.it.per_idle
  pub budget : IsWithinBudget s.it.tracker

charge-IsWithinBudget :
    (g : ℕ) (it : IdleTimer)
    → pos 0 ≤ℤ it.per_idle
    → IsWithinBudget it.tracker
    → (pos 0 ≤ℤ (Timer.charge g it).1.per_idle) × IsWithinBudget (Timer.charge g it).1.tracker
unfolding Timer.charge Tracker.consume ◌-ℤ◌
charge-IsWithinBudget g it w b = elim (Bool-cases it.stopped) [
  | inl e ↦ rw e (w, b)
  | inr e ↦ rw e (elim (Bool-cases (it.generation == g)) [
    | inr f ↦ rw f (w, b)
    | inl f ↦ rw f (elim (Bool-cases it.first_token_received) [
      | inl h ↦ rw h (w, consume-IsWithinBudget it.per_idle it.tracker w b)
      | inr h ↦ rw h (w, consume-IsWithinBudget it.per_idle it.tracker w b)
    ])
  ])
]

Step-IsSound : {s t : System} → Step s t → IsSound s → IsSound t
unfolding expire receive capture handle give_up finish Timer.reset Timer.stop
    Timer.set_first_token_received Timer.time_out
Step-IsSound (expires s g e a) h = record { window = h.window; budget = h.budget }
Step-IsSound (receives s g p e a) h = record { window = h.window; budget = h.budget }
Step-IsSound (captures s p) h = record { window = h.window; budget = h.budget }
Step-IsSound (handles s g p) h =
    let (w, b) = charge-IsWithinBudget g s.it h.window h.budget in record { window = w; budget = b }
Step-IsSound (gives_up s p) h = record { window = h.window; budget = h.budget }
Step-IsSound (finishes s p c) h = record { window = h.window; budget = h.budget }
Step-IsSound (resets s now q) h = ground (arith, reset-IsWithinBudget now s.it.tracker)
Step-IsSound (stops s q) h = ground arith
Step-IsSound (first_token s) h = record { window = h.window; budget = h.budget }

-- However the goroutine and the request interleave, the shared budget stays between zero and the
-- initial budget, if it is there at first and the window of the timer is not negative.
pub Reach-IsSound : {s t : System} → IsSound s → Reach s t → IsSound t
Reach-IsSound h here = h
Reach-IsSound h (next r st) = Step-IsSound st (Reach-IsSound h r)

decided : {A : Type 0} {p : Place} → p ≡ deciding → is_deciding p ≡ false → A
decided p d = let clash : true ≡ false = sym (ap is_deciding p) ∙ d in cc

-- What the first token settles: the context is as it was, and no timeout is reported.
pub record IsKeptAlive (s t : System) : Type 0 where
  pub first : t.it.first_token_received ≡ true
  pub undecided : is_deciding t.place ≡ false
  pub same_context : t.it.cancelled ≡ s.it.cancelled
  pub no_timeout : t.it.timed_out ≡ true → s.it.timed_out ≡ true

Step-IsKeptAlive :
    {s t : System}
    → Step s t
    → s.it.first_token_received ≡ true
    → is_deciding s.place ≡ false
    → IsKeptAlive s t
unfolding expire receive capture handle give_up finish Timer.reset Timer.stop
    Timer.set_first_token_received Timer.charge Timer.time_out
Step-IsKeptAlive (resets s now q) f d = ground arith
Step-IsKeptAlive (handles s g p) f d = ground arith
Step-IsKeptAlive (stops s q) f d = ground arith
Step-IsKeptAlive (expires s g e a) f d = ground arith
Step-IsKeptAlive (receives s g p e a) f d = ground arith
Step-IsKeptAlive (captures s p) f d = ground arith
Step-IsKeptAlive (gives_up s p) f d = decided p d
Step-IsKeptAlive (finishes s p c) f d = ground arith
Step-IsKeptAlive (first_token s) f d = ground arith

-- Once the first token has been seen while no timeout is between its look at the first token and its
-- cancel, no interleaving of timeouts, resets and stops cancels the context or reports a timeout that
-- was not reported before.
pub Reach-IsKeptAlive :
    {s t : System}
    → s.it.first_token_received ≡ true
    → is_deciding s.place ≡ false
    → Reach s t
    → IsKeptAlive s t
Reach-IsKeptAlive f d here = record {
  first = f;
  undecided = d;
  same_context = refl;
  no_timeout = λ h. h;
}
Reach-IsKeptAlive f d (next r st) =
    let a = Reach-IsKeptAlive f d r in
    let b = Step-IsKeptAlive st a.first a.undecided in
    record {
      first = b.first;
      undecided = b.undecided;
      same_context = b.same_context ∙ a.same_context;
      no_timeout = λ h. a.no_timeout (b.no_timeout h);
    }

-- What `Stop` settles: nothing that the request reads changes any more.
pub record IsFrozen (s t : System) : Type 0 where
  pub still : t.it.stopped ≡ true
  pub undecided : is_deciding t.place ≡ false
  pub same_budget : t.it.tracker ≡ s.it.tracker
  pub same_reason : t.it.reason ≡ s.it.reason
  pub same_timeout : t.it.timed_out ≡ s.it.timed_out
  pub same_context : t.it.cancelled ≡ s.it.cancelled

Step-IsFrozen :
    {s t : System} → Step s t → s.it.stopped ≡ true → is_deciding s.place ≡ false → IsFrozen s t
unfolding expire receive capture handle give_up finish Timer.reset Timer.stop
    Timer.set_first_token_received Timer.charge Timer.time_out
Step-IsFrozen (expires s g e a) f d = ground arith
Step-IsFrozen (receives s g p e a) f d = ground arith
Step-IsFrozen (captures s p) f d = ground arith
Step-IsFrozen (handles s g p) f d = ground arith
Step-IsFrozen (gives_up s p) f d = decided p d
Step-IsFrozen (finishes s p c) f d = ground arith
Step-IsFrozen (resets s now q) f d = ground arith
Step-IsFrozen (stops s q) f d = ground arith
Step-IsFrozen (first_token s) f d = ground arith

-- Once the timer is stopped while no timeout is between its look at the first token and its cancel, no
-- interleaving changes the budget, the reason, the report of a timeout or the context.
pub Reach-IsFrozen :
    {s t : System} → s.it.stopped ≡ true → is_deciding s.place ≡ false → Reach s t → IsFrozen s t
Reach-IsFrozen f d here = record {
  still = f;
  undecided = d;
  same_budget = refl;
  same_reason = refl;
  same_timeout = refl;
  same_context = refl;
}
Reach-IsFrozen f d (next r st) =
    let a = Reach-IsFrozen f d r in
    let b = Step-IsFrozen st a.still a.undecided in
    record {
      still = b.still;
      undecided = b.undecided;
      same_budget = b.same_budget ∙ a.same_budget;
      same_reason = b.same_reason ∙ a.same_reason;
      same_timeout = b.same_timeout ∙ a.same_timeout;
      same_context = b.same_context ∙ a.same_context;
    }
