-- ===== src/Idle/Tracker.antt =====
-- `IdleTracker`: the idle budget that the attempts of one request share.
-- A duration is an integer number of nanoseconds, an instant a natural number of them.
use chat_rag.Common.{if◌then◌else◌, ℤ, ◌-ℤ◌, ◌≤ℤ◌, ltb_ℤ, pos, ℕ, arith}

pub record IdleTracker : Type 0 where
  pub initial_budget : ℤ
  pub remaining_budget : ℤ
  pub last_reset_time : ℕ

unfoldable new_idle_tracker : ℤ → ℕ → IdleTracker
new_idle_tracker total now = record {
  initial_budget = total;
  remaining_budget = total;
  last_reset_time = now;
}

unfoldable pub consume : ℤ → IdleTracker → IdleTracker
consume duration t =
    let left = t.remaining_budget -ℤ duration in
    record t { remaining_budget = if ltb_ℤ left (pos 0) then pos 0 else left }

unfoldable pub reset : ℕ → IdleTracker → IdleTracker
reset now t = record t { remaining_budget = t.initial_budget; last_reset_time = now }

-- The budget left lies between zero and what there was at first.
pub record IsWithinBudget (t : IdleTracker) : Type 0 where
  pub nonneg : pos 0 ≤ℤ t.remaining_budget
  pub bounded : t.remaining_budget ≤ℤ t.initial_budget

pub consume-IsWithinBudget :
    (d : ℤ) (t : IdleTracker) → pos 0 ≤ℤ d → IsWithinBudget t → IsWithinBudget (consume d t)
unfolding consume ◌-ℤ◌
consume-IsWithinBudget d t h w = ground arith

pub reset-IsWithinBudget :
    (now : ℕ) (t : IdleTracker) → IsWithinBudget t → IsWithinBudget (reset now t)
unfolding reset
reset-IsWithinBudget now t w = ground arith
