-- ===== src/Idle/Timer.antt =====
-- `IdleTimer` and its methods. `SetFirstTokenReceived` holds `it.firstTokenMu`, all others `it.mu`,
-- from start to end. `handleTimeout` holds `firstTokenMu` only to read the flag, so it is two
-- definitions here: what it does up to that read, and what it does after it where the flag is not
-- set. The flag can be set in between.
--
-- The runtime's timer has two flags: it is `armed` while it runs, and `pending` once it has expired
-- and nobody has received from its channel. `Stop` and `Reset` of it leave no stale value to receive
-- (Go 1.23 and later). The counters are int64 in the source and are not bounded here.
use chat_rag.Common.{
  ◌==◌, if◌then◌else◌, ℤ, ltb_ℤ, pos, ℕ, ◌+◌, Bool, true, false, not, Option, none, some,
}
use chat_rag.Idle.Tracker
use chat_rag.Idle.Tracker.{IdleTracker}

pub data Reason : Type 0 where
  per_idle_timeout total_timeout : Reason

pub record GoTimer : Type 0 where
  pub armed : Bool
  pub pending : Bool

-- `cancelled` says that the timer's context is done; `tracker` is the shared tracker.
pub record IdleTimer : Type 0 where
  pub cancelled : Bool
  pub per_idle : ℤ
  pub tracker : IdleTracker
  pub timer : Option GoTimer
  pub reason : Reason
  pub stopped : Bool
  pub last_reset_time : ℕ
  pub idle_start_time : ℕ
  pub reset_count : ℕ
  pub generation : ℕ
  pub first_token_received : Bool
  pub timed_out : Bool

abbrev pub running : GoTimer
running = record { armed = true; pending = false }

abbrev pub halted : GoTimer
halted = record { armed = false; pending = false }

-- `remaining <= 0`.
abbrev pub is_spent : IdleTracker → Bool
is_spent t = not (ltb_ℤ (pos 0) t.remaining_budget)

-- Whether `NewIdleTimer` starts the goroutine `watch` is whether it makes a timer.
unfoldable new_idle_timer : Bool → ℤ → IdleTracker → ℕ → IdleTimer
new_idle_timer parent_done per_idle tracker now =
    let it : IdleTimer = record {
      cancelled = parent_done;
      per_idle = per_idle;
      tracker = tracker;
      timer = none;
      reason = per_idle_timeout;
      stopped = false;
      last_reset_time = now;
      idle_start_time = now;
      reset_count = 0;
      generation = 0;
      first_token_received = false;
      timed_out = false;
    } in
    if is_spent tracker
    then record it { reason = total_timeout; cancelled = true }
    else record it { timer = some running }

-- `handleTimeout` up to the return after the first token, with whether it goes on.
unfoldable pub charge : ℕ → IdleTimer → Bool × IdleTimer
unfolding Tracker.consume
charge expected_gen it =
    let tracker' = Tracker.consume it.per_idle it.tracker in
    let it' : IdleTimer = record it {
      tracker = tracker';
      reason = if is_spent tracker' then total_timeout else per_idle_timeout;
    } in
    if it.stopped
    then (false, it)
    else if not (it.generation == expected_gen)
    then (false, it)
    else if it.first_token_received
    then (false, it')
    else (true, it')

-- The end of `handleTimeout`, where the flag was not set when it was read.
unfoldable pub time_out : IdleTimer → IdleTimer
time_out it = record it { timed_out = true; cancelled = true }

unfoldable pub reset : ℕ → IdleTimer → IdleTimer
unfolding Tracker.reset
reset now it = if it.stopped then it else record it {
  generation = it.generation + 1;
  tracker = Tracker.reset now it.tracker;
  timer = elim it.timer [ none ↦ none | some _ ↦ some running ];
  last_reset_time = now;
  idle_start_time = now;
  reset_count = it.reset_count + 1;
  timed_out = false;
}

unfoldable pub stop : IdleTimer → IdleTimer
stop it =
    if it.stopped
    then it
    else record it { stopped = true; timer = elim it.timer [ none ↦ none | some _ ↦ some halted ] }

unfoldable pub set_first_token_received : IdleTimer → IdleTimer
set_first_token_received it = record it { first_token_received = true }

unfoldable is_timed_out : IdleTimer → Bool
is_timed_out it = it.timed_out

unfoldable get_reset_count : IdleTimer → ℕ
get_reset_count it = it.reset_count
