-- ===== src/Idle/Samples.antt =====
-- The timer's theorems at a timer with a window of 5 and a budget of 12, or 10 of 12.
use chat_rag.Common.{length, pos, ◌≤◌, ◌≡◌, refl, ◌⊎◌, true, false, some, [], ◌∷◌, arith}
use chat_rag.Idle.Tracker.{IdleTracker}
use chat_rag.Idle.Timer.{IdleTimer, running, halted, per_idle_timeout}
use chat_rag.Idle.Timer
use chat_rag.Idle.Watch.{
  Step, expires, expire, event_of, System, selecting, received, captured, is_deciding, reading,
  charging, cancelling, token, events, Reach, here, next, on_timer, resets, handle,
}
use chat_rag.Idle.Watch.Safety.{
  IsSound, IsKeptAlive, IsFrozen, Reach-IsSound, Reach-IsKeptAlive, Reach-IsFrozen,
}
use chat_rag.Idle.Watch.Only.{is_quiet}
use chat_rag.Idle.Watch.Quiet.{timeout_comes}
use chat_rag.Idle.Watch.Race.{reset_makes_stale, IsTimedOut, reset_race, first_token_race}

abbrev tracker : IdleTracker
tracker = record { initial_budget = pos 12; remaining_budget = pos 10; last_reset_time = 0 }

abbrev timer : IdleTimer
timer = record {
  cancelled = false;
  per_idle = pos 5;
  tracker = tracker;
  timer = some running;
  reason = per_idle_timeout;
  stopped = false;
  last_reset_time = 0;
  idle_start_time = 0;
  reset_count = 0;
  generation = 0;
  first_token_received = false;
  timed_out = false;
}

abbrev at_start : System
at_start = record { it = timer; place = selecting }

abbrev streaming : System
streaming = record at_start { it = record timer { first_token_received = true } }

abbrev closed : System
closed = record at_start { it = record timer { stopped = true } }

abbrev past_receive : System
past_receive = record { it = record timer { timer = some halted }; place = received }

-- One reset.
abbrev after_reset : System → System
after_reset s = on_timer (Timer.reset 7) s

reset_reached : (s : System) → is_deciding s.place ≡ false → Reach s (after_reset s)
reset_reached s q = next here (resets s 7 q)

at_start-IsSound : IsSound at_start
at_start-IsSound = record {
  window = omega arith;
  budget = record { nonneg = omega arith; bounded = omega arith };
}

Reach-IsSound_example : IsSound (after_reset at_start)
Reach-IsSound_example = Reach-IsSound at_start-IsSound (reset_reached at_start refl)

Reach-IsKeptAlive_example : IsKeptAlive streaming (after_reset streaming)
Reach-IsKeptAlive_example = Reach-IsKeptAlive refl refl (reset_reached streaming refl)

Reach-IsFrozen_example : IsFrozen closed (after_reset closed)
Reach-IsFrozen_example = Reach-IsFrozen refl refl (reset_reached closed refl)

reset_makes_stale_example :
    ((handle 0 (after_reset past_receive)).it ≡ (after_reset past_receive).it)
    × ((handle 0 (after_reset past_receive)).place ≡ selecting)
reset_makes_stale_example = reset_makes_stale past_receive 7 0 refl (omega arith) here

abbrev expired_run : Reach at_start (expire at_start)
expired_run = next here (expires at_start running refl refl)

timeout_comes_example :
    (length (events expired_run) ≤ 6)
    × (IsTimedOut tracker (pos 5) (expire at_start)
        ⊎ ((u : System) × (st : Step (expire at_start) u) × (is_quiet (event_of st) ≡ true)))
timeout_comes_example = timeout_comes at_start refl refl refl refl refl expired_run (refl, tt)

reset_race_example :
    let fresh = after_reset past_receive in
    (t : System) × (r : Reach fresh t) × (events r ≡ reading ∷ charging ∷ cancelling ∷ [])
    × IsTimedOut fresh.it.tracker (pos 5) t
reset_race_example = reset_race past_receive 7 refl refl refl

abbrev due : System
due = record { it = record timer { timer = some halted }; place = captured 0 }

token_too_late :
    (t : System) × (r : Reach due t) × (events r ≡ charging ∷ token ∷ cancelling ∷ [])
    × (t.it.first_token_received ≡ true)
    × IsTimedOut tracker (pos 5) t
token_too_late = first_token_race due refl refl refl
