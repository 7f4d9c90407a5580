-- ===== src/Idle/Watch.antt =====
-- The goroutine `watch` beside the methods that the request calls: all their interleavings.
pub mod Safety
pub mod Race
pub mod Only
pub mod Quiet
use chat_rag.Common.{if◌then◌else◌, ℕ, ◌≡◌, Bool, true, false, none, some, List, [], ◌∷◌, ◌++◌}
use chat_rag.Idle.Timer
use chat_rag.Idle.Timer.{IdleTimer, GoTimer, halted}

-- Where `watch` is: in the `select`, past the receive from the timer's channel and before the lock,
-- past the lock with the generation that it read, in `handleTimeout` past the read of a flag that was
-- not set, with `it.mu` held, or gone.
pub data Place : Type 0 where
  selecting : Place
  received : Place
  captured : ℕ → Place
  deciding : Place
  gone : Place

pub record System : Type 0 where
  pub it : IdleTimer
  pub place : Place

-- `NewIdleTimer`, which starts `watch` only where it makes a timer.
unfoldable pub start : IdleTimer → System
start it = record { it = it; place = elim it.timer [ none ↦ gone | some _ ↦ selecting ] }

-- The runtime: an armed timer expires.
pub expire : System → System
expire s = record s { it = record s.it { timer = some (record { armed = false; pending = true }) } }

-- `case <-it.timer.C`.
pub receive : System → System
receive s = record { it = record s.it { timer = some halted }; place = received }

-- The locked lines after it: `capturedGen := it.generation; stopped := it.stopped`.
pub capture : System → System
capture s = record s { place = if s.it.stopped then gone else captured s.it.generation }

-- `it.handleTimeout(capturedGen)` up to the read of the flag, and round the loop if it returns there.
pub handle : ℕ → System → System
unfolding Timer.charge
handle g s =
    let after = Timer.charge g s.it in
    record { it = after.1; place = if after.0 then deciding else selecting }

-- The rest of it, and round the loop.
pub give_up : System → System
unfolding Timer.time_out
give_up s = record { it = Timer.time_out s.it; place = selecting }

-- `case <-it.ctx.Done()`.
pub finish : System → System
finish s = record {
  it = record s.it { timer = elim s.it.timer [ none ↦ none | some _ ↦ some halted ] };
  place = gone;
}

abbrev pub on_timer : (IdleTimer → IdleTimer) → System → System
on_timer f s = record s { it = f s.it }

-- `handleTimeout` has read the flag and still holds `it.mu`.
abbrev pub is_deciding : Place → Bool
is_deciding deciding = true
is_deciding _ = false

-- One step of the goroutine, of the runtime, or of the request, which waits for `it.mu` in `Reset`
-- and `Stop` but not in `SetFirstTokenReceived`. That the parent's context is done, or that the
-- request calls the cancel function, is no step here.
pub data Step : System → System → Type 0 where
  expires : (s : System) (t : GoTimer) → s.it.timer ≡ some t → t.armed ≡ true → Step s (expire s)
  receives :
      (s : System) (t : GoTimer)
      → s.place ≡ selecting
      → s.it.timer ≡ some t
      → t.pending ≡ true
      → Step s (receive s)
  captures : (s : System) → s.place ≡ received → Step s (capture s)
  handles : (s : System) (g : ℕ) → s.place ≡ captured g → Step s (handle g s)
  gives_up : (s : System) → s.place ≡ deciding → Step s (give_up s)
  finishes : (s : System) → s.place ≡ selecting → s.it.cancelled ≡ true → Step s (finish s)
  resets :
      (s : System) (now : ℕ) → is_deciding s.place ≡ false → Step s (on_timer (Timer.reset now) s)
  stops : (s : System) → is_deciding s.place ≡ false → Step s (on_timer Timer.stop s)
  first_token : (s : System) → Step s (on_timer Timer.set_first_token_received s)

pub data Reach (s : System) : System → Type 0 where
  here : Reach s s
  next : {t u : System} → Reach s t → Step t u → Reach s u

-- What each step of a run was.
pub data Event : Type 0 where
  expiry receipt reading charging cancelling leaving resetting stopping token : Event

abbrev pub event_of : {s t : System} → Step s t → Event
event_of (expires s t e a) = expiry
event_of (receives s t p e a) = receipt
event_of (captures s p) = reading
event_of (handles s g p) = charging
event_of (gives_up s p) = cancelling
event_of (finishes s p c) = leaving
event_of (resets s now p) = resetting
event_of (stops s p) = stopping
event_of (first_token s) = token

abbrev pub events : {s t : System} → Reach s t → List Event
events here = []
events (next r st) = events r ++ (event_of st ∷ [])
