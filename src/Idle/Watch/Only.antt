-- ===== src/Idle/Watch/Only.antt =====
-- Which step of the runtime or the goroutine can come next.
use chat_rag.Common.{ℕ, ◌≡◌, refl, sym, ap, ◌∙◌, Bool, true, false, some, arith}
use chat_rag.Idle.Timer.{GoTimer, running, halted}
use chat_rag.Idle.Watch.{
  System, Place, selecting, received, captured, deciding, gone, Step, expires, receives, captures,
  handles, gives_up, finishes, resets, stops, first_token, expire, receive, capture, handle,
  give_up, finish, Event, resetting, stopping, token, event_of,
}

-- A step of the runtime or of the goroutine.
abbrev pub is_quiet : Event → Bool
is_quiet resetting = false
is_quiet stopping = false
is_quiet token = false
is_quiet _ = true

abbrev pub expired : GoTimer
expired = record { armed = false; pending = true }

pub only_expires :
    {t u : System} (st : Step t u)
    → is_quiet (event_of st) ≡ true
    → t.place ≡ selecting
    → t.it.timer ≡ some running
    → t.it.cancelled ≡ false
    → u ≡ expire t
only_expires (expires s g e a) q p r c = refl
only_expires (receives s g p' e a) q p r c = absurd (ground arith)
only_expires (captures s p') q p r c = absurd (ground arith)
only_expires (handles s g p') q p r c = absurd (ground arith)
only_expires (gives_up s p') q p r c = absurd (ground arith)
only_expires (finishes s p' c') q p r c = absurd (ground arith)
only_expires (resets s now d) q p r c = cc
only_expires (stops s d) q p r c = cc
only_expires (first_token s) q p r c = cc

pub only_receives :
    {t u : System} (st : Step t u)
    → is_quiet (event_of st) ≡ true
    → t.place ≡ selecting
    → t.it.timer ≡ some expired
    → t.it.cancelled ≡ false
    → u ≡ receive t
only_receives (expires s g e a) q p r c = absurd (ground arith)
only_receives (receives s g p' e a) q p r c = refl
only_receives (captures s p') q p r c = absurd (ground arith)
only_receives (handles s g p') q p r c = absurd (ground arith)
only_receives (gives_up s p') q p r c = absurd (ground arith)
only_receives (finishes s p' c') q p r c = absurd (ground arith)
only_receives (resets s now d) q p r c = cc
only_receives (stops s d) q p r c = cc
only_receives (first_token s) q p r c = cc

pub only_captures :
    {t u : System} (st : Step t u)
    → is_quiet (event_of st) ≡ true
    → t.place ≡ received
    → t.it.timer ≡ some halted
    → u ≡ capture t
only_captures (expires s g e a) q p r = absurd (ground arith)
only_captures (receives s g p' e a) q p r = absurd (ground arith)
only_captures (captures s p') q p r = refl
only_captures (handles s g p') q p r = absurd (ground arith)
only_captures (gives_up s p') q p r = absurd (ground arith)
only_captures (finishes s p' c') q p r = absurd (ground arith)
only_captures (resets s now d) q p r = cc
only_captures (stops s d) q p r = cc
only_captures (first_token s) q p r = cc

abbrev generation_at : Place → ℕ
generation_at (captured g) = g
generation_at _ = 0

pub only_handles :
    (k : ℕ) {t u : System} (st : Step t u)
    → is_quiet (event_of st) ≡ true
    → t.place ≡ captured k
    → t.it.timer ≡ some halted
    → u ≡ handle k t
only_handles k (expires s g e a) q p r = absurd (ground arith)
only_handles k (receives s g p' e a) q p r = absurd (ground arith)
only_handles k (captures s p') q p r = absurd (ground arith)
only_handles k (handles s g p') q p r = ap (λ g. handle g s) (ap generation_at (sym p' ∙ p))
only_handles k (gives_up s p') q p r = absurd (ground arith)
only_handles k (finishes s p' c') q p r = absurd (ground arith)
only_handles k (resets s now d) q p r = cc
only_handles k (stops s d) q p r = cc
only_handles k (first_token s) q p r = cc

pub only_gives_up :
    {t u : System} (st : Step t u)
    → is_quiet (event_of st) ≡ true
    → t.place ≡ deciding
    → t.it.timer ≡ some halted
    → u ≡ give_up t
only_gives_up (expires s g e a) q p r = absurd (ground arith)
only_gives_up (receives s g p' e a) q p r = absurd (ground arith)
only_gives_up (captures s p') q p r = absurd (ground arith)
only_gives_up (handles s g p') q p r = absurd (ground arith)
only_gives_up (gives_up s p') q p r = refl
only_gives_up (finishes s p' c') q p r = absurd (ground arith)
only_gives_up (resets s now d) q p r = cc
only_gives_up (stops s d) q p r = cc
only_gives_up (first_token s) q p r = cc

pub only_finishes :
    {t u : System} (st : Step t u)
    → is_quiet (event_of st) ≡ true
    → t.place ≡ selecting
    → t.it.timer ≡ some halted
    → t.it.cancelled ≡ true
    → u ≡ finish t
only_finishes (expires s g e a) q p r c = absurd (ground arith)
only_finishes (receives s g p' e a) q p r c = absurd (ground arith)
only_finishes (captures s p') q p r c = absurd (ground arith)
only_finishes (handles s g p') q p r c = absurd (ground arith)
only_finishes (gives_up s p') q p r c = absurd (ground arith)
only_finishes (finishes s p' c') q p r c = refl
only_finishes (resets s now d) q p r c = cc
only_finishes (stops s d) q p r c = cc
only_finishes (first_token s) q p r c = cc

pub none_is_left :
    {t u : System} (st : Step t u)
    → is_quiet (event_of st) ≡ true
    → t.place ≡ gone
    → t.it.timer ≡ some halted
    → true ≡ false
none_is_left (expires s g e a) q p r = absurd (ground arith)
none_is_left (receives s g p' e a) q p r = absurd (ground arith)
none_is_left (captures s p') q p r = absurd (ground arith)
none_is_left (handles s g p') q p r = absurd (ground arith)
none_is_left (gives_up s p') q p r = absurd (ground arith)
none_is_left (finishes s p' c') q p r = absurd (ground arith)
none_is_left (resets s now d) q p r = cc
none_is_left (stops s d) q p r = cc
none_is_left (first_token s) q p r = cc
