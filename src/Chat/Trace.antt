-- ===== src/Chat/Trace.antt =====
-- The degradation trace of a request (`DegradationEvent` of internal/model/log.go,
-- `appendDegradationEvent` of internal/logic/chat.go). Times are left out.
pub mod Kept
use chat_rag.Common.{
  leb, if◌then◌else◌, Bool-cases, length, length-append, ℤ, pos, negsuc, Text, text, ℕ, suc, ◌+◌,
  ◌-◌, ◌≤◌, ◌≡◌, refl, inl, inr, Bool, true, false, not, Option, none, List, [], ◌∷◌, ◌++◌, arith,
}
use chat_rag.Chat.Errors.{ErrCode}

pub data EventType : Type 0 where
  started attempt_started attempt_failed retry_scheduled : EventType
  retry_skipped_insufficient_budget model_switch stopped model_succeeded trace_truncated : EventType

-- `Attempt` and `MaxRetries` count from one; the pointers are `none` where they are nil.
pub record DegradationEvent : Type 0 where
  pub sequence : ℕ
  pub event : EventType
  pub model : Text
  pub previous_model : Text
  pub ordered_models : List Text
  pub model_index : ℤ
  pub attempt : ℕ
  pub max_retries : ℤ
  pub retryable : Option Bool
  pub switchable : Option Bool
  pub status_code : ℕ
  pub error_code : Option ErrCode
  pub error_type : Text
  pub error_message : Text
  pub reason : Text
  pub compatibility_signal : Bool

-- A `DegradationEvent` with the zero values of Go.
abbrev pub blank : EventType → DegradationEvent
blank e = record {
  sequence = 0;
  event = e;
  model = [];
  previous_model = [];
  ordered_models = [];
  model_index = pos 0;
  attempt = 0;
  max_retries = pos 0;
  retryable = none;
  switchable = none;
  status_code = 0;
  error_code = none;
  error_type = [];
  error_message = [];
  reason = [];
  compatibility_signal = false;
}

abbrev pub max_degradation_trace_events : ℕ
max_degradation_trace_events = 64

-- `degradationTrace`, `degradationTraceSeq` and `degradationTraceFull`.
pub record Trace : Type 0 where
  pub events : List DegradationEvent
  pub seq : ℕ
  pub full : Bool

abbrev pub empty_trace : Trace
empty_trace = record { events = []; seq = 0; full = false }

abbrev pub truncated : ℕ → DegradationEvent
truncated seq = record (blank trace_truncated) {
  sequence = seq;
  model_index = negsuc 0;
  reason = text "trace_event_limit_reached";
}

-- `has_models` is `len(l.orderedModels) > 0`, and `sanitize` is `sanitizeDegradationErrorMessage`.
unfoldable pub append_degradation_event :
    (sanitize : Text → Text) (has_models : Bool) → DegradationEvent → Trace → Trace
append_degradation_event sanitize has_models e t =
    let full' : Trace = record {
      events = t.events ++ truncated (t.seq + 1) ∷ [];
      seq = t.seq + 1;
      full = true;
    } in
    if not has_models
    then t
    else if leb (max_degradation_trace_events - 1) (length t.events)
    then (if t.full then t else full')
    else record t {
      events =
          t.events
          ++ record e { sequence = t.seq + 1; error_message = sanitize e.error_message } ∷ [];
      seq = t.seq + 1;
    }

-- The events are numbered from `n` on.
abbrev pub IsNumberedFrom : ℕ → List DegradationEvent → Type 0
IsNumberedFrom n [] = Unit
IsNumberedFrom n (e ∷ es) = (e.sequence ≡ n) × IsNumberedFrom (suc n) es

-- A trace has at most 64 events, numbered from one, and 64 only where it is full.
pub record IsBounded (t : Trace) : Type 0 where
  pub numbered : IsNumberedFrom 1 t.events
  pub counted : t.seq ≡ length t.events
  pub open_room : t.full ≡ false → length t.events ≤ 63
  pub filled : t.full ≡ true → length t.events ≡ 64

IsNumberedFrom-append :
    (n : ℕ) (es : List DegradationEvent) (e : DegradationEvent)
    → IsNumberedFrom n es
    → e.sequence ≡ length es + n
    → IsNumberedFrom n (es ++ e ∷ [])
IsNumberedFrom-append n [] e h q = (omega (arith, q), tt)
IsNumberedFrom-append n (x ∷ xs) e h q =
    (h.0, IsNumberedFrom-append (suc n) xs e h.1 (omega (arith, q)))

-- Appending an event keeps a trace bounded.
pub append-IsBounded :
    (sanitize : Text → Text) (has_models : Bool) (e : DegradationEvent) (t : Trace)
    → IsBounded t
    → IsBounded (append_degradation_event sanitize has_models e t)
unfolding append_degradation_event
append-IsBounded sanitize has_models e t b = elim (Bool-cases has_models) [
  | inr off ↦ rw off b
  | inl on ↦ rw on (elim (Bool-cases (leb 63 (length t.events))) [
    | inl at_end ↦ rw at_end (at_limit at_end t.full refl)
    | inr before ↦ rw before (next before)
  ])
]
  where
    e' : DegradationEvent
    e' = record e { sequence = t.seq + 1; error_message = sanitize e.error_message }

    at_limit :
        leb 63 (length t.events) ≡ true
        → (x : Bool) → t.full ≡ x
        → IsBounded (
            if x then t else record {
              events = t.events ++ truncated (t.seq + 1) ∷ [];
              seq = t.seq + 1;
              full = true;
            })
    at_limit h true f = b
    at_limit at_end false f = record {
      numbered = IsNumberedFrom-append 1 t.events _ b.numbered (omega (arith, b.counted));
      counted = omega (arith, b.counted, length-append t.events (truncated (t.seq + 1) ∷ []));
      open_room = λ h. cc;
      filled =
          λ h. ground (arith, b.open_room f, length-append t.events (truncated (t.seq + 1) ∷ []));
    }

    next :
        leb 63 (length t.events) ≡ false
        → IsBounded (record t { events = t.events ++ e' ∷ []; seq = t.seq + 1 })
    next before = record {
      numbered = IsNumberedFrom-append 1 t.events e' b.numbered (omega (arith, b.counted));
      counted = omega (arith, b.counted, length-append t.events (e' ∷ []));
      open_room = λ h. ground (arith, length-append t.events (e' ∷ []));
      filled = λ h. absurd (ground (arith, b.filled h));
    }
