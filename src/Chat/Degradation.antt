-- ===== src/Chat/Degradation.antt =====
-- Trying the models one after the other: `callWithDegradation` of internal/logic/chat.go.
pub mod Calls
pub mod Unique
pub mod Complete
use chat_rag.Common.{
  if◌then◌else◌, is_empty, any, pos, Text, text, text_eq, ℕ, suc, false, not, ◌||◌, Option, none,
  some, List, [], ◌∷◌,
}
use chat_rag.Chat.Errors.{Err, plain, is_canceled, is_degradation_switchable_error}
use chat_rag.Chat.Trace.{started, stopped, model_switch, blank, DegradationEvent}
use chat_rag.Chat.Retry.{
  Logic, Run, Reply, at_cancel_test, at_switch_test, note, call_model_with_retry,
}

-- The loop that builds `ordered`: neither empty names nor those in `seen`.
unfoldable pub unique_models : List Text → List Text → List Text
unique_models seen [] = []
unique_models seen (m ∷ ms) =
    let fresh = m ∷ unique_models (m ∷ seen) ms in
    let rest = unique_models seen ms in
    if is_empty m then rest else if any (text_eq m) seen then rest else fresh

module _ {R : Type 0} (l : Logic R) where
  -- The `i`-th model `m` was the last that is tried.
  abbrev pub stop : Text → ℕ → Text → Run → Run
  stop m i reason w =
      note l (record (blank stopped) { model = m; model_index = pos i; reason = reason }) w

  -- After `m`, the `i`-th model, the first of the list is tried, if there is one.
  abbrev pub switch_model : List Text → Text → ℕ → List Text → Run → Run
  switch_model ordered m i [] w = w
  switch_model ordered m i (n ∷ ns) w =
      note l
        (record (blank model_switch) {
          previous_model = m;
          model = n;
          model_index = pos (suc i);
          ordered_models = ordered;
          reason = text "previous_model_failed";
        })
        w

-- The loop over the models from the `i`-th on; `last_err` is its variable.
pub try_models :
    {R : Type 0} → Logic R → List Text → ℕ → List Text → Option Err → Run → Reply R × Run
try_models l ordered i [] last_err w = (record { response = none; err = last_err }, w)
try_models l ordered i (m ∷ ms) last_err w =
    let (reply, w1) = call_model_with_retry l m w in
    elim reply.err [
      | none ↦ (reply, w1)
      | some e ↦
          let failure : Reply _ = record { response = none; err = some e } in
          let rest = try_models l ordered (suc i) ms (some e) (switch_model l ordered m i ms w1) in
          if is_canceled e || l.canceled w1.called at_cancel_test
          then (failure, stop l m i (text "context_canceled") w1)
          else if not (is_degradation_switchable_error (l.canceled w1.called at_switch_test) e)
          then (failure, stop l m i (text "non_switchable_error") w1)
          else rest
    ]

abbrev pub first_of : List Text → Text
first_of [] = []
first_of (m ∷ _) = m

abbrev pub degradation_started : Text → List Text → DegradationEvent
degradation_started reason ordered = record (blank started) {
  model = first_of ordered;
  ordered_models = ordered;
  reason = reason;
}

abbrev pub refused : {R : Type 0} → Text → Reply R
refused message = record { response = none; err = some (plain message false) }

pub call_with_degradation : {R : Type 0} → Logic R → Run → Reply R × Run
call_with_degradation l w =
    let ordered = unique_models [] l.ordered_models in
    if is_empty l.ordered_models
    then (refused (text "degradation: ordered models is empty"), w)
    else if is_empty ordered
    then (refused (text "degradation: no valid model in order list"), w)
    else try_models l ordered 0 ordered none
        (note l (degradation_started (text "auto_mode") ordered) w)
