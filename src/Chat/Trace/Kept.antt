-- ===== src/Chat/Trace/Kept.antt =====
-- What a trace keeps of the events of a request.
use chat_rag.Common.{
  leb, if◌then◌else◌, Bool-cases, length, take, length-append, append_assoc, append_nil, Text, ℕ,
  zero, suc, ◌+◌, ◌≡◌, refl, sym, ap, ◌∙◌, inl, inr, true, false, List, [], ◌∷◌, ◌++◌, arith,
}
use chat_rag.Chat.Trace.{DegradationEvent, Trace, empty_trace, truncated, append_degradation_event}

module _ (sanitize : Text → Text) where
  -- The events of a request with models, one after the other.
  abbrev pub append_all : List DegradationEvent → Trace → Trace
  append_all [] t = t
  append_all (e ∷ es) t = append_all es (append_degradation_event sanitize true e t)

  abbrev stamped : ℕ → DegradationEvent → DegradationEvent
  stamped n e = record e { sequence = n; error_message = sanitize e.error_message }

  -- The events with their numbers from `n` on and their messages sanitized.
  abbrev pub numbered : ℕ → List DegradationEvent → List DegradationEvent
  numbered n [] = []
  numbered n (e ∷ es) = stamped n e ∷ numbered (suc n) es

  -- With room for `k` events before the mark of truncation.
  abbrev filled : ℕ → ℕ → List DegradationEvent → List DegradationEvent
  filled k n [] = []
  filled zero n (e ∷ es) = truncated n ∷ []
  filled (suc k) n (e ∷ es) = stamped n e ∷ filled k (suc n) es

  filled_lem :
      (k n : ℕ) (es : List DegradationEvent)
      → filled k n es ≡ (
          if leb (length es) k
          then numbered n es
          else numbered n (take k es) ++ (truncated (n + k) ∷ []))
  filled_lem k n [] = let fits : leb 0 k ≡ true = ground arith in rw fits refl
  filled_lem zero n (e ∷ es) =
      let over : leb (suc (length es)) 0 ≡ false = ground arith in
      let same : n ≡ n + 0 = omega arith in rw over (ap (λ m. truncated m ∷ []) same)
  filled_lem (suc k) n (e ∷ es) = elim (Bool-cases (leb (length es) k)) [
    | inl fits ↦
        let fits' : leb (suc (length es)) (suc k) ≡ true = ground arith in
        rw fits' (ap (λ r. stamped n e ∷ r) (filled_lem k (suc n) es ∙ rw fits refl))
    | inr over ↦
        let over' : leb (suc (length es)) (suc k) ≡ false = ground arith in
        let same : suc n + k ≡ n + suc k = omega arith in
        rw over' (
          ap (λ r. stamped n e ∷ r)
            (filled_lem k (suc n) es
              ∙ rw over (ap (λ m. numbered (suc n) (take k es) ++ (truncated m ∷ [])) same)))
  ]

  append_all-full :
      (es : List DegradationEvent) (t : Trace)
      → t.full ≡ true
      → leb 63 (length t.events) ≡ true
      → append_all es t ≡ t
  unfolding append_degradation_event
  append_all-full [] t f h = refl
  append_all-full (e ∷ es) t f h =
      let same : append_degradation_event sanitize true e t ≡ t = rw (h, f) refl in
      ap (append_all es) same ∙ append_all-full es t f h

  events-append_all_open :
      (k : ℕ) (es : List DegradationEvent) (t : Trace)
      → k + length t.events ≡ 63
      → t.full ≡ false
      → (append_all es t).events ≡ t.events ++ filled k (t.seq + 1) es
  unfolding append_degradation_event
  events-append_all_open k [] t h f = sym (append_nil t.events)
  events-append_all_open zero (e ∷ es) t h f =
      let marked : Trace = record {
        events = t.events ++ (truncated (t.seq + 1) ∷ []);
        seq = t.seq + 1;
        full = true;
      } in
      let at_end : leb 63 (length t.events) ≡ true = ground arith in
      let step : append_degradation_event sanitize true e t ≡ marked = rw (at_end, f) refl in
      let still : leb 63 (length marked.events) ≡ true =
        ground (arith, length-append t.events (truncated (t.seq + 1) ∷ [])) in
      ap (λ u. u.events) (ap (append_all es) step ∙ append_all-full es marked refl still)
  events-append_all_open (suc k) (e ∷ es) t h f =
      let added : Trace = record t {
        events = t.events ++ (stamped (t.seq + 1) e ∷ []);
        seq = t.seq + 1;
      } in
      let before : leb 63 (length t.events) ≡ false = ground arith in
      let step : append_degradation_event sanitize true e t ≡ added = rw before refl in
      let room : k + length added.events ≡ 63 =
        omega (arith, h, length-append t.events (stamped (t.seq + 1) e ∷ [])) in
      let next : suc (t.seq + 1) ≡ t.seq + 1 + 1 = omega arith in
      ap (λ u. (append_all es u).events) step
      ∙ events-append_all_open k es added room f
      ∙ append_assoc t.events (stamped (t.seq + 1) e ∷ []) (filled k (t.seq + 1 + 1) es)
      ∙ ap (λ m. t.events ++ (stamped (t.seq + 1) e ∷ filled k m es)) (sym next)

  -- The trace of a request with models holds all of its events while these are at most 63, in their
  -- order, numbered from one and with sanitized messages; of more it holds the first 63 and then, as
  -- the 64th and last, the mark of truncation.
  pub events-append_all :
      (es : List DegradationEvent)
      → (append_all es empty_trace).events ≡ (
          if leb (length es) 63
          then numbered 1 es
          else numbered 1 (take 63 es) ++ (truncated 64 ∷ []))
  events-append_all es = events-append_all_open 63 es empty_trace refl refl ∙ filled_lem 63 1 es
