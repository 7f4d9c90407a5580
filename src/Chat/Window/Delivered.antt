-- ===== src/Chat/Window/Delivered.antt =====
-- A whole stream of internal/logic/chat.go: nothing that arrived is lost or reordered.
use chat_rag.Common.{
  leb, if◌then◌else◌, Bool-cases, length, drop, is_empty, All, length-append, is_empty→nil,
  append_assoc, append_nil, concat, concat-append, Text, text_eq, text_eq_refl, has_prefix, ℕ, ◌≡◌,
  refl, sym, ap, ◌∙◌, subst, ◌⊎◌, inl, inr, Bool, true, false, not, ◌&&◌, Option, none, some, List,
  [], ◌∷◌, ◌++◌, arith,
}
use chat_rag.Types.{Fields}
use chat_rag.Chat.Chunks.{
  no_data, chunk_data, Response, StreamingData, extract_streaming_data, done_mark, data_prefix,
}
use chat_rag.Chat.Window.{
  line, chunk, StreamState, ok, StreamEnv, send_raw_line, send_stream_content, committed_state,
  start_content, push, detect, slide, learned, handle_stream_chunk, process_stream,
  response_or_zero,
}
use chat_rag.Chat.Window.Invariant.{Leaves-write, Running, Leaves-slide, Leaves-detect}
use chat_rag.Chat.Window.Leaves.{
  text_sent, Leaves, Leaves-and_then, Leaves-mono, delivered, delivered-chunk, has_response,
  text_sent-line,
}

-- Before the first token.
abbrev pub Waiting : Text → StreamState → Type 0
Waiting c s =
    (s.window_size ≡ 6)
    × (s.first_token ≡ true)
    × (c ≡ [])
    × (s.full_content ≡ [])
    × (s.window ≡ [])
    × (text_sent s.sent ≡ [])

abbrev pub Arrived : Text → StreamState → Type 0
Arrived c s = Waiting c s ⊎ Running c c 5 s

abbrev pub content_of_line : (Text → Option Fields) → Text → Text
content_of_line parse l = (extract_streaming_data parse l).content

-- The contents of the lines.
abbrev pub contents : (Text → Option Fields) → List Text → Text
contents parse [] = []
contents parse (l ∷ ls) = content_of_line parse l ++ contents parse ls

abbrev line_data : Bool → Bool → Option Fields → StreamingData
line_data a b o =
    if a
    then no_data
    else if b
    then record { content = done_mark; usage = none; response = none }
    else chunk_data o

-- A line with a content is a chunk.
response_of_content :
    (parse : Text → Option Fields) (l : Text)
    → is_empty (extract_streaming_data parse l).content ≡ false
    → text_eq (content_of_line parse l) done_mark ≡ false
    → has_response (extract_streaming_data parse l).response ≡ true
unfolding extract_streaming_data
response_of_content parse l q e =
    by_tests (not (has_prefix l data_prefix)) (text_eq (drop 6 l) done_mark) (parse (drop 6 l)) q e
  where
    by_tests :
        (a b : Bool) (o : Option Fields)
        → is_empty (line_data a b o).content ≡ false
        → text_eq (line_data a b o).content done_mark ≡ false
        → has_response (line_data a b o).response ≡ true
    by_tests true b o q e = cc
    by_tests false true o q e = cc (e, text_eq_refl done_mark)
    by_tests false false none q e = cc
    by_tests false false (some parsed) q e = refl

known_response :
    (d : StreamingData) (s : StreamState)
    → has_response d.response ≡ true
    → has_response (learned d s).response ≡ true
known_response d s h = by_response d.response h
  where
    by_response :
        (o : Option Response)
        → has_response o ≡ true
        → has_response (elim o [ none ↦ s.response | some r ↦ some r ]) ≡ true
    by_response none h = cc
    by_response (some r) h = refl

pub kept_response :
    (o p : Option Response)
    → has_response p ≡ true
    → has_response (elim o [ none ↦ p | some r ↦ some r ]) ≡ true
kept_response none p h = h
kept_response (some r) p h = refl

Arrived-learned :
    (c : Text) (d : StreamingData) (s : StreamState) → Arrived c s → Arrived c (learned d s)
Arrived-learned c d s (inl w) = inl w
Arrived-learned c d s (inr h) =
    inr (h.0, h.1, h.2, h.3, h.4, h.5, kept_response d.response s.response h.6)

module _ {F : Type 0} (env : StreamEnv F) where
  Leaves-start_content :
      (c x : Text) (s : StreamState)
      → text_eq x done_mark ≡ false
      → has_response s.response ≡ true
      → Arrived c s
      → Leaves (Running c c 5) (start_content env x s)
  unfolding start_content send_stream_content concat
  Leaves-start_content c x s e known (inl (size, first, none_yet, full, window, sent)) =
      rw (first, e)
        (Leaves-write env (Running c c 5) (chunk (response_or_zero s.response) (10 ∷ []))
          (committed_state env s)
          (
            size,
            refl,
            refl,
            full ∙ sym none_yet,
            delivered-chunk s.sent (response_or_zero s.response) (10 ∷ []) (concat s.window)
                ∙ rw (sent, window, none_yet) refl,
            λ _. rw window refl,
            known,
          ))
  Leaves-start_content c x s e known (inr h) =
      subst
        (λ b. Leaves (Running c c 5) (
          if b && not (text_eq x done_mark)
          then send_stream_content env (10 ∷ []) (committed_state env s)
          else ok s))
        (sym h.1) h

  delivered-push : (x : Text) (s : StreamState) → delivered (push x s) ≡ delivered s ++ x
  unfolding concat
  delivered-push x s =
      ap (λ l. text_sent s.sent ++ l)
        (concat-append s.window (x ∷ []) ∙ ap (λ l. concat s.window ++ l) (append_nil x))
      ∙ sym (append_assoc (text_sent s.sent) (concat s.window) x)

  few-push :
      (w : List Text) (x : Text) → leb (length w) 5 ≡ true → leb (length (w ++ x ∷ [])) 6 ≡ true
  few-push w x h = ground (arith, length-append w (x ∷ []))

  Running-push :
      (c x : Text) (s : StreamState)
      → text_eq x done_mark ≡ false
      → Running c c 5 s
      → Running (c ++ x) (c ++ x) 6 (push x s)
  Running-push c x s e h = (
    h.0,
    h.1,
    h.2,
    rw (e, h.3) refl,
    delivered-push x s ∙ ap (λ l. l ++ x) h.4,
    λ f. few-push s.window x (h.5 f),
    h.6,
  )

  Arrived-send_raw_line :
      (c l : Text) (s : StreamState) → Arrived c s → Leaves (Arrived c) (send_raw_line env l s)
  unfolding send_raw_line
  Arrived-send_raw_line c l s h = Leaves-write env (Arrived c) (line _) s (kept h)
    where
      kept :
          Arrived c s
          → Arrived c (record s {
            sent = s.sent ++ line (if has_prefix l data_prefix then l else data_prefix ++ l) ∷ [];
          })
      kept (inl (size, first, none_yet, full, window, sent)) =
          inl (size, first, none_yet, full, window, text_sent-line s.sent _ ∙ sent)
      kept (inr h) = inr (
        h.0,
        h.1,
        h.2,
        h.3,
        ap (λ t. t ++ concat s.window) (text_sent-line s.sent _) ∙ h.4,
        h.5,
        h.6,
      )

  Leaves-handle_stream_chunk :
      (c l : Text) (depth : ℕ) (s : StreamState)
      → text_eq (content_of_line env.parse l) done_mark ≡ false
      → Arrived c s
      → Leaves (Arrived (c ++ content_of_line env.parse l)) (handle_stream_chunk env depth l s)
  unfolding handle_stream_chunk
  Leaves-handle_stream_chunk c l depth s e h =
      let d : StreamingData = extract_streaming_data env.parse l in
      elim (Bool-cases (is_empty d.content)) [
        | inl q ↦ rw q (
            subst (λ x. Leaves (Arrived x) (send_raw_line env l (learned d s)))
              (sym (append_nil c) ∙ ap (λ x. c ++ x) (sym (is_empty→nil d.content q)))
              (Arrived-send_raw_line c l (learned d s) (Arrived-learned c d s h)))
        | inr q ↦ rw q (
            Leaves-and_then (Running c c 5) (Arrived (c ++ d.content))
              (start_content env d.content (learned d s)) _
              (Leaves-start_content c d.content (learned d s) e
                (known_response d s (response_of_content env.parse l q e))
                (Arrived-learned c d s h))
              (λ t r.
                Leaves-and_then (Running (c ++ d.content) (c ++ d.content) 6)
                  (Arrived (c ++ d.content)) (detect env depth (push d.content t)) (slide env)
                  (Leaves-detect env (c ++ d.content) (c ++ d.content) depth (push d.content t)
                    (Running-push c d.content t e r))
                  (λ u v.
                    Leaves-mono (Running (c ++ d.content) (c ++ d.content) 5)
                      (Arrived (c ++ d.content)) (slide env u) (λ w x. inr x)
                      (Leaves-slide env (c ++ d.content) (c ++ d.content) u v))))
      ]

  -- While a stream runs, what the client has received and what waits in the window are together the
  -- contents so far, after a newline once there is one; no step panics. The lines are those before
  -- the end mark.
  pub process_stream-Arrived :
      (depth : ℕ) (ls : List Text) (c : Text) (s : StreamState)
      → All (λ l. text_eq (content_of_line env.parse l) done_mark ≡ false) ls
      → Arrived c s
      → Leaves (Arrived (c ++ contents env.parse ls)) (process_stream env depth ls s)
  unfolding process_stream
  process_stream-Arrived depth [] c s n h = rw (append_nil c) h
  process_stream-Arrived depth (l ∷ ls) c s n h =
      let x : Text = content_of_line env.parse l in
      Leaves-and_then (Arrived (c ++ x)) (Arrived (c ++ (x ++ contents env.parse ls)))
        (handle_stream_chunk env depth l s) (process_stream env depth ls)
        (Leaves-handle_stream_chunk c l depth s n.0 h)
        (λ t r.
          subst (λ y. Leaves (Arrived y) (process_stream env depth ls t))
            (append_assoc c x (contents env.parse ls))
            (process_stream-Arrived depth ls (c ++ x) t n.1 r))
