-- ===== src/Chat/Window/Ended.antt =====
-- The line with the end mark (internal/logic/chat.go).
use chat_rag.Common.{
  ltb, leb, if◌then◌else◌, length, take, drop, is_empty, append_nil, concat, Text, text_eq,
  text_eq_refl, replace_from, replace_all, ℕ, ◌≡◌, refl, sym, ap, ◌∙◌, subst, Bool, true, false,
  not, ◌&&◌, Option, none, some, List, [], ◌∷◌, ◌++◌,
}
use chat_rag.Tools.{GenericToolConfig}
use chat_rag.Tools.Executor.{detect_tools}
use chat_rag.Chat.Chunks.{Response, StreamingData, extract_streaming_data, done_mark}
use chat_rag.Chat.Window.{
  Wire, chunk, StreamState, Step, ok, broken, panicked, and_then, StreamEnv, send_raw_line,
  send_stream_content, committed_state, start_content, push, detected_state, with_window, cut_at,
  tool_named, detect_and_handle_tool, detect_in, detect, logged_window, send_oldest, slide, learned,
  handle_stream_chunk, response_or_zero, without_done, is_blank,
}
use chat_rag.Chat.Window.Invariant.{Leaves-write, Running}
use chat_rag.Chat.Window.Delivered.{kept_response, content_of_line}
use chat_rag.Chat.Window.Leaves.{
  text_sent, text_sent-append, Leaves, Leaves-and_then, delivered-chunk, has_response, and_left,
  and_right, index-detect_tools,
}

pub Leaves-both :
    (P Q : StreamState → Type 0) (r : Step) → Leaves P r → Leaves Q r → Leaves (λ s. P s × Q s) r
Leaves-both P Q (ok s) p q = (p, q)
Leaves-both P Q (broken s) p q = tt
Leaves-both P Q (panicked s) p q = p

-- The window ends with the end mark; without it, sent and waiting contents are those that arrived.
abbrev pub AtEnd : Text → List Text → StreamState → Type 0
AtEnd c w s = (s.window ≡ w ++ done_mark ∷ []) × (text_sent s.sent ++ concat w ≡ 10 ∷ c)

abbrev pub Ended : Text → StreamState → Type 0
Ended c s =
    (s.window_size ≡ 6)
    × (s.full_content ≡ c)
    × (has_response s.response ≡ true)
    × (s.tool_detected ≡ false → (w : List Text) × AtEnd c w s)

pub without_done-done : (w : List Text) → without_done (w ++ done_mark ∷ []) ≡ w
unfolding without_done
without_done-done [] = rw (text_eq_refl done_mark) refl
without_done-done (x ∷ []) = rw (text_eq_refl done_mark) refl
without_done-done (x ∷ y ∷ w) = ap (λ l. x ∷ l) (without_done-done (y ∷ w))

pub both_false : (b : Bool) → (b && false) ≡ false
both_false true = refl
both_false false = refl

pub sent_last :
    (ws : List Wire) (r : Response) (x : Text)
    → text_sent (ws ++ chunk r x ∷ []) ≡ text_sent ws ++ x
sent_last ws r x = text_sent-append ws (chunk r x ∷ []) ∙ ap (λ l. text_sent ws ++ l) (append_nil x)

pub never : {A : Type 0} (b : Bool) → b ≡ true → b ≡ false → A
never true t f = cc
never false t f = cc

pub blank_nil : is_blank [] ≡ true
unfolding replace_all replace_from
blank_nil = refl

module _ {F : Type 0} (env : StreamEnv F) where
  pub Ended-cut_at :
      (c current : Text) (i : ℕ) (s : StreamState)
      → s.tool_detected ≡ true
      → (s.window_size ≡ 6)
      → (s.full_content ≡ c)
      → (has_response s.response ≡ true)
      → Leaves (Ended c) (cut_at env current (some i) s)
  unfolding cut_at send_stream_content
  Ended-cut_at c current i s t size full known = by_test (ltb 0 i)
    where
      by_test :
          (b : Bool)
          → Leaves (Ended c) (
              and_then
                (if b then send_stream_content env (take i current) s else ok s)
                (λ t. ok (with_window (drop i current ∷ []) t)))
      by_test true =
          Leaves-and_then (λ t. Ended c (with_window (drop i current ∷ []) t)) (Ended c) _
            (λ t. ok (with_window (drop i current ∷ []) t))
            (Leaves-write env (λ t. Ended c (with_window (drop i current ∷ []) t))
              (chunk (response_or_zero s.response) (take i current)) s
              (size, full, known, λ f. never s.tool_detected t f))
            (λ t r. r)
      by_test false = (size, full, known, λ f. never s.tool_detected t f)

  pub Ended-detect :
      (c : Text) (depth : ℕ) (s : StreamState) → Ended c s → Leaves (Ended c) (detect env depth s)
  unfolding detect detect_and_handle_tool
  Ended-detect c depth s h = by_test (not s.tool_detected && ltb 0 depth)
    where
      named :
          (tools : List (GenericToolConfig F)) (o : Option Text)
          → detect_tools tools (concat s.window) ≡ o
          → Leaves (Ended c) (tool_named env (concat s.window) s o)
      named tools none e = h
      named tools (some name) e =
          let (i, found) = index-detect_tools tools (concat s.window) e in
          subst (λ o. Leaves (Ended c) (cut_at env (concat s.window) o (detected_state name s)))
            (sym found)
            (Ended-cut_at c (concat s.window) i (detected_state name s) refl h.0 h.1 h.2)

      enabled : (o : Option (List (GenericToolConfig F))) → Leaves (Ended c) (detect_in env o s)
      enabled none = h
      enabled (some tools) = named tools (detect_tools tools (concat s.window)) refl

      by_test : (b : Bool) → Leaves (Ended c) (if b then detect_in env env.tools s else ok s)
      by_test true = enabled env.tools
      by_test false = h

  pub Ended-send_oldest :
      (c : Text) (s : StreamState) (w : List Text)
      → s.window_size ≡ 6
      → s.full_content ≡ c
      → has_response s.response ≡ true
      → leb 6 (length (w ++ done_mark ∷ [])) ≡ true
      → AtEnd c w s
      → Leaves (Ended c) (send_oldest env (w ++ done_mark ∷ []) s)
  unfolding send_oldest send_stream_content concat
  Ended-send_oldest c s [] size full known l h = cc
  Ended-send_oldest c s (x ∷ w) size full known l h =
      Leaves-and_then (λ t. Ended c (with_window (w ++ done_mark ∷ []) t)) (Ended c) _
        (λ t. ok (with_window (w ++ done_mark ∷ []) t))
        (Leaves-write env (λ t. Ended c (with_window (w ++ done_mark ∷ []) t))
          (chunk (response_or_zero s.response) x) (logged_window env s)
          (
            size,
            full,
            known,
            λ _. (
              w,
              (refl, delivered-chunk s.sent (response_or_zero s.response) x (concat w) ∙ h.1),
            ),
          ))
        (λ t r. r)

  pub Ended-slide : (c : Text) (s : StreamState) → Ended c s → Leaves (Ended c) (slide env s)
  unfolding slide
  Ended-slide c s h = by_test (not s.tool_detected && leb s.window_size (length s.window)) refl
    where
      by_test :
          (b : Bool)
          → (not s.tool_detected && leb s.window_size (length s.window)) ≡ b
          → Leaves (Ended c) (if b then send_oldest env s.window s else ok s)
      by_test true e =
          let (w, at_end) = h.3 (and_left s.tool_detected _ e) in
          let long : leb 6 (length s.window) ≡ true =
            subst (λ n. leb n (length s.window) ≡ true) h.0 (and_right s.tool_detected _ e) in
          subst (λ l. Leaves (Ended c) (send_oldest env l s)) (sym at_end.0)
            (Ended-send_oldest c s w h.0 h.1 h.2
              (subst (λ l. leb 6 (length l) ≡ true) at_end.0 long) at_end)
      by_test false e = h

  pub started : (x : Text) (s : StreamState) → s.first_token ≡ false → start_content env x s ≡ ok s
  unfolding start_content
  started x s e =
      ap
        (λ b.
          if b && not (text_eq x done_mark)
          then send_stream_content env (10 ∷ []) (committed_state env s)
          else ok s)
        e

  -- The line with the end mark.
  pub Ended-handle_stream_chunk :
      (c l : Text) (depth : ℕ) (s : StreamState)
      → content_of_line env.parse l ≡ done_mark
      → Running c c 5 s
      → Leaves (Ended c) (handle_stream_chunk env depth l s)
  unfolding handle_stream_chunk
  Ended-handle_stream_chunk c l depth s e h =
      let d : StreamingData = extract_streaming_data env.parse l in
      let t : StreamState = push done_mark (learned d s) in
      subst
        (λ x. Leaves (Ended c) (
          if is_empty x
          then send_raw_line env l (learned d s)
          else and_then (start_content env x (learned d s))
              (λ u. and_then (detect env depth (push x u)) (slide env))))
        (sym e)
        (subst
          (λ r.
            Leaves (Ended c)
              (and_then r (λ u. and_then (detect env depth (push done_mark u)) (slide env))))
          (sym (started done_mark (learned d s) h.1))
          (Leaves-and_then (Ended c) (Ended c) (detect env depth t) (slide env)
            (Ended-detect c depth t (
              h.0,
              rw (text_eq_refl done_mark) h.3,
              kept_response d.response s.response h.6,
              λ _. (s.window, (refl, h.4)),
            ))
            (Ended-slide c)))
