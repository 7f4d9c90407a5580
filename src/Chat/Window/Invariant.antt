-- ===== src/Chat/Window/Invariant.antt =====
-- What was sent and what the window holds while a stream runs (internal/logic/chat.go).
use chat_rag.Common.{
  take-drop, ltb, leb, if◌then◌else◌, length, take, drop, append_nil, concat, Text, ℕ, ◌≡◌, refl,
  sym, ap, ◌∙◌, subst, Bool, true, false, not, ◌&&◌, Option, none, some, List, [], ◌∷◌, ◌++◌, arith,
}
use chat_rag.Tools.{GenericToolConfig}
use chat_rag.Tools.Executor.{detect_tools}
use chat_rag.Chat.Window.{
  Wire, chunk, StreamState, ok, broken, and_then, StreamEnv, write, send_stream_content,
  detected_state, with_window, cut_at, tool_named, detect_and_handle_tool, detect_in, detect,
  logged_window, send_oldest, slide, response_or_zero,
}
use chat_rag.Chat.Window.Leaves.{
  text_sent, Leaves, Leaves-and_then, delivered, delivered-chunk, has_response, shorter, and_left,
  and_right, few_enough, index-detect_tools, drop_none,
}

-- After the first token: `c` is recorded, `d` has arrived, and at most `n` contents wait.
abbrev pub Running : Text → Text → ℕ → StreamState → Type 0
Running c d n s =
    (s.window_size ≡ 6)
    × (s.first_token ≡ false)
    × (s.committed ≡ true)
    × (s.full_content ≡ c)
    × (delivered s ≡ 10 ∷ d)
    × (s.tool_detected ≡ false → leb (length s.window) n ≡ true)
    × (has_response s.response ≡ true)

module _ {F : Type 0} (env : StreamEnv F) where
  pub Leaves-write :
      (P : StreamState → Type 0) (w : Wire) (s : StreamState)
      → P (record s { sent = s.sent ++ w ∷ [] })
      → Leaves P (write env w s)
  unfolding write
  Leaves-write P w s h = by_test (env.write_ok s.sent)
    where
      by_test :
          (b : Bool) → Leaves P (if b then ok (record s { sent = s.sent ++ w ∷ [] }) else broken s)
      by_test true = h
      by_test false = tt

  Leaves-send_oldest :
      (c d : Text) (s : StreamState) (w : List Text)
      → s.window ≡ w
      → s.tool_detected ≡ false
      → leb 6 (length w) ≡ true
      → Running c d 6 s
      → Leaves (Running c d 5) (send_oldest env w s)
  unfolding send_oldest send_stream_content concat
  Leaves-send_oldest c d s [] e u l h = cc
  Leaves-send_oldest c d s (x ∷ xs) e u l h =
      let (size, first, committed, full, eq, few, known) = h in
      Leaves-and_then (λ t. Running c d 5 (with_window xs t)) (Running c d 5) _
        (λ t. ok (with_window xs t))
        (Leaves-write (λ t. Running c d 5 (with_window xs t))
          (chunk (response_or_zero s.response) x) (logged_window env s)
          (
            size,
            first,
            committed,
            full,
            delivered-chunk s.sent (response_or_zero s.response) x (concat xs)
                ∙ ap (λ l. text_sent s.sent ++ concat l) (sym e)
                ∙ eq,
            λ _. shorter xs (subst (λ l. leb (length l) 6 ≡ true) e (few u)),
            known,
          ))
        (λ t r. r)

  pub Leaves-slide :
      (c d : Text) (s : StreamState) → Running c d 6 s → Leaves (Running c d 5) (slide env s)
  unfolding slide
  Leaves-slide c d s h = by_test (not s.tool_detected && leb s.window_size (length s.window)) refl
    where
      by_test :
          (b : Bool)
          → (not s.tool_detected && leb s.window_size (length s.window)) ≡ b
          → Leaves (Running c d 5) (if b then send_oldest env s.window s else ok s)
      by_test true e =
          Leaves-send_oldest c d s s.window refl (and_left s.tool_detected _ e)
            (subst (λ n. leb n (length s.window) ≡ true) h.0 (and_right s.tool_detected _ e)) h
      by_test false e = (
        h.0,
        h.1,
        h.2,
        h.3,
        h.4,
        few_enough s.tool_detected s.window_size (length s.window) h.0 e (h.5),
        h.6,
      )

  Leaves-cut_at :
      (c d current : Text) (i : ℕ) (s : StreamState)
      → s.tool_detected ≡ true
      → current ≡ concat s.window
      → Running c d 6 s
      → Leaves (Running c d 6) (cut_at env current (some i) s)
  unfolding cut_at concat send_stream_content
  Leaves-cut_at c d current i s t e h = by_test (ltb 0 i) refl
    where
      by_test :
          (b : Bool)
          → ltb 0 i ≡ b
          → Leaves (Running c d 6) (
              and_then
                (if b then send_stream_content env (take i current) s else ok s)
                (λ t. ok (with_window (drop i current ∷ []) t)))
      by_test true q =
          Leaves-and_then (λ t. Running c d 6 (with_window (drop i current ∷ []) t)) (Running c d 6)
            _ (λ t. ok (with_window (drop i current ∷ []) t))
            (Leaves-write (λ t. Running c d 6 (with_window (drop i current ∷ []) t))
              (chunk (response_or_zero s.response) (take i current)) s
              (
                h.0,
                h.1,
                h.2,
                h.3,
                delivered-chunk s.sent (response_or_zero s.response) (take i current)
                      (drop i current ++ [])
                    ∙ ap (λ l. text_sent s.sent ++ l)
                        (ap (λ l. take i current ++ l) (append_nil (drop i current))
                          ∙ take-drop i current
                          ∙ e)
                    ∙ h.4,
                λ f. refl,
                h.6,
              ))
            (λ t r. r)
      by_test false q = (
        h.0,
        h.1,
        h.2,
        h.3,
        ap (λ l. text_sent s.sent ++ l) (append_nil (drop i current) ∙ drop_none i current q ∙ e)
            ∙ h.4,
        λ f. refl,
        h.6,
      )

  Leaves-detect_and_handle_tool :
      (c d : Text) (tools : List (GenericToolConfig F)) (s : StreamState)
      → Running c d 6 s
      → Leaves (Running c d 6) (detect_and_handle_tool env tools s)
  unfolding detect_and_handle_tool
  Leaves-detect_and_handle_tool c d tools s h = named (detect_tools tools (concat s.window)) refl
    where
      named :
          (o : Option Text)
          → detect_tools tools (concat s.window) ≡ o
          → Leaves (Running c d 6) (tool_named env (concat s.window) s o)
      named none e = h
      named (some name) e =
          let (i, found) = index-detect_tools tools (concat s.window) e in
          subst
            (λ o. Leaves (Running c d 6) (cut_at env (concat s.window) o (detected_state name s)))
            (sym found)
            (Leaves-cut_at c d (concat s.window) i (detected_state name s) refl refl
              (h.0, h.1, h.2, h.3, h.4, λ f. ground arith, h.6))

  pub Leaves-detect :
      (c d : Text) (depth : ℕ) (s : StreamState)
      → Running c d 6 s
      → Leaves (Running c d 6) (detect env depth s)
  unfolding detect
  Leaves-detect c d depth s h = by_test (not s.tool_detected && ltb 0 depth)
    where
      enabled :
          (o : Option (List (GenericToolConfig F))) → Leaves (Running c d 6) (detect_in env o s)
      enabled none = h
      enabled (some tools) = Leaves-detect_and_handle_tool c d tools s h

      by_test : (b : Bool) → Leaves (Running c d 6) (if b then detect_in env env.tools s else ok s)
      by_test true = enabled env.tools
      by_test false = h
