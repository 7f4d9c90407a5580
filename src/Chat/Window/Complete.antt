-- ===== src/Chat/Window/Complete.antt =====
-- The end of a stream of internal/logic/chat.go: the line with the end mark, and
-- `completeStreamResponse`.
use chat_rag.Common.{
  if◌then◌else◌, is_empty, All, is_empty-append, concat, Text, text_eq, ℕ, ◌≡◌, refl, sym, ap, ◌∙◌,
  subst, inl, inr, true, false, Option, none, some, List, [], ◌∷◌, ◌++◌,
}
use chat_rag.Chat.Chunks.{Response, done_mark}
use chat_rag.Chat.Window.{
  line, chunk, StreamState, Step, ok, broken, panicked, and_then, StreamEnv, write, send_raw_line,
  send_stream_content, handle_stream_chunk, process_stream, new_stream_state, without_done,
  complete_stream_response, complete_with, report_no_content, finish_stream, is_blank,
  update_stream_stats, with_usage,
}
use chat_rag.Chat.Window.Invariant.{Leaves-write}
use chat_rag.Chat.Window.Delivered.{Arrived, contents, content_of_line, process_stream-Arrived}
use chat_rag.Chat.Window.Leaves.{text_sent, Leaves, Leaves-and_then, has_response, text_sent-line}
use chat_rag.Chat.Window.Ended.{
  AtEnd, Ended, without_done-done, both_false, sent_last, never, blank_nil,
  Ended-handle_stream_chunk,
}

module _ {F : Type 0} (env : StreamEnv F) where
  process_stream-append :
      (depth : ℕ) (ls : List Text) (l : Text) (s : StreamState)
      → process_stream env depth (ls ++ l ∷ []) s
        ≡ and_then (process_stream env depth ls s) (process_stream env depth (l ∷ []))
  unfolding process_stream
  process_stream-append depth [] l s = refl
  process_stream-append depth (k ∷ ls) l s =
      by_step (process_stream-append depth ls l) (handle_stream_chunk env depth k s)
    where
      by_step :
          ((t : StreamState)
            → process_stream env depth (ls ++ l ∷ []) t
              ≡ and_then (process_stream env depth ls t) (process_stream env depth (l ∷ [])))
          → (r : Step)
          → and_then r (process_stream env depth (ls ++ l ∷ []))
            ≡ and_then
                (and_then r (process_stream env depth ls))
                (process_stream env depth (l ∷ []))
      by_step rest (ok t) = rest t
      by_step rest (broken t) = refl
      by_step rest (panicked t) = refl

  abbrev Delivers : Text → StreamState → Type 0
  Delivers c t = (text_sent t.sent ≡ 10 ∷ c) × (t.logged_content ≡ some c)

  finish_stream-AtEnd :
      (c : Text) (r : Response) (s : StreamState) (w : List Text)
      → s.full_content ≡ c
      → AtEnd c w s
      → Leaves (Delivers c) (finish_stream env r s)
  unfolding finish_stream send_stream_content send_raw_line
  finish_stream-AtEnd c r s w full at_end =
      let sending : List Text → Step = λ win.
        and_then
          (and_then
            (write env (chunk (with_usage s.usage r) (concat (without_done win)))
              (record s { response = some (with_usage s.usage r); window = without_done win }))
            (send_raw_line env done_mark))
          (λ t. ok (update_stream_stats env t)) in
      let Sent : StreamState → Type 0 = λ t. (text_sent t.sent ≡ 10 ∷ c) × (t.full_content ≡ c) in
      subst
        (λ win.
          Leaves (Delivers c)
            (if is_empty win then ok (update_stream_stats env s) else sending win))
        (sym at_end.0)
        (rw (is_empty-append w (done_mark ∷ []), both_false (is_empty w), without_done-done w)
          (Leaves-and_then Sent (Delivers c) _ (λ t. ok (update_stream_stats env t))
            (Leaves-and_then Sent Sent _ (send_raw_line env done_mark)
              (Leaves-write env Sent (chunk (with_usage s.usage r) (concat w)) _
                (sent_last s.sent (with_usage s.usage r) (concat w) ∙ at_end.1, full))
              (λ t q. Leaves-write env Sent (line _) t (text_sent-line t.sent _ ∙ q.0, q.1)))
            (λ t q. (q.0, ap some q.1))))

  complete-Ended :
      (c : Text) (s : StreamState)
      → is_blank c ≡ false
      → s.tool_detected ≡ false
      → Ended c s
      → Leaves (Delivers c) (complete_stream_response env s)
  unfolding complete_stream_response
  complete-Ended c s b t h = by_response s.response h.2
    where
      by_response :
          (o : Option Response)
          → has_response o ≡ true
          → Leaves (Delivers c) (complete_with env o s)
      by_response none q = cc
      by_response (some r) q =
          let (w, at_end) = h.3 t in
          subst
            (λ x.
              Leaves (Delivers c) (if x then ok (report_no_content s) else finish_stream env r s))
            (sym (ap is_blank h.1 ∙ b)) (finish_stream-AtEnd c r s w h.1 at_end)

  last_line :
      (depth : ℕ) (last c : Text)
      → content_of_line env.parse last ≡ done_mark
      → is_blank c ≡ false
      → (s : StreamState) → Arrived c s
      → Leaves
          (λ t. t.tool_detected ≡ false → Leaves (Delivers c) (complete_stream_response env t))
          (process_stream env depth (last ∷ []) s)
  unfolding process_stream
  last_line depth last c e b s (inl w) = never (is_blank c) (ap is_blank w.2 ∙ blank_nil) b
  last_line depth last c e b s (inr h) =
      Leaves-and_then (Ended c)
        (λ t. t.tool_detected ≡ false → Leaves (Delivers c) (complete_stream_response env t))
        (handle_stream_chunk env depth last s) (λ t. ok t)
        (Ended-handle_stream_chunk env c last depth s e h) (λ t q f. complete-Ended c t b f q)

  -- A stream whose lines end with the end mark and in which no tool is found: the client has received a
  -- newline and then the contents of the lines, all and in order, and the log has the same content,
  -- unless a write failed. The content has more than newlines.
  pub complete_stream_response-process_stream :
      (depth : ℕ) (ls : List Text) (last : Text)
      → All (λ l. text_eq (content_of_line env.parse l) done_mark ≡ false) ls
      → content_of_line env.parse last ≡ done_mark
      → is_blank (contents env.parse ls) ≡ false
      → Leaves
          (λ s.
            s.tool_detected ≡ false
            → Leaves (Delivers (contents env.parse ls)) (complete_stream_response env s))
          (process_stream env depth (ls ++ last ∷ []) new_stream_state)
  complete_stream_response-process_stream depth ls last n e b =
      let c : Text = contents env.parse ls in
      let Goal : StreamState → Type 0 =
        λ s. s.tool_detected ≡ false → Leaves (Delivers c) (complete_stream_response env s) in
      subst (Leaves Goal) (sym (process_stream-append depth ls last new_stream_state)) (
        Leaves-and_then (Arrived c) Goal (process_stream env depth ls new_stream_state)
          (process_stream env depth (last ∷ []))
          (process_stream-Arrived env depth ls [] new_stream_state n
            (inl (refl, refl, refl, refl, refl, refl)))
          (last_line depth last c e b))
