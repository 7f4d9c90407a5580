-- ===== src/Chat/Streaming/Tried.antt =====
-- Sequences of calls of which each failed before its stream was committed, or each but the last did.
use chat_rag.Common.{Text, ◌≡◌, sym, ap, ◌∙◌, subst, inl, false, List, [], ◌∷◌, ◌++◌}
use mathlib.Core.List.{append-nil, append_assoc}
use chat_rag.Chat.Errors.{Err}
use chat_rag.Chat.Retry.{Run}
use chat_rag.Chat.Streaming.{Streams}

module _ (s : Streams) where
  -- The calls `cs` after the calls `h` all failed before their streams were committed.
  abbrev pub IsFailed : List Text → List Text → Type 0
  IsFailed h [] = Unit
  IsFailed h (m ∷ cs) =
      ((e : Err) × (s.logic.respond h m ≡ inl e))
      × (s.commits h m ≡ false)
      × IsFailed (h ++ m ∷ []) cs

  -- All but the last did.
  abbrev pub IsTried : List Text → List Text → Type 0
  IsTried h [] = Unit
  IsTried h (m ∷ []) = Unit
  IsTried h (m ∷ n ∷ cs) =
      ((e : Err) × (s.logic.respond h m ≡ inl e))
      × (s.commits h m ≡ false)
      × IsTried (h ++ m ∷ []) (n ∷ cs)

  IsFailed→IsTried : (h cs : List Text) → IsFailed h cs → IsTried h cs
  IsFailed→IsTried h [] f = tt
  IsFailed→IsTried h (m ∷ []) f = tt
  IsFailed→IsTried h (m ∷ n ∷ cs) f = (f.0, f.1, IsFailed→IsTried (h ++ m ∷ []) (n ∷ cs) f.2)

  pub IsFailed-append :
      (h xs ys : List Text) → IsFailed h xs → IsFailed (h ++ xs) ys → IsFailed h (xs ++ ys)
  IsFailed-append h [] ys f g = subst (λ x. IsFailed x ys) (append-nil h) g
  IsFailed-append h (m ∷ xs) ys f g = (
    f.0,
    f.1,
    IsFailed-append (h ++ m ∷ []) xs ys f.2
        (subst (λ x. IsFailed x ys) (sym (append_assoc h (m ∷ []) xs)) g),
  )

  pub IsTried-append :
      (h xs ys : List Text) → IsFailed h xs → IsTried (h ++ xs) ys → IsTried h (xs ++ ys)
  IsTried-append h [] ys f g = subst (λ x. IsTried x ys) (append-nil h) g
  IsTried-append h (m ∷ xs) ys f g = IsTried-cons m h (xs ++ ys) f.0 f.1 (
      IsTried-append (h ++ m ∷ []) xs ys f.2
        (subst (λ x. IsTried x ys) (sym (append_assoc h (m ∷ []) xs)) g))
    where
      IsTried-cons :
          (m : Text) (h cs : List Text)
          → ((e : Err) × (s.logic.respond h m ≡ inl e))
          → s.commits h m ≡ false
          → IsTried (h ++ m ∷ []) cs
          → IsTried h (m ∷ cs)
      IsTried-cons m h [] a b c = tt
      IsTried-cons m h (n ∷ cs) a b c = (a, b, c)

  -- The calls from `w` to `v`.
  abbrev pub IsFailedRun : Run → Run → Type 0
  IsFailedRun w v = (cs : List Text) × (v.called ≡ w.called ++ cs) × IsFailed w.called cs

  abbrev pub IsTriedRun : Run → Run → Type 0
  IsTriedRun w v = (cs : List Text) × (v.called ≡ w.called ++ cs) × IsTried w.called cs

  pub no_calls : (w : Run) → IsFailedRun w w
  no_calls w = ([], sym (append-nil w.called), tt)

  pub only_call : (m : Text) (w v : Run) → v.called ≡ w.called ++ m ∷ [] → IsTriedRun w v
  only_call m w v c = (m ∷ [], c, tt)

  pub IsFailedRun→IsTriedRun : (w v : Run) → IsFailedRun w v → IsTriedRun w v
  IsFailedRun→IsTriedRun w v f = (f.0, f.1, IsFailed→IsTried w.called f.0 f.2)

  pub failed_call :
      (m : Text) (e : Err) (w v : Run)
      → s.logic.respond w.called m ≡ inl e
      → s.commits w.called m ≡ false
      → v.called ≡ w.called ++ m ∷ []
      → IsFailedRun w v
  failed_call m e w v q n c = (m ∷ [], c, ((e, q), n, tt))

  module _ (w u v : Run) (f : IsFailedRun w u) where
    called-after : (cs : List Text) → v.called ≡ u.called ++ cs → v.called ≡ w.called ++ (f.0 ++ cs)
    called-after cs c = c ∙ ap (λ x. x ++ cs) f.1 ∙ append_assoc w.called f.0 cs

    pub then_tried : IsTriedRun u v → IsTriedRun w v
    then_tried t = (
      f.0 ++ t.0,
      called-after t.0 t.1,
      IsTried-append w.called f.0 t.0 f.2 (subst (λ x. IsTried x t.0) f.1 t.2),
    )

    pub then_failed : IsFailedRun u v → IsFailedRun w v
    then_failed t = (
      f.0 ++ t.0,
      called-after t.0 t.1,
      IsFailed-append w.called f.0 t.0 f.2 (subst (λ x. IsFailed x t.0) f.1 t.2),
    )

  pub then_same : (w u v : Run) → IsFailedRun w u → v.called ≡ u.called → IsFailedRun w v
  then_same w u v f c = (f.0, c ∙ f.1, f.2)
