-- ===== src/Chat/Window/Leaves.antt =====
-- What a step of a stream leaves, and what was sent to the client (internal/logic/chat.go).
use chat_rag.Common.{
  ltb, leb, if◌then◌else◌, length, drop, append_assoc, append_nil, concat, Text, index, contains, ℕ,
  zero, suc, ◌≡◌, refl, sym, ap, ◌∙◌, subst, Bool, true, false, not, ◌&&◌, Option, none, some, List,
  [], ◌∷◌, ◌++◌, arith,
}
use chat_rag.Tools.{GenericToolConfig, start_tag}
use chat_rag.Tools.Executor.{detect_tools}
use chat_rag.Chat.Chunks.{Response}
use chat_rag.Chat.Window.{
  Wire, line, chunk, sse_error, StreamState, Step, ok, broken, panicked, and_then,
}

-- The contents that the client has received.
abbrev pub text_sent : List Wire → Text
text_sent [] = []
text_sent (line l ∷ ws) = text_sent ws
text_sent (chunk r c ∷ ws) = c ++ text_sent ws
text_sent (sse_error e ∷ ws) = text_sent ws

pub text_sent-append : (us ws : List Wire) → text_sent (us ++ ws) ≡ text_sent us ++ text_sent ws
text_sent-append [] ws = refl
text_sent-append (line l ∷ us) ws = text_sent-append us ws
text_sent-append (chunk r c ∷ us) ws =
    ap (λ l. c ++ l) (text_sent-append us ws) ∙ sym (append_assoc c (text_sent us) (text_sent ws))
text_sent-append (sse_error e ∷ us) ws = text_sent-append us ws

-- What holds of the state that a step leaves; a step with the property does not panic.
abbrev pub Leaves : (StreamState → Type 0) → Step → Type 0
Leaves P (ok s) = P s
Leaves P (broken s) = Unit
Leaves P (panicked s) = true ≡ false

pub Leaves-and_then :
    (P Q : StreamState → Type 0) (r : Step) (f : StreamState → Step)
    → Leaves P r
    → ((s : StreamState) → P s → Leaves Q (f s))
    → Leaves Q (and_then r f)
Leaves-and_then P Q (ok s) f h g = g s h
Leaves-and_then P Q (broken s) f h g = tt
Leaves-and_then P Q (panicked s) f h g = h

pub Leaves-mono :
    (P Q : StreamState → Type 0) (r : Step)
    → ((s : StreamState) → P s → Q s)
    → Leaves P r
    → Leaves Q r
Leaves-mono P Q (ok s) f h = f s h
Leaves-mono P Q (broken s) f h = tt
Leaves-mono P Q (panicked s) f h = h

-- Sent and waiting contents together, and the length of the window before a tool is found.
abbrev pub delivered : StreamState → Text
delivered s = text_sent s.sent ++ concat s.window

pub delivered-chunk :
    (ws : List Wire) (r : Response) (x rest : Text)
    → text_sent (ws ++ chunk r x ∷ []) ++ rest ≡ text_sent ws ++ (x ++ rest)
delivered-chunk ws r x rest =
    rw (text_sent-append ws (chunk r x ∷ []), append_nil x) (append_assoc (text_sent ws) x rest)

pub shorter : (xs : List Text) → leb (suc (length xs)) 6 ≡ true → leb (length xs) 5 ≡ true
shorter xs h = ground arith

pub and_left : (a b : Bool) → (not a && b) ≡ true → a ≡ false
and_left a b h = ground arith

pub and_right : (a b : Bool) → (not a && b) ≡ true → b ≡ true
and_right a b h = ground arith

pub few_enough :
    (detected : Bool) (size n : ℕ)
    → size ≡ 6
    → (not detected && leb size n) ≡ false
    → (detected ≡ false → leb n 6 ≡ true)
    → detected ≡ false
    → leb n 5 ≡ true
few_enough detected size n e t few d = ground arith

abbrev pub has_response : Option Response → Bool
has_response none = false
has_response (some r) = true

pub text_of_some :
    (o : Option ℕ) → (elim o [ none ↦ false | some _ ↦ true ]) ≡ true → (i : ℕ) × (o ≡ some i)
text_of_some none h = cc
text_of_some (some i) h = (i, refl)

pub chosen_name :
    (b : Bool) (content a : Text) (rest : Option Text) {name : Text}
    → contains content (start_tag a) ≡ b
    → (rest ≡ some name → contains content (start_tag name) ≡ true)
    → (if b then some a else rest) ≡ some name
    → contains content (start_tag name) ≡ true
chosen_name true content a rest {name} e later h =
    subst (λ y. contains content (start_tag y) ≡ true)
      (ap (λ (o : Option Text). elim o [ none ↦ a | some x ↦ x ]) h) e
chosen_name false content a rest e later h = later h

pub contains-detect_tools :
    {F : Type 0} (tools : List (GenericToolConfig F)) (content : Text) {name : Text}
    → detect_tools tools content ≡ some name
    → contains content (start_tag name) ≡ true
unfolding detect_tools
contains-detect_tools [] content h = cc
contains-detect_tools (t ∷ ts) content h =
    chosen_name (contains content (start_tag t.name)) content t.name (detect_tools ts content) refl
      (contains-detect_tools ts content) h

-- The tag of a tool that was found stands in the text.
pub index-detect_tools :
    {F : Type 0} (tools : List (GenericToolConfig F)) (content : Text) {name : Text}
    → detect_tools tools content ≡ some name
    → (i : ℕ) × (index content (start_tag name) ≡ some i)
unfolding contains
index-detect_tools tools content {name} h =
    text_of_some (index content (start_tag name)) (contains-detect_tools tools content h)

pub drop_none : (i : ℕ) (xs : Text) → ltb 0 i ≡ false → drop i xs ≡ xs
drop_none zero xs h = refl
drop_none (suc i) xs h = ground arith

pub text_sent-line : (ws : List Wire) (l : Text) → text_sent (ws ++ line l ∷ []) ≡ text_sent ws
text_sent-line ws l = text_sent-append ws (line l ∷ []) ∙ append_nil (text_sent ws)
