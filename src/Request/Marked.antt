-- ===== src/Request/Marked.antt =====
-- The messages of a request that ask for their continuation, as they stand in the request and as the
-- service reads them (internal/logic/prefill_continue.go).
use chat_rag.Common.{
  if◌then◌else◌, Text, text, text_eq, ◌≡◌, refl, ap, ◌∙◌, Bool, false, ◌&&◌, ◌||◌, Option, none,
  some, [], ◌∷◌, arith,
}
use chat_rag.Types.{Json, null, bool, num, str, arr, obj, Items, nil, cons, Fields, Message}
use chat_rag.Json.{get, delete, get-delete}
use chat_rag.Request.{
  messages_of, is_true, last_of, list_or_nil, is_prefill, is_prefill_at, messages_of_items,
  decode_message, message_with, string_taken, zero_message,
}
use chat_rag.Request.Taken.{read_at}

-- An assistant's message, as it stands in the request, with `partial` or `prefix` set to true.
abbrev pub is_marked : Fields → Bool
is_marked fs = elim (get (text "role") fs) [
  | some (str role) ↦
      text_eq role (text "assistant")
      && (is_true (get (text "partial") fs) || is_true (get (text "prefix") fs))
  | _ ↦ false
]

-- The last element of a list of objects and nulls is such a message.
abbrev pub ends_marked : Items → Bool
ends_marked nil = false
ends_marked (cons (obj fs) nil) = is_marked fs
ends_marked (cons (obj fs) (cons j js)) = ends_marked (cons j js)
ends_marked (cons null js) = ends_marked js
ends_marked (cons _ js) = false

content-partial : text_eq (text "content") (text "partial") ≡ false
unfolding text_eq
content-partial = refl

content-prefix : text_eq (text "content") (text "prefix") ≡ false
unfolding text_eq
content-prefix = refl

role-partial : text_eq (text "role") (text "partial") ≡ false
unfolding text_eq
role-partial = refl

role-prefix : text_eq (text "role") (text "prefix") ≡ false
unfolding text_eq
role-prefix = refl

no_role-assistant : text_eq [] (text "assistant") ≡ false
unfolding text_eq
no_role-assistant = refl

abbrev marks : Fields → Bool
marks fs = is_true (get (text "partial") fs) || is_true (get (text "prefix") fs)

marks-delete :
    (key : Text) (fs : Fields)
    → text_eq key (text "partial") ≡ false
    → text_eq key (text "prefix") ≡ false
    → marks (delete key fs) ≡ marks fs
marks-delete key fs e f =
    rw (get-delete (text "partial") key fs, e, get-delete (text "prefix") key fs, f) refl

and_if : (a b : Bool) → (if a then b else false) ≡ (a && b)
and_if a b = ground arith

is_prefill-message_with :
    (role : Text) (rest : Fields) (o : Option Json)
    → is_prefill (message_with role rest o) ≡ (text_eq role (text "assistant") && marks rest)
is_prefill-message_with role rest none = and_if (text_eq role (text "assistant")) (marks rest)
is_prefill-message_with role rest (some c) =
    and_if (text_eq role (text "assistant")) (marks (delete (text "content") rest))
    ∙ ap (λ b. text_eq role (text "assistant") && b)
        (marks-delete (text "content") rest content-partial content-prefix)

no_role : (fs : Fields) → is_prefill (message_with [] fs (get (text "content") fs)) ≡ false
no_role fs =
    is_prefill-message_with [] fs (get (text "content") fs)
    ∙ ap (λ b. b && marks fs) no_role-assistant

-- A message whose role is `o` in the request.
is_prefill-string_taken :
    (fs : Fields) (o : Option Json)
    → (let taken = string_taken (text "role") fs o in
        is_prefill (message_with taken.0 taken.1 (get (text "content") taken.1)))
      ≡ (elim o [ some (str role) ↦ text_eq role (text "assistant") && marks fs | _ ↦ false ])
is_prefill-string_taken fs (some (str role)) =
    let rest = delete (text "role") fs in
    is_prefill-message_with role rest (get (text "content") rest)
    ∙ ap (λ b. text_eq role (text "assistant") && b)
        (marks-delete (text "role") fs role-partial role-prefix)
is_prefill-string_taken fs none = no_role fs
is_prefill-string_taken fs (some null) = no_role fs
is_prefill-string_taken fs (some (bool b)) = no_role fs
is_prefill-string_taken fs (some (num n)) = no_role fs
is_prefill-string_taken fs (some (arr js)) = no_role fs
is_prefill-string_taken fs (some (obj o)) = no_role fs

is_prefill-decode_message : (fs : Fields) → is_prefill (decode_message fs) ≡ is_marked fs
unfolding decode_message
is_prefill-decode_message fs = is_prefill-string_taken fs (get (text "role") fs)

-- The first of two elements or more is not the last.
last_of-messages_of_items :
    (m : Message) (j : Json) (js : Items)
    → last_of (m ∷ messages_of_items (cons j js)) ≡ last_of (messages_of_items (cons j js))
last_of-messages_of_items m null js = refl
last_of-messages_of_items m (bool b) js = refl
last_of-messages_of_items m (num n) js = refl
last_of-messages_of_items m (str s) js = refl
last_of-messages_of_items m (arr a) js = refl
last_of-messages_of_items m (obj fs) js = refl

zero-is_prefill : is_prefill zero_message ≡ false
unfolding text_eq
zero-is_prefill = refl

is_prefill_at-last_of :
    (js : Items) → is_prefill_at (last_of (messages_of_items js)) ≡ ends_marked js
is_prefill_at-last_of nil = refl
is_prefill_at-last_of (cons (obj fs) nil) = is_prefill-decode_message fs
is_prefill_at-last_of (cons (obj fs) (cons j js)) =
    ap is_prefill_at (last_of-messages_of_items (decode_message fs) j js)
    ∙ is_prefill_at-last_of (cons j js)
is_prefill_at-last_of (cons null nil) = zero-is_prefill
is_prefill_at-last_of (cons null (cons j js)) =
    ap is_prefill_at (last_of-messages_of_items zero_message j js)
    ∙ is_prefill_at-last_of (cons j js)
is_prefill_at-last_of (cons (bool b) js) = zero-is_prefill
is_prefill_at-last_of (cons (num n) js) = zero-is_prefill
is_prefill_at-last_of (cons (str s) js) = zero-is_prefill
is_prefill_at-last_of (cons (arr a) js) = zero-is_prefill

pub is_prefill_at-read_at :
    (o : Option Json)
    → is_prefill_at (last_of (list_or_nil (read_at messages_of none o)))
      ≡ (elim o [ some (arr js) ↦ ends_marked js | _ ↦ false ])
is_prefill_at-read_at none = refl
is_prefill_at-read_at (some (arr js)) = is_prefill_at-last_of js
is_prefill_at-read_at (some null) = refl
is_prefill_at-read_at (some (bool b)) = refl
is_prefill_at-read_at (some (num n)) = refl
is_prefill_at-read_at (some (str s)) = refl
is_prefill_at-read_at (some (obj fs)) = refl
