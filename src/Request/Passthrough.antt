-- ===== src/Request/Passthrough.antt =====
-- A message that is decoded and encoded.
use chat_rag.Common.{
  if◌then◌else◌, Option-cases, Text, text, text_eq, ◌≡◌, refl, ap, inl, inr, false, Option, none,
  some, [], arith,
}
use chat_rag.Types.{Json, null, str, num, arr, obj, bool, Items, nil, cons, Fields, end}
use chat_rag.Json.{get, delete, put, merge, or_else, get-delete, get-put, get-merge}
use chat_rag.Request.{list_of, items_of, content_of, json_of, decode_message, encode_message}
use chat_rag.Request.Taken.{take_string-cases, get-same, apart, get-end}

items_of-list_of : (js : Items) → items_of (list_of js) ≡ js
items_of-list_of nil = refl
items_of-list_of (cons j js) = ap (cons j) (items_of-list_of js)

json_of-content_of : (j : Json) → json_of (content_of j) ≡ j
json_of-content_of null = refl
json_of-content_of (bool b) = refl
json_of-content_of (num n) = refl
json_of-content_of (str s) = refl
json_of-content_of (arr js) = ap arr (items_of-list_of js)
json_of-content_of (obj fs) = refl

role-content : text_eq (text "role") (text "content") ≡ false
unfolding text_eq
role-content = refl

abbrev with_defaults : Text → Text → Text → Option Json → Option Json
with_defaults role content key o =
    or_else o
      (if text_eq role key then some (str []) else if text_eq content key then some null else none)

get-put2 :
    (r c key : Text) (u v : Json)
    → get key (put c u (put r v end))
      ≡ (if text_eq c key then some u else if text_eq r key then some v else none)
get-put2 r c key u v =
    ground (arith, get-put key c u (put r v end), get-put key r v end, get-end key)

both_taken :
    (r c key : Text) (raw : Fields) (s : Text) (u : Json)
    → text_eq r c ≡ false
    → get r raw ≡ some (str s)
    → get c (delete r raw) ≡ some u
    → get key (merge (delete c (delete r raw)) (put c u (put r (str s) end)))
      ≡ with_defaults r c key (get key raw)
both_taken r c key raw s u d q there = ground (
  arith,
  get-merge key (delete c (delete r raw)) (put c u (put r (str s) end)),
  get-put2 r c key u (str s),
  get-delete key c (delete r raw),
  get-delete key r raw,
  get-delete c r raw,
  get-delete key c raw,
  get-same r key raw,
  get-same c key raw,
  apart r c key d,
)

role_taken :
    (r c key : Text) (raw : Fields) (s : Text)
    → text_eq r c ≡ false
    → get r raw ≡ some (str s)
    → get c (delete r raw) ≡ none
    → get key (merge (delete r raw) (put c null (put r (str s) end)))
      ≡ with_defaults r c key (get key raw)
role_taken r c key raw s d q missing = ground (
  arith,
  get-merge key (delete r raw) (put c null (put r (str s) end)),
  get-put2 r c key null (str s),
  get-delete key c (delete r raw),
  get-delete key r raw,
  get-delete c r raw,
  get-delete key c raw,
  get-same r key raw,
  get-same c key raw,
  apart r c key d,
)

content_taken :
    (r c key : Text) (raw : Fields) (u : Json)
    → text_eq r c ≡ false
    → get c raw ≡ some u
    → get key (merge (delete c raw) (put c u (put r (str []) end)))
      ≡ with_defaults r c key (get key raw)
content_taken r c key raw u d there = ground (
  arith,
  get-merge key (delete c raw) (put c u (put r (str []) end)),
  get-put2 r c key u (str []),
  get-delete key c (delete r raw),
  get-delete key r raw,
  get-delete c r raw,
  get-delete key c raw,
  get-same r key raw,
  get-same c key raw,
  apart r c key d,
)

none_taken :
    (r c key : Text) (raw : Fields)
    → text_eq r c ≡ false
    → get c raw ≡ none
    → get key (merge (raw) (put c null (put r (str []) end))) ≡ with_defaults r c key (get key raw)
none_taken r c key raw d missing = ground (
  arith,
  get-merge key (raw) (put c null (put r (str []) end)),
  get-put2 r c key null (str []),
  get-delete key c (delete r raw),
  get-delete key r raw,
  get-delete c r raw,
  get-delete key c raw,
  get-same r key raw,
  get-same c key raw,
  apart r c key d,
)

-- A message keeps the value of every key; `role` and `content` are added where they are missing.
pub get-encode_message-decode_message :
    (key : Text) (raw : Fields)
    → get key (encode_message (decode_message raw))
      ≡ with_defaults (text "role") (text "content") key (get key raw)
unfolding decode_message encode_message
get-encode_message-decode_message key raw =
    let r : Text = text "role" in
    let c : Text = text "content" in
    elim (take_string-cases r raw) [
      | inl (s, q, t) ↦ rw t (elim (Option-cases (get c (delete r raw))) [
        | inl missing ↦ rw missing (role_taken r c key raw s role-content q missing)
        | inr (u, there) ↦
            rw (there, json_of-content_of u) (both_taken r c key raw s u role-content q there)
      ])
      | inr t ↦ rw t (elim (Option-cases (get c raw)) [
        | inl missing ↦ rw missing (none_taken r c key raw role-content missing)
        | inr (u, there) ↦
            rw (there, json_of-content_of u) (content_taken r c key raw u role-content there)
      ])
    ]
