-- ===== src/Request/Body.antt =====
-- The extra body that is decoded and encoded.
use chat_rag.Common.{
  if◌then◌else◌, Bool-cases, is_empty, Text, text, text_eq, ◌≡◌, refl, sym, ap, ◌∙◌, inl, inr,
  false, ◌&&◌, ◌||◌, Option, none, some, arith,
}
use chat_rag.Types.{Json, str, Fields, end}
use chat_rag.Json.{get, merge, or_else, get-put, get-merge}
use chat_rag.Request.{take_string, decode_extra_body, encode_extra_body, put_nonempty}
use chat_rag.Request.Taken.{
  get-same, apart, get-end, is_empty_string, written, dropped, left_by_other, string_restored,
}

prompt_mode-mode : text_eq (text "prompt_mode") (text "mode") ≡ false
unfolding text_eq
prompt_mode-mode = refl

or_else-nothing : (o : Option Json) → or_else o none ≡ o
or_else-nothing none = refl
or_else-nothing (some v) = refl

or_else-none : (o p : Option Json) → or_else o (or_else p none) ≡ or_else o p
or_else-none o p = ap (or_else o) (or_else-nothing p)

get-put_nonempty :
    (j key s : Text) (m : Fields)
    → get j (put_nonempty key s m)
      ≡ (if text_eq key j then or_else (written s) (get j m) else get j m)
get-put_nonempty j key s m = elim (Bool-cases (is_empty s)) [
  | inl e ↦ rw e (ground arith)
  | inr e ↦ rw (e, get-put j key (str s) m) refl
]

two_strings :
    (k m key : Text) (raw r1 r2 : Fields) (s t : Text)
    → text_eq k m ≡ false
    → ((j : Text) → text_eq k j ≡ false → get j r1 ≡ get j raw)
    → ((j : Text) → text_eq m j ≡ false → get j r2 ≡ get j r1)
    → or_else (get k r1) (written s) ≡ dropped (get k raw)
    → or_else (get m r2) (written t) ≡ dropped (get m r1)
    → get key (merge r2 (put_nonempty m t (put_nonempty k s end))) ≡ (
        if (text_eq k key || text_eq m key) && is_empty_string (get key raw)
        then none
        else get key raw)
two_strings k m key raw r1 r2 s t d left1 left2 back1 back2 =
    let inner : Fields = put_nonempty k s end in
    get-merge key r2 (put_nonempty m t inner)
    ∙ ap (or_else (get key r2)) (get-put_nonempty key m t inner)
    ∙ elim (Bool-cases (text_eq k key)) [
      | inl e ↦
          rw
            (
              apart k m key d e,
              e,
              left2 key (apart k m key d e),
              get-put_nonempty key k s end,
              e,
              get-end key,
            )
            (or_else-none (get key r1) (written s)
              ∙ ap (λ o. or_else o (written s)) (get-same k key r1 e)
              ∙ back1
              ∙ ap dropped (sym (get-same k key raw e)))
      | inr e ↦ elim (Bool-cases (text_eq m key)) [
        | inl f ↦
            rw (e, f, get-put_nonempty key k s end, e, get-end key)
              (or_else-none (get key r2) (written t)
                ∙ ap (λ o. or_else o (written t)) (get-same m key r2 f)
                ∙ back2
                ∙ ap dropped (sym (get-same m key r1 f) ∙ left1 key e))
        | inr f ↦
            rw (e, f, left2 key f, left1 key e, get-put_nonempty key k s end, e, get-end key)
              (or_else-nothing (get key raw))
      ]
    ]

-- An extra body keeps every key, except an empty string at `prompt_mode` or `mode`, which is dropped.
pub get-encode_extra_body-decode_extra_body :
    (key : Text) (raw : Fields)
    → get key (encode_extra_body (decode_extra_body raw)) ≡ (
        if (text_eq (text "prompt_mode") key || text_eq (text "mode") key)
          && is_empty_string (get key raw)
        then none
        else get key raw)
unfolding encode_extra_body decode_extra_body
get-encode_extra_body-decode_extra_body key raw =
    let k : Text = text "prompt_mode" in
    let m : Text = text "mode" in
    let r1 : Fields = (take_string k raw).1 in
    let r2 : Fields = (take_string m r1).1 in
    two_strings k m key raw r1 r2 (take_string k raw).0 (take_string m r1).0 prompt_mode-mode
      (λ j. left_by_other j k raw) (λ j. left_by_other j m r1) (string_restored k raw)
      (string_restored m r1)
