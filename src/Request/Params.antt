-- ===== src/Request/Params.antt =====
-- The request parameters that are decoded and encoded.
use chat_rag.Common.{
  if◌then◌else◌, Text, text, text_eq, text_eq_comm, ◌≡◌, refl, sym, ap, ◌∙◌, Bool, true, false,
  ◌||◌, Option, none, some, arith,
}
use chat_rag.Types.{Json, Fields, end}
use chat_rag.Json.{get, merge, or_else, get-put, get-merge}
use chat_rag.Request.{
  at_key, messages_of, priority_of, extra_body_of, zero_extra_body, messages_json, priority_json,
  extra_body_json, put_some, decode_params, encode_params,
}
use chat_rag.Request.Taken.{get-same, apart, get-end, left_by_key, read_at, value_at_key}

-- What becomes of the value of a key of the request parameters.
abbrev pub carried : Text → Option Json → Option Json
carried key o =
    if text_eq (text "messages") key
    then messages_json (read_at messages_of none o)
    else if text_eq (text "extra_body") key
    then extra_body_json (read_at extra_body_of zero_extra_body o)
    else if text_eq (text "priority") key
    then priority_json (read_at priority_of none o)
    else o

get-put_some :
    (j key : Text) (v : Option Json) (m : Fields)
    → get j (put_some key v m) ≡ (if text_eq key j then or_else v (get j m) else get j m)
get-put_some j key none m = ground arith
get-put_some j key (some v) m = get-put j key v m

three_keys :
    (m x p key : Text) (raw rest : Fields) (vm vx vp : Option Json)
    → text_eq m x ≡ false
    → text_eq m p ≡ false
    → text_eq x p ≡ false
    → get key rest
      ≡ (if text_eq m key || (text_eq x key || text_eq p key) then none else get key raw)
    → get key (merge rest (put_some m vm (put_some x vx (put_some p vp end)))) ≡ (
        if text_eq m key
        then vm
        else if text_eq x key
        then vx
        else if text_eq p key
        then vp
        else get key raw)
three_keys m x p key raw rest vm vx vp mx mp xp g =
    let e1 : Fields = put_some p vp end in
    let e2 : Fields = put_some x vx e1 in
    ground (
      arith,
      get-merge key rest (put_some m vm e2),
      get-put_some key m vm e2,
      get-put_some key x vx e1,
      get-put_some key p vp end,
      get-end key,
      apart m x key mx,
      apart m p key mp,
      apart x p key xp,
    )

read_same :
    {A : Type 0} (k key : Text) (read : Json → A) (unset : A) (json : A → Option Json)
    (raw left : Fields)
    → get k left ≡ get k raw
    → text_eq k key ≡ true
    → json (at_key k read unset left).0 ≡ json (read_at read unset (get key raw))
read_same k key read unset json raw left e q =
    ap json
      (value_at_key k read unset left ∙ ap (read_at read unset) (e ∙ sym (get-same k key raw q)))

pub messages-extra_body : text_eq (text "messages") (text "extra_body") ≡ false
unfolding text_eq
messages-extra_body = refl

pub messages-priority : text_eq (text "messages") (text "priority") ≡ false
unfolding text_eq
messages-priority = refl

pub extra_body-priority : text_eq (text "extra_body") (text "priority") ≡ false
unfolding text_eq
extra_body-priority = refl

if_cong3 :
    (a b c : Bool) (u1 u2 v1 v2 w1 w2 z : Option Json)
    → (a ≡ true → u1 ≡ u2)
    → (b ≡ true → v1 ≡ v2)
    → (c ≡ true → w1 ≡ w2)
    → (if a then u1 else if b then v1 else if c then w1 else z)
      ≡ (if a then u2 else if b then v2 else if c then w2 else z)
if_cong3 a b c u1 u2 v1 v2 w1 w2 z e f g = ground arith

-- After decoding and encoding the request parameters, each key that the service does not know has the
-- value that it had, or is still missing. The keys `messages`, `extra_body` and `priority` have what
-- is written of what the service reads at them. A key at which it reads nothing goes: a priority that
-- is no number, messages that are no list, an extra body that is no object, or whose two modes are
-- empty and that has no other field. A priority with a fraction comes back as an integer.
pub get-encode_params-decode_params :
    (key : Text) (raw : Fields)
    → get key (encode_params (decode_params raw)) ≡ carried key (get key raw)
unfolding encode_params decode_params
get-encode_params-decode_params key raw =
    let p : Text = text "priority" in
    let x : Text = text "extra_body" in
    let m : Text = text "messages" in
    let raw1 : Fields = (at_key p priority_of none raw).1 in
    let raw2 : Fields = (at_key x extra_body_of zero_extra_body raw1).1 in
    let left1 : (j : Text) → get j raw1 ≡ (if text_eq p j then none else get j raw) =
      λ j. left_by_key j p priority_of none raw in
    let left2 : (j : Text) → get j raw2 ≡ (if text_eq x j then none else get j raw1) =
      λ j. left_by_key j x extra_body_of zero_extra_body raw1 in
    let left3 = left_by_key key m messages_of none raw2 in
    let px : text_eq p x ≡ false = text_eq_comm p x ∙ extra_body-priority in
    let pm : text_eq p m ≡ false = text_eq_comm p m ∙ messages-priority in
    let xm : text_eq x m ≡ false = text_eq_comm x m ∙ messages-extra_body in
    three_keys m x p key raw (at_key m messages_of none raw2).1 _ _ _ messages-extra_body
      messages-priority extra_body-priority (ground (arith, left1 key, left2 key, left3))
    ∙ if_cong3 (text_eq m key) (text_eq x key) (text_eq p key) _ _ _ _ _ _ (get key raw)
        (read_same m key messages_of none messages_json raw raw2 (ground (arith, left1 m, left2 m)))
        (read_same x key extra_body_of zero_extra_body extra_body_json raw raw1
          (ground (arith, left1 x)))
        (read_same p key priority_of none priority_json raw raw refl)
