-- ===== src/Request/Taken.antt =====
-- What decoding takes from a map and what it leaves.
use chat_rag.Common.{
  if◌then◌else◌, is_empty, Text, text_eq, text_eq_refl, text_eq→eq, text_eq_comm, ◌≡◌, refl, sym,
  ap, ◌∙◌, subst, ◌⊎◌, inl, inr, Bool, true, false, Option, none, some, [], arith,
}
use chat_rag.Types.{Json, null, str, num, arr, obj, bool, Fields, end}
use chat_rag.Json.{get, delete, or_else, get-delete}
use chat_rag.Request.{take_string, value_taken, at_key}

pub take_string-cases :
    (key : Text) (raw : Fields)
    → ((s : Text) × (get key raw ≡ some (str s)) × (take_string key raw ≡ (s, delete key raw)))
      ⊎ (take_string key raw ≡ ([], raw))
take_string-cases key raw = taken (get key raw) refl
  where
    taken :
        (o : Option Json)
        → get key raw ≡ o
        → ((s : Text) × (get key raw ≡ some (str s)) × (take_string key raw ≡ (s, delete key raw)))
          ⊎ (take_string key raw ≡ ([], raw))
    taken none q = inr (rw q refl)
    taken (some null) q = inr (rw q refl)
    taken (some (bool b)) q = inr (rw q refl)
    taken (some (num n)) q = inr (rw q refl)
    taken (some (str s)) q = inl (s, q, rw q refl)
    taken (some (arr js)) q = inr (rw q refl)
    taken (some (obj fs)) q = inr (rw q refl)

pub get-same : (k j : Text) (m : Fields) → text_eq k j ≡ true → get j m ≡ get k m
get-same k j m e = ap (λ x. get x m) (sym (text_eq→eq k j e))

pub apart : (r c key : Text) → text_eq r c ≡ false → text_eq r key ≡ true → text_eq c key ≡ false
apart r c key e q = text_eq_comm c key ∙ subst (λ y. text_eq y c ≡ false) (text_eq→eq r key q) e

pub get-end : (key : Text) → get key end ≡ none
unfolding get
get-end key = refl

pub left_by_key :
    {A : Type 0} (j key : Text) (read : Json → A) (unset : A) (raw : Fields)
    → get j (at_key key read unset raw).1 ≡ (if text_eq key j then none else get j raw)
left_by_key j key read unset raw = taken (get key raw) refl
  where
    taken :
        (o : Option Json)
        → get key raw ≡ o
        → get j (value_taken key read unset raw o).1 ≡ (if text_eq key j then none else get j raw)
    taken none q = ground (arith, get-same key j raw)
    taken (some v) q = get-delete j key raw

abbrev pub read_at : {A : Type 0} → (Json → A) → A → Option Json → A
read_at read unset none = unset
read_at read unset (some v) = read v

pub value_at_key :
    {A : Type 0} (key : Text) (read : Json → A) (unset : A) (raw : Fields)
    → (at_key key read unset raw).0 ≡ read_at read unset (get key raw)
value_at_key key read unset raw = taken (get key raw)
  where
    taken : (o : Option Json) → (value_taken key read unset raw o).0 ≡ read_at read unset o
    taken none = refl
    taken (some v) = refl

abbrev pub is_empty_string : Option Json → Bool
is_empty_string (some (str s)) = is_empty s
is_empty_string _ = false

abbrev pub written : Text → Option Json
written s = if is_empty s then none else some (str s)

abbrev pub dropped : Option Json → Option Json
dropped o = if is_empty_string o then none else o

pub left_by_other :
    (j key : Text) (raw : Fields)
    → text_eq key j ≡ false
    → get j (take_string key raw).1 ≡ get j raw
left_by_other j key raw e = elim (take_string-cases key raw) [
  | inl (s, q, t) ↦ rw (t, get-delete j key raw, e) refl
  | inr t ↦ rw t refl
]

pub string_restored :
    (key : Text) (raw : Fields)
    → or_else (get key (take_string key raw).1) (written (take_string key raw).0)
      ≡ dropped (get key raw)
string_restored key raw = taken (get key raw) refl
  where
    taken :
        (o : Option Json)
        → get key raw ≡ o
        → or_else (get key (take_string key raw).1) (written (take_string key raw).0) ≡ dropped o
    taken none q = rw (q, q) refl
    taken (some null) q = rw (q, q) refl
    taken (some (bool b)) q = rw (q, q) refl
    taken (some (num n)) q = rw (q, q) refl
    taken (some (str s)) q = rw (q, get-delete key key raw, text_eq_refl key) refl
    taken (some (arr js)) q = rw (q, q) refl
    taken (some (obj fs)) q = rw (q, q) refl
