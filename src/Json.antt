-- ===== src/Json.antt =====
-- A Go `map[string]any`, decoded from JSON: `Fields`, where the first entry of a key counts.
use Prim.Native.Nat.{◌^◌}
use chat_rag.Common.{
  ltb, leb, if◌then◌else◌, Bool-cases, ℤ, pos_part, neg_part, pos, negsuc, Text, text_eq,
  text_eq_refl, text_eq→eq, text_eq_comm, ℕ, zero, suc, ◌/◌, ◌≡◌, refl, ◌∙◌, subst, inl, inr, Bool,
  false, ◌&&◌, Option, none, some, arith,
}
use chat_rag.Types.{Float64, Json, Fields, end, field, str}

-- `m[key]`.
unfoldable pub get : Text → Fields → Option Json
get key end = none
get key (field k v rest) = let r = get key rest in if text_eq k key then some v else r

-- `delete(m, key)`.
unfoldable pub delete : Text → Fields → Fields
delete key end = end
delete key (field k v rest) = let r = delete key rest in if text_eq k key then r else field k v r

-- `m[key] = v`.
unfoldable pub put : Text → Json → Fields → Fields
unfolding delete
put key v m = field key v (delete key m)

-- `for k, v := range extra { m[k] = v }`.
unfoldable pub merge : Fields → Fields → Fields
unfolding put
merge end m = m
merge (field k v rest) m = put k v (merge rest m)

abbrev pub or_else : Option Json → Option Json → Option Json
or_else (some v) o = some v
or_else none o = o

-- `v.(string)`.
abbrev pub as_string : Option Json → Option Text
as_string (some (str s)) = some s
as_string _ = none

pub get-delete :
    (j key : Text) (m : Fields) → get j (delete key m) ≡ (if text_eq key j then none else get j m)
unfolding get delete
get-delete j key end = ground arith
get-delete j key (field k v rest) = elim (Bool-cases (text_eq k key)) [
  | inl same ↦
      subst
        (λ y.
          get j (delete y (field k v rest))
          ≡ (if text_eq y j then none else get j (field k v rest)))
        (text_eq→eq k key same) (ground (arith, get-delete j k rest, text_eq_refl k))
  | inr other ↦ rw other (elim (Bool-cases (text_eq k j)) [
    | inl here ↦
        let away : text_eq key j ≡ false =
          text_eq_comm key j ∙ subst (λ y. text_eq y key ≡ false) (text_eq→eq k j here) other in
        rw (here, away) refl
    | inr there ↦ rw there (get-delete j key rest)
  ])
]

pub get-put :
    (j key : Text) (v : Json) (m : Fields)
    → get j (put key v m) ≡ (if text_eq key j then some v else get j m)
unfolding get put
get-put j key v m = ground (arith, get-delete j key m)

pub get-merge : (j : Text) (e m : Fields) → get j (merge e m) ≡ or_else (get j e) (get j m)
unfolding get merge
get-merge j end m = refl
get-merge j (field k v rest) m = ground (arith, get-put j k v (merge rest m), get-merge j rest m)

-- `int(f)` and `int64(f)`: what is behind the point goes.
abbrev negated : ℕ → ℤ
negated zero = pos 0
negated (suc n) = negsuc n

abbrev towards_zero : ℤ → ℕ → ℤ
towards_zero (pos n) k = pos (n / 2 ^ k)
towards_zero (negsuc n) k = negated (suc n / 2 ^ k)

abbrev is_int64 : ℤ → Bool
is_int64 q = ltb (pos_part q) (2 ^ 63) && leb (neg_part q) (2 ^ 63)

unfoldable pub int_of : Float64 → ℤ
int_of f = let q = towards_zero f.mantissa f.halvings in if is_int64 q then q else f.beyond

-- The number that an int is written as.
abbrev pub whole : ℤ → Float64
whole n = record { mantissa = n; halvings = 0; beyond = n }
