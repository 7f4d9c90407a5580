-- ===== src/Common/Replace.antt =====
-- Searching and replacing in Go strings, and where the first match stands.
use Prim.Native.Nat.{ℕ, zero, suc, ◌+◌, ◌-◌}
use mathlib.Core.Path.{◌≡◌, refl, sym, ap}
use mathlib.Core.Bool.{Bool, true, not, ◌&&◌}
use mathlib.Core.List.{[], ◌∷◌, ◌++◌, map}
use mathlib.Core.Option
use mathlib.Core.Option.{Option, none, some}
use native.Mathlib.Omega.{arith}
use chat_rag.Common.Tests.{leb, ◌==◌, if◌then◌else◌}
use chat_rag.Common.Lists.{length}
use chat_rag.Common.Strings.{Text, has_prefix, index}

-- `strings.ReplaceAll s old new` for a nonempty `old`; `skip` bytes of a match are still to pass.
unfoldable pub replace_from : ℕ → Text → Text → Text → Text
replace_from skip [] old new = []
replace_from (suc skip) (x ∷ xs) old new = replace_from skip xs old new
replace_from zero (x ∷ xs) old new =
    let hit = has_prefix (x ∷ xs) old in
    let rest = replace_from (if hit then length old - 1 else 0) xs old new in
    if hit then new ++ rest else x ∷ rest

unfoldable pub replace_all : Text → Text → Text → Text
unfolding replace_from
replace_all s old new = replace_from 0 s old new

-- `strings.ToLower` of ASCII text.
abbrev pub to_lower : Text → Text
to_lower s = map (λ x. if leb 65 x && leb x 90 then x + 32 else x) s

-- A byte that does not occur in a text.
abbrev pub lacks : ℕ → Text → Bool
lacks b [] = true
lacks b (x ∷ xs) = not (x == b) && lacks b xs

pub has_prefix-append : (p s : Text) → has_prefix (p ++ s) p ≡ true
unfolding has_prefix
has_prefix-append [] [] = refl
has_prefix-append [] (x ∷ s) = refl
has_prefix-append (x ∷ p) s = ground (arith, has_prefix-append p s)

-- The first match of a pattern that starts with a byte that the text before the match lacks.
pub index-append :
    (b : ℕ) (a p s : Text)
    → lacks b a ≡ true
    → has_prefix s (b ∷ p) ≡ true
    → index (a ++ s) (b ∷ p) ≡ some (length a)
unfolding index has_prefix
index-append b [] p [] h q = ground arith
index-append b [] p (x ∷ s) h q = ground arith
index-append b (x ∷ a) p s h q = ground (arith, index-append b a p s)

abbrev pub shift : ℕ → Option ℕ → Option ℕ
shift k none = none
shift k (some n) = some (k + n)

pub shift-zero : (o : Option ℕ) → shift 0 o ≡ o
shift-zero none = refl
shift-zero (some n) = ap some (omega arith)

map-shift : (k : ℕ) (o : Option ℕ) → Option.map suc (shift k o) ≡ shift (suc k) o
map-shift k none = refl
map-shift k (some n) = ap some (omega arith)

-- No match starts in a text that lacks the first byte of the pattern.
pub index-skip :
    (b : ℕ) (a p s : Text)
    → lacks b a ≡ true
    → index (a ++ s) (b ∷ p) ≡ shift (length a) (index s (b ∷ p))
unfolding index has_prefix
index-skip b [] p s h = sym (shift-zero (index s (b ∷ p)))
index-skip b (x ∷ a) p s h =
    ground (arith, index-skip b a p s, map-shift (length a) (index s (b ∷ p)))

-- Without its first byte there is nothing to replace.
pub replace_all-lacks : (b : ℕ) (s p new : Text) → lacks b s ≡ true → replace_all s (b ∷ p) new ≡ s
unfolding replace_all replace_from has_prefix
replace_all-lacks b [] p new h = refl
replace_all-lacks b (x ∷ s) p new h = ground (arith, replace_all-lacks b s p new)

pub lacks-append : (b : ℕ) (xs ys : Text) → lacks b (xs ++ ys) ≡ (lacks b xs && lacks b ys)
lacks-append b [] ys = refl
lacks-append b (x ∷ xs) ys = ground (arith, lacks-append b xs ys)

pub map-suc : (o : Option ℕ) → Option.map suc o ≡ shift 1 o
map-suc none = refl
map-suc (some n) = ap some (omega arith)
