-- ===== src/Common/Digits.antt =====
-- The decimal digits of a number, as `fmt` prints it with `%d`.
use Prim.Native.Nat.{ℕ, zero, suc, ◌+◌, ◌/◌, ◌%◌}
use mathlib.Core.List.{[], ◌∷◌}
use chat_rag.Common.Tests.{ltb, if◌then◌else◌}
use chat_rag.Common.Strings.{Text}

-- The digits before `acc`; `suc n` rounds are enough for `n`, which has fewer digits.
digits_from : ℕ → ℕ → Text → Text
digits_from zero n acc = acc
digits_from (suc f) n acc =
    let d = b'0' + n % 10 in
    let rest = digits_from f (n / 10) (d ∷ acc) in if ltb n 10 then d ∷ acc else rest

unfoldable pub digits : ℕ → Text
unfolding digits_from
digits n = digits_from (suc n) n []
