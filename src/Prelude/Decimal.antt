-- ===== src/Prelude/Decimal.antt =====
-- strconv: decimal text of an integer (`FormatInt` with base 10, `Itoa`).
use go_silver_core.Prelude.Int.{ℤ, pos, negsuc}
use go_silver_core.Prelude.Tests.{ltb, if◌then◌else◌}
use Prim.Native.Nat.{ℕ, zero, suc, ◌+◌, ◌/◌, ◌%◌}
use mathlib.Core.List.{List, [], ◌∷◌, ◌++◌}

-- The digits of `n`, most significant first; `fuel` bounds their number.
abbrev pub digits : ℕ → ℕ → List ℕ
digits zero n = []
digits (suc fuel) n =
    let high = digits fuel (n / 10) in
    if ltb n 10 then (n + 48) ∷ [] else high ++ (n % 10 + 48) ∷ []

-- A number below 2^64 has at most 20 digits; `n + 1` is enough for every `n`.
unfoldable pub format_nat : ℕ → List ℕ
format_nat n = digits (suc n) n

unfoldable pub format_int : ℤ → List ℕ
unfolding format_nat
format_int (pos n) = format_nat n
format_int (negsuc n) = b'-' ∷ format_nat (suc n)
