-- ===== src/Common/Decimal.antt =====
-- Numbers in decimal: `strconv.Itoa` and the verb `%d`.
use Prim.Native.Nat.{ℕ, zero, suc, ◌/◌, ◌%◌}
use Prim.Native.String.{String, ◌++◌}
use mathlib.Core.Option.{none, some}
use mathlib.Core.List.{List, [], ◌∷◌}
use agent_dashboard.Common.Tests.{ltb, if◌then◌else◌}
use agent_dashboard.Common.Lists.{get_elem?}
use agent_dashboard.Common.Int.{ℤ, pos, negsuc}

abbrev digit_texts : List String
digit_texts = "0" ∷ "1" ∷ "2" ∷ "3" ∷ "4" ∷ "5" ∷ "6" ∷ "7" ∷ "8" ∷ "9" ∷ []

abbrev digit_of : ℕ → String
digit_of d = elim (get_elem? digit_texts d) [ none ↦ "" | some s ↦ s ]

-- The digits of a number in decimal; a number has fewer of them than it has units.
unfoldable pub digits_of : ℕ → ℕ → String
digits_of zero n = ""
digits_of (suc fuel) n =
    let front = digits_of fuel (n / 10) in
    if ltb n 10 then digit_of n else front ++ digit_of (n % 10)

-- `strconv.Itoa` and `%d`, of a number that is not negative.
unfoldable pub itoa : ℕ → String
itoa n = digits_of (suc n) n

-- `%d` of an integer.
abbrev pub format_int : ℤ → String
format_int (pos n) = itoa n
format_int (negsuc n) = "-" ++ itoa (suc n)
