-- ===== src/Common/Text.antt =====
-- `Display` of an integer and `[String]::join`.
use para_p2p.Common.Basics.{ltb}
use para_p2p.Common.Int.{ℤ, pos, negsuc}
use mathlib.Core.Bool.{true, false}
use mathlib.Core.List.{List, [], ◌∷◌}
use Prim.Native.Nat.{ℕ, zero, suc, ◌/◌, ◌%◌}
use Prim.Native.String.{String, ◌++◌, slice}

-- The decimal digits of a number, on as much fuel as there are digits.
unfoldable digits : ℕ → ℕ → String
digits zero n = ""
digits (suc fuel) n = elim (ltb n 10) [
  | true ↦ slice "0123456789" n (suc n)
  | false ↦ digits fuel (n / 10) ++ slice "0123456789" (n % 10) (suc (n % 10))
]

-- `Display` of an integer.
unfoldable pub write_int : ℤ → String
unfolding digits
write_int (pos n) = digits (suc n) n
write_int (negsuc n) = "-" ++ digits (suc (suc n)) (suc n)

unfoldable pub join : List String → String → String
join [] separator = ""
join (s ∷ []) separator = s
join (s ∷ rest) separator = s ++ separator ++ join rest separator
