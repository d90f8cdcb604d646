-- ===== src/Base/Text.antt =====
-- Texts built from pieces, and `std::to_string` of an integer.
use Prim.Native.Nat.{ℕ, zero, suc, ◌/◌, ◌%◌}
use Prim.Native.String.{String, ◌++◌}
use mathlib.Core.List.{List, [], ◌∷◌}
use bento_box.Base.Tests.{ltb, if◌then◌else◌}
use bento_box.Base.Int.{ℤ, pos, negsuc}

abbrev pub joined : List String → String
joined [] = ""
joined (s ∷ rest) = s ++ joined rest

abbrev digit : ℕ → String
digit zero = "0"
digit (suc zero) = "1"
digit (suc (suc zero)) = "2"
digit (suc (suc (suc zero))) = "3"
digit (suc (suc (suc (suc zero)))) = "4"
digit (suc (suc (suc (suc (suc zero))))) = "5"
digit (suc (suc (suc (suc (suc (suc zero)))))) = "6"
digit (suc (suc (suc (suc (suc (suc (suc zero))))))) = "7"
digit (suc (suc (suc (suc (suc (suc (suc (suc zero)))))))) = "8"
digit n = "9"

-- The decimal digits of `n`, in at most as many rounds as the fuel.
digits : ℕ → ℕ → String
digits zero n = ""
digits (suc fuel) n =
    let high = digits fuel (n / 10) in if ltb n 10 then digit n else high ++ digit (n % 10)

-- An int64 has at most 19 digits.
abbrev fuel : ℕ
fuel = 19

unfoldable pub to_string : ℤ → String
unfolding digits
to_string (pos n) = digits fuel n
to_string (negsuc n) = "-" ++ digits fuel (suc n)
