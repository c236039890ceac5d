-- ===== src/Prelude/Text.antt =====
-- Text as bytes: the bytes of an ASCII literal, and `format!("{}", n)` of an unsigned number.
use Prim.Native.Char.{code}
use Prim.Native.String.{String}
use Prim.Native.Nat.{ℕ, zero, suc, ◌+◌, ◌/◌, ◌%◌}
use mathlib.Core.Path.{◌≡◌, refl}
use mathlib.Core.List.{List, [], ◌∷◌, ◌++◌}
use savepoint_signer.Prelude.Tests.{ltb, if◌then◌else◌}

abbrev pub codes : String → List ℕ
codes String.[] = []
codes (String.◌∷◌ c s) = code c ∷ codes s

-- At most `n` decimal digits of `x`.
unfoldable pub digits : ℕ → ℕ → List ℕ
digits zero x = []
digits (suc n) x =
    let rest = digits n (x / 10) in if ltb x 10 then (48 + x) ∷ [] else rest ++ (48 + x % 10) ∷ []

-- Twenty digits are enough for a u64.
unfoldable pub decimal : ℕ → List ℕ
unfolding digits
decimal x = digits 20 x

decimal_example : decimal 1234 ≡ codes "1234"
unfolding decimal digits
decimal_example = refl
