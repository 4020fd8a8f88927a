-- ===== src/Base/Errors.antt =====
-- A value or an error, as Go's `(T, error)` pairs are used.
use Prim.Native.String.{String, ◌++◌}
use mathlib.Core.Path.{◌≡◌, refl}
use mathlib.Core.Logic.{◌⊎◌, inl, inr}

pub data Result (E A : Type 0) : Type 0 where
  ok : A → Result E A
  err : E → Result E A

pub Result-cases :
    {E A : Type 0} (r : Result E A) → ((a : A) × (r ≡ ok a)) ⊎ ((e : E) × (r ≡ err e))
Result-cases (ok a) = inl (a, refl)
Result-cases (err e) = inr (e, refl)

-- `fmt.Sprintf("…%v", s)`: a fixed text, then the value's.
unfoldable pub format_v : String → String → String
format_v prefix s = prefix ++ s
