-- ===== src/Base/Decimal.antt =====
-- Decimal numerals: `strconv.ParseUint(s, 10, 32)` of the standard library, and the digits that
-- `%d` prints. A number of 64 bits has at most twenty digits, so twenty rounds print it.
use Prim.Native.Nat.{ℕ, zero, suc, ◌+◌, ◌-◌, ◌*◌, ◌/◌, ◌%◌, ◌^◌, ◌<◌}
use Prim.Native.Char.{Char, code}
use Prim.Native.String.{String}
use mathlib.Core.Path.{◌≡◌, refl, ◌∙◌}
use mathlib.Core.Bool.{◌&&◌}
use mathlib.Core.Logic.{inl, inr}
use mathlib.Core.Option.{Option, none, some}
use native.Mathlib.Omega.{arith}
use ss2025_web.Base.Tests.{ltb, leb, ◌==◌, if◌then◌else◌, Bool-cases}

-- The loop of `ParseUint`; `none` is a syntax or a range error, which no caller tells apart.
scan : String → ℕ → Option ℕ
scan String.[] n = some n
scan (String.◌∷◌ c s) n =
    let d = code c - b'0' in
    let rest = scan s (n * 10 + d) in
    if leb b'0' (code c) && leb (code c) b'9'
    then (if ltb (n * 10 + d) (2 ^ 32) then rest else none)
    else none

unfoldable pub parse_uint32 : String → Option ℕ
unfolding scan
parse_uint32 String.[] = none
parse_uint32 (String.◌∷◌ c s) = scan (String.◌∷◌ c s) 0

digit : ℕ → Char
digit zero = "0"
digit (suc zero) = "1"
digit (suc (suc zero)) = "2"
digit (suc (suc (suc zero))) = "3"
digit (suc (suc (suc (suc zero)))) = "4"
digit (suc (suc (suc (suc (suc zero))))) = "5"
digit (suc (suc (suc (suc (suc (suc zero)))))) = "6"
digit (suc (suc (suc (suc (suc (suc (suc zero))))))) = "7"
digit (suc (suc (suc (suc (suc (suc (suc (suc zero)))))))) = "8"
digit _ = "9"

emit : ℕ → ℕ → String → String
emit zero n out = out
emit (suc f) n out =
    let longer = emit f (n / 10) (String.◌∷◌ (digit (n % 10)) out) in
    if n / 10 == 0 then String.◌∷◌ (digit (n % 10)) out else longer

-- `%d` of an unsigned integer.
unfoldable pub decimal : ℕ → String
unfolding emit digit
decimal n = emit 20 n ""

-- Ten to the power f, by recursion.
abbrev ten_pow : ℕ → ℕ
ten_pow zero = 1
ten_pow (suc f) = 10 * ten_pow f

code-digit : (d : ℕ) → d < 10 → code (digit d) ≡ b'0' + d
unfolding digit
code-digit zero h = refl
code-digit (suc zero) h = refl
code-digit (suc (suc zero)) h = refl
code-digit (suc (suc (suc zero))) h = refl
code-digit (suc (suc (suc (suc zero)))) h = refl
code-digit (suc (suc (suc (suc (suc zero))))) h = refl
code-digit (suc (suc (suc (suc (suc (suc zero)))))) h = refl
code-digit (suc (suc (suc (suc (suc (suc (suc zero))))))) h = refl
code-digit (suc (suc (suc (suc (suc (suc (suc (suc zero)))))))) h = refl
code-digit (suc (suc (suc (suc (suc (suc (suc (suc (suc zero))))))))) h = refl
code-digit (suc (suc (suc (suc (suc (suc (suc (suc (suc (suc n)))))))))) h = absurd (omega arith)

-- Reading the last digit of n after the others reads n.
scan-digit :
    (s : String) (n m : ℕ)
    → n < 2 ^ 32
    → m ≡ n / 10
    → scan (String.◌∷◌ (digit (n % 10)) s) m ≡ scan s n
unfolding scan
scan-digit s n m h e =
    let c : code (digit (n % 10)) ≡ b'0' + n % 10 = code-digit (n % 10) (omega arith) in
    let k : n / 10 * 10 + (b'0' + n % 10 - b'0') ≡ n = omega arith in rw (c, e, k) (ground arith)

scan-emit :
    (f n : ℕ) (out : String) → n < ten_pow f → n < 2 ^ 32 → scan (emit f n out) 0 ≡ scan out n
unfolding emit
scan-emit zero n out h k = let e : n ≡ 0 = omega arith in rw e
scan-emit (suc f) n out h k = elim (Bool-cases (n / 10 == 0)) [
  | inl last ↦ rw last (scan-digit out n 0 k (ground arith))
  | inr more ↦ rw more (
      scan-emit f (n / 10) (String.◌∷◌ (digit (n % 10)) out) (omega arith) (omega arith)
      ∙ scan-digit out n (n / 10) k refl)
]

-- A non-empty text is read by the loop from 0.
parse_uint32-emit :
    (f n : ℕ) (c : Char) (out : String)
    → parse_uint32 (emit f n (String.◌∷◌ c out)) ≡ scan (emit f n (String.◌∷◌ c out)) 0
unfolding parse_uint32 emit
parse_uint32-emit zero n c out = refl
parse_uint32-emit (suc f) n c out = elim (Bool-cases (n / 10 == 0)) [
  | inl last ↦ rw last
  | inr more ↦ rw more (parse_uint32-emit f (n / 10) (digit (n % 10)) (String.◌∷◌ c out))
]

decimal_step : (f n : ℕ) → parse_uint32 (emit (suc f) n "") ≡ scan (emit (suc f) n "") 0
unfolding parse_uint32 emit
decimal_step f n = elim (Bool-cases (n / 10 == 0)) [
  | inl last ↦ rw last
  | inr more ↦ rw more (parse_uint32-emit f (n / 10) (digit (n % 10)) "")
]

-- What `%d` prints of a number of 32 bits, `ParseUint` reads back.
pub parse_uint32-decimal : (n : ℕ) → n < 2 ^ 32 → parse_uint32 (decimal n) ≡ some n
unfolding decimal
parse_uint32-decimal n h =
    decimal_step 19 n ∙ scan-emit 20 n "" (omega arith) h ∙ (unfold scan in refl)

scan-lt : (s : String) (n m : ℕ) → n < 2 ^ 32 → scan s n ≡ some m → m < 2 ^ 32
unfolding scan
scan-lt String.[] n m h e = ground arith
scan-lt (String.◌∷◌ c s) n m h e = ground (arith, scan-lt s (n * 10 + (code c - b'0')) m)

-- An accepted text stands for a number of 32 bits.
pub parse_uint32-lt : (s : String) {m : ℕ} → parse_uint32 s ≡ some m → m < 2 ^ 32
unfolding parse_uint32
parse_uint32-lt String.[] e = cc
parse_uint32-lt (String.◌∷◌ c s) {m} e = scan-lt (String.◌∷◌ c s) 0 m (omega arith) e
