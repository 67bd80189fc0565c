-- ===== src/Prelude/Decimals.antt =====
-- Decimal numerals: `counter.toString()` and `BigInt(text)` on a text of digits.
use Prim.Native.Nat.{ℕ, zero, suc, ◌+◌, ◌-◌, ◌*◌, ◌/◌, ◌%◌, ◌<◌}
use Prim.Native.Char.{Char, code}
use Prim.Native.String.{String}
use mathlib.Core.Path.{◌≡◌, refl, ap, ◌∙◌}
use native.Mathlib.Omega.{arith}
use istream.Prelude.Tests.{ltb, if◌then◌else◌, Bool-cases}
use mathlib.Core.Logic.{inl, inr}

unfoldable pub digit : ℕ → Char
digit zero = "0"
digit (suc zero) = "1"
digit (suc (suc zero)) = "2"
digit (suc (suc (suc zero))) = "3"
digit (suc (suc (suc (suc zero)))) = "4"
digit (suc (suc (suc (suc (suc zero))))) = "5"
digit (suc (suc (suc (suc (suc (suc zero)))))) = "6"
digit (suc (suc (suc (suc (suc (suc (suc zero))))))) = "7"
digit (suc (suc (suc (suc (suc (suc (suc (suc zero)))))))) = "8"
digit _ = "9"

pub code-digit : (d : ℕ) → d < 10 → code (digit d) ≡ b'0' + d
unfolding digit
code-digit zero h = refl
code-digit (suc zero) h = refl
code-digit (suc (suc zero)) h = refl
code-digit (suc (suc (suc zero))) h = refl
code-digit (suc (suc (suc (suc zero)))) h = refl
code-digit (suc (suc (suc (suc (suc zero))))) h = refl
code-digit (suc (suc (suc (suc (suc (suc zero)))))) h = refl
code-digit (suc (suc (suc (suc (suc (suc (suc zero))))))) h = refl
code-digit (suc (suc (suc (suc (suc (suc (suc (suc zero)))))))) h = refl
code-digit (suc (suc (suc (suc (suc (suc (suc (suc (suc zero))))))))) h = refl
code-digit (suc (suc (suc (suc (suc (suc (suc (suc (suc (suc n)))))))))) h = absurd (omega arith)

-- The digits of `n` in front of `acc`; `n + 1` rounds are enough, since `n` falls in each.
unfoldable pub digits : ℕ → ℕ → String → String
digits zero n acc = acc
digits (suc f) n acc =
    let more = digits f (n / 10) (String.◌∷◌ (digit (n % 10)) acc) in
    if ltb n 10 then String.◌∷◌ (digit n) acc else more

unfoldable pub to_decimal : ℕ → String
unfolding digits digit
to_decimal n = digits (suc n) n ""

unfoldable pub value_from : ℕ → String → ℕ
value_from acc String.[] = acc
value_from acc (String.◌∷◌ c s) = value_from (acc * 10 + (code c - b'0')) s

unfoldable pub of_decimal : String → ℕ
unfolding value_from
of_decimal s = value_from 0 s

value_from-digits :
    (f n : ℕ) (acc : String) → n < f → value_from 0 (digits f n acc) ≡ value_from n acc
unfolding digits value_from
value_from-digits zero n acc h = elim h [ ]
value_from-digits (suc f) n acc h = elim (Bool-cases (ltb n 10)) [
  | inl small ↦ rw small (ap (λ k. value_from k acc) (ground (arith, code-digit n (ground arith))))
  | inr big ↦ rw big (
      value_from-digits f (n / 10) (String.◌∷◌ (digit (n % 10)) acc) (ground arith)
      ∙ ap (λ k. value_from k acc) (omega (arith, code-digit (n % 10) (omega arith))))
]

pub of_decimal-to_decimal : (n : ℕ) → of_decimal (to_decimal n) ≡ n
unfolding of_decimal to_decimal
of_decimal-to_decimal n = value_from-digits (suc n) n "" (omega arith)
