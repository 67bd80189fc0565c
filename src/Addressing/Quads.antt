-- ===== src/Addressing/Quads.antt =====
-- The addresses that are written the usual way, as four decimal numbers with points between them.
use Prim.Native.Nat.{◌/◌, ◌%◌}
use Prim.Native.Char.{code, Char}
use istream.Prelude.{
  ℕ, zero, suc, ◌<◌, String, text_append, Bool, true, not, some, ltb, ◌≡◌, refl, ap, subst, ◌∙◌,
  sym, arith, Bool-cases, inl, inr,
}
use text.Mathlib.TextLemmas.{nil-append, cons-append, append-nil}
use istream.Prelude.Texts.{is_digit, every, trim_start}
use istream.Prelude.Decimals.{to_decimal, digits, digit, code-digit}
use istream.Addressing.{digit_run, unsigned, signed, parse_int}
use istream.Contracts.Diagnostics.{int}

-- Whether a text does not begin with a digit.
abbrev pub no_digit : String → Bool
no_digit String.[] = true
no_digit (String.◌∷◌ c s) = not (is_digit (code c))

is_digit-digit : (d : ℕ) → d < 10 → is_digit (code (digit d)) ≡ true
is_digit-digit d h = ground (arith, code-digit d h)

digit_run-digits : (f n : ℕ) (acc : String) → n < f → digit_run 0 (digits f n acc) ≡ digit_run n acc
unfolding digits digit_run
digit_run-digits zero n acc h = elim h [ ]
digit_run-digits (suc f) n acc h = elim (Bool-cases (ltb n 10)) [
  | inl small ↦
      rw (small, is_digit-digit n (ground arith))
        (ap (λ k. digit_run k acc) (ground (arith, code-digit n (ground arith))))
  | inr big ↦ rw big (
      digit_run-digits f (n / 10) (String.◌∷◌ (digit (n % 10)) acc) (ground arith)
      ∙ rw (is_digit-digit (n % 10) (omega arith))
          (ap (λ k. digit_run k acc) (omega (arith, code-digit (n % 10) (omega arith)))))
]

digits-head :
    (f n : ℕ) (acc : String)
    → n < f
    → (c : Char) × (s : String) × (digits f n acc ≡ String.◌∷◌ c s) × (is_digit (code c) ≡ true)
unfolding digits
digits-head zero n acc h = elim h [ ]
digits-head (suc f) n acc h = elim (Bool-cases (ltb n 10)) [
  | inl small ↦ (digit n, acc, rw small refl, is_digit-digit n (ground arith))
  | inr big ↦
      let (c, s, e, d) = digits-head f (n / 10) (String.◌∷◌ (digit (n % 10)) acc) (ground arith) in
      (c, s, rw big e, d)
]

append-digits :
    (f n : ℕ) (acc rest : String)
    → text_append (digits f n acc) rest ≡ digits f n (text_append acc rest)
unfolding digits
append-digits zero n acc rest = refl
append-digits (suc f) n acc rest = elim (Bool-cases (ltb n 10)) [
  | inl small ↦ rw small (cons-append (digit n) acc rest)
  | inr big ↦ rw big (
      append-digits f (n / 10) (String.◌∷◌ (digit (n % 10)) acc) rest
      ∙ ap (digits f (n / 10)) (cons-append (digit (n % 10)) acc rest))
]

-- The text of a number with another text behind it.
unfoldable pub numeral : ℕ → String → String
numeral n rest = text_append (to_decimal n) rest

numeral-digits : (n : ℕ) (rest : String) → numeral n rest ≡ digits (suc n) n rest
unfolding numeral to_decimal
numeral-digits n rest = append-digits (suc n) n "" rest ∙ ap (digits (suc n) n) (nil-append rest)

digit_run-no_digit : (n : ℕ) (s : String) → no_digit s ≡ true → digit_run n s ≡ n
unfolding digit_run
digit_run-no_digit n String.[] h = refl
digit_run-no_digit n (String.◌∷◌ c s) h = ground arith

signed-digit :
    (c : Char) (s : String)
    → is_digit (code c) ≡ true
    → signed (String.◌∷◌ c s) ≡ some (int (digit_run 0 (String.◌∷◌ c s)))
unfolding signed unsigned
signed-digit c s h = ground arith

trim_start-digit :
    (c : Char) (s : String)
    → is_digit (code c) ≡ true
    → trim_start (String.◌∷◌ c s) ≡ String.◌∷◌ c s
unfolding trim_start
trim_start-digit c s h = ground arith

-- A number is read from its decimal digits, and what stands behind them is not looked at.
pub parse_int-numeral :
    (n : ℕ) (rest : String) → no_digit rest ≡ true → parse_int (numeral n rest) ≡ some (int n)
unfolding parse_int
parse_int-numeral n rest h =
    let (c, s, e, d) = digits-head (suc n) n rest (omega arith) in
    rw (numeral-digits n rest, e, trim_start-digit c s d, signed-digit c s d)
      (ap (λ k. some (int k))
        (ap (digit_run 0) (sym e)
          ∙ digit_run-digits (suc n) n rest (omega arith)
          ∙ digit_run-no_digit n rest h))

-- What holds of every digit and of every character of the rest holds of the whole text.
every-digits :
    (p : ℕ → Bool)
    → ((c : ℕ) → is_digit c ≡ true → p c ≡ true)
    → (f n : ℕ) (acc : String) → every p acc ≡ true
    → every p (digits f n acc) ≡ true
unfolding digits every
every-digits p every_digit zero n acc h = h
every-digits p every_digit (suc f) n acc h = elim (Bool-cases (ltb n 10)) [
  | inl small ↦ rw (small, every_digit (code (digit n)) (is_digit-digit n (ground arith))) h
  | inr big ↦ rw big (
      every-digits p every_digit f (n / 10) (String.◌∷◌ (digit (n % 10)) acc)
        (rw (every_digit (code (digit (n % 10))) (is_digit-digit (n % 10) (omega arith))) h))
]

pub every-numeral :
    (p : ℕ → Bool)
    → ((c : ℕ) → is_digit c ≡ true → p c ≡ true)
    → (n : ℕ) (rest : String) → every p rest ≡ true
    → every p (numeral n rest) ≡ true
every-numeral p every_digit n rest h =
    rw (numeral-digits n rest) (every-digits p every_digit (suc n) n rest h)

pub numeral-nil : (n : ℕ) → numeral n "" ≡ to_decimal n
unfolding numeral
numeral-nil n = append-nil (to_decimal n)

pub every-to_decimal :
    (p : ℕ → Bool)
    → ((c : ℕ) → is_digit c ≡ true → p c ≡ true)
    → (n : ℕ) → every p (to_decimal n) ≡ true
unfolding every
every-to_decimal p every_digit n =
    subst (λ s. every p s ≡ true) (numeral-nil n) (every-numeral p every_digit n "" refl)
