-- ===== src/Examples/Codec.antt =====
-- A code for JSON values: the part of `Lawful` about JSON at a concrete pair of functions. A text
-- starts with the size of its value in unary.
use Prim.Native.Char.{Char, code}
use istream.Prelude.{
  ℕ, zero, suc, ◌+◌, ◌≤◌, String, true, false, Option, none, some, ◌≡◌, refl, ◌==◌, if◌then◌else◌,
  arith, Bool-cases, inl, inr, ap, ◌∙◌,
}
use package.text.Mathlib.TextEquality.{Char-path}
use istream.Values.{
  Json, null, flag, number, text, array, object, Items, nil, cons, Fields, end, field,
}
use istream.Contracts.Diagnostics.{
  Number, int, negative, fraction, negative_fraction, infinity, minus_infinity,
}

emit_nat : ℕ → String → String
emit_nat zero r = String.◌∷◌ "." r
emit_nat (suc n) r = String.◌∷◌ "1" (emit_nat n r)

read_nat : String → Option (ℕ × String)
read_nat String.[] = none
read_nat (String.◌∷◌ c s) =
    let more = read_nat s in
    if code c == b'.'
    then some (0, s)
    else elim more [ none ↦ none | some (n, r) ↦ some (suc n, r) ]

read_nat-emit : (n : ℕ) (r : String) → read_nat (emit_nat n r) ≡ some (n, r)
unfolding read_nat emit_nat
read_nat-emit zero r = refl
read_nat-emit (suc n) r = ground (arith, read_nat-emit n r)

emit_char : Char → String → String
emit_char c r = if code c == 10 then String.◌∷◌ "2" r else String.◌∷◌ "1" (String.◌∷◌ c r)

emit_text : String → String → String
emit_text String.[] r = String.◌∷◌ "." r
emit_text (String.◌∷◌ c s) r = emit_char c (emit_text s r)

newline : Char
newline = "\n"

read_text : String → Option (String × String)
read_text String.[] = none
read_text (String.◌∷◌ t String.[]) = if code t == b'.' then some ("", "") else none
read_text (String.◌∷◌ t (String.◌∷◌ c s)) =
    let plain = read_text s in
    let broken = read_text (String.◌∷◌ c s) in
    if code t == b'.'
    then some ("", String.◌∷◌ c s)
    else if code t == b'2'
    then (elim broken [ none ↦ none | some (u, r) ↦ some (String.◌∷◌ newline u, r) ])
    else elim plain [ none ↦ none | some (u, r) ↦ some (String.◌∷◌ c u, r) ]

emit_text-cons : (s r : String) → (t : Char) × (u : String) × (emit_text s r ≡ String.◌∷◌ t u)
unfolding emit_text emit_char
emit_text-cons String.[] r = (".", r, refl)
emit_text-cons (String.◌∷◌ c s) r = elim (Bool-cases (code c == 10)) [
  | inl e ↦ ("2", emit_text s r, rw e)
  | inr e ↦ ("1", String.◌∷◌ c (emit_text s r), rw e)
]

read_text-broken :
    (x : String) (t : Char) (u : String) {s r : String}
    → x ≡ String.◌∷◌ t u
    → read_text x ≡ some (s, r)
    → read_text (String.◌∷◌ "2" x) ≡ some (String.◌∷◌ newline s, r)
unfolding read_text
read_text-broken x t u e h = rw e (rw (rw e at h))

read_text-emit : (s r : String) → read_text (emit_text s r) ≡ some (s, r)
unfolding emit_text emit_char read_text newline
read_text-emit String.[] String.[] = refl
read_text-emit String.[] (String.◌∷◌ c r) = refl
read_text-emit (String.◌∷◌ c s) r = elim (Bool-cases (code c == 10)) [
  | inl e ↦
      let (t, u, shape) = emit_text-cons s r in
      let same : newline ≡ c = Char-path newline c (ground arith) in
      rw e (
        read_text-broken (emit_text s r) t u shape (read_text-emit s r)
        ∙ ap (λ d. some (String.◌∷◌ d s, r)) same)
  | inr e ↦ rw e (rw (read_text-emit s r))
]

emit_number : Number → String → String
emit_number (int n) r = String.◌∷◌ "i" (emit_nat n r)
emit_number (negative n) r = String.◌∷◌ "n" (emit_nat n r)
emit_number (fraction n d) r = String.◌∷◌ "f" (emit_nat n (emit_nat d r))
emit_number (negative_fraction n d) r = String.◌∷◌ "g" (emit_nat n (emit_nat d r))
emit_number infinity r = String.◌∷◌ "+" r
emit_number minus_infinity r = String.◌∷◌ "-" r

then_nat {ℓ} : {A : Type ℓ} → Option (ℕ × String) → (ℕ → String → Option A) → Option A
then_nat none f = none
then_nat (some (n, r)) f = f n r

read_number : String → Option (Number × String)
unfolding then_nat
read_number String.[] = none
read_number (String.◌∷◌ t s) =
    if code t == b'i'
    then then_nat (read_nat s) (λ n r. some (int n, r))
    else if code t == b'n'
    then then_nat (read_nat s) (λ n r. some (negative n, r))
    else if code t == b'f'
    then then_nat (read_nat s) (λ n r. then_nat (read_nat r) (λ d u. some (fraction n d, u)))
    else if code t == b'g'
    then then_nat (read_nat s)
        (λ n r. then_nat (read_nat r) (λ d u. some (negative_fraction n d, u)))
    else if code t == b'+'
    then some (infinity, s)
    else some (minus_infinity, s)

read_number-emit : (n : Number) (r : String) → read_number (emit_number n r) ≡ some (n, r)
unfolding read_number emit_number
read_number-emit (int n) r = rw (read_nat-emit n r)
read_number-emit (negative n) r = rw (read_nat-emit n r)
read_number-emit (fraction n d) r = simp read_nat-emit
read_number-emit (negative_fraction n d) r = simp read_nat-emit
read_number-emit infinity r = refl
read_number-emit minus_infinity r = refl

mutual
  size : Json → ℕ
  size null = 1
  size (flag b) = 1
  size (number n) = 1
  size (text s) = 1
  size (array vs) = suc (size_items vs)
  size (object fs) = suc (size_fields fs)

  size_items : Items → ℕ
  size_items nil = 1
  size_items (cons v vs) = suc (size v + size_items vs)

  size_fields : Fields → ℕ
  size_fields end = 1
  size_fields (field k v fs) = suc (size v + size_fields fs)

mutual
  unfolding emit_text emit_number

  emit : Json → String → String
  emit null r = String.◌∷◌ "z" r
  emit (flag true) r = String.◌∷◌ "t" r
  emit (flag false) r = String.◌∷◌ "f" r
  emit (number n) r = String.◌∷◌ "n" (emit_number n r)
  emit (text s) r = String.◌∷◌ "s" (emit_text s r)
  emit (array vs) r = String.◌∷◌ "a" (emit_items vs r)
  emit (object fs) r = String.◌∷◌ "o" (emit_fields fs r)

  emit_items : Items → String → String
  emit_items nil r = String.◌∷◌ "." r
  emit_items (cons v vs) r = String.◌∷◌ "1" (emit v (emit_items vs r))

  emit_fields : Fields → String → String
  emit_fields end r = String.◌∷◌ "." r
  emit_fields (field k v fs) r = String.◌∷◌ "1" (emit_text k (emit v (emit_fields fs r)))

abbrev on {ℓ κ} :
    {A : Type ℓ} {B : Type κ}
    → Option (A × String)
    → (A → String → Option (B × String))
    → Option (B × String)
on none f = none
on (some (a, r)) f = f a r

mutual
  read : ℕ → String → Option (Json × String)
  read zero s = none
  read (suc f) String.[] = none
  read (suc f) (String.◌∷◌ t s) =
      let a = read_items f s in
      let o = read_fields f s in
      if code t == b'z'
      then some (null, s)
      else if code t == b't'
      then some (flag true, s)
      else if code t == b'f'
      then some (flag false, s)
      else if code t == b'n'
      then on (read_number s) (λ n r. some (number n, r))
      else if code t == b's'
      then on (read_text s) (λ u r. some (text u, r))
      else if code t == b'a'
      then on a (λ vs r. some (array vs, r))
      else on o (λ fs r. some (object fs, r))

  read_items : ℕ → String → Option (Items × String)
  read_items zero s = none
  read_items (suc f) String.[] = none
  read_items (suc f) (String.◌∷◌ t s) =
      let first = read f s in
      let next : Json → String → Option (Items × String) =
        λ v r. on (read_items f r) (λ vs u. some (cons v vs, u)) in
      if code t == b'.' then some (nil, s) else on first next

  read_fields : ℕ → String → Option (Fields × String)
  read_fields zero s = none
  read_fields (suc f) String.[] = none
  read_fields (suc f) (String.◌∷◌ t s) =
      let value : String → String → Option (Fields × String) =
        λ k r. on (read f r) (λ v u. on (read_fields f u) (λ fs w. some (field k v fs, w))) in
      if code t == b'.' then some (end, s) else on (read_text s) value

size-pos : (v : Json) → 1 ≤ size v
unfolding size
size-pos null = omega arith
size-pos _ = omega arith

size_items-pos : (vs : Items) → 1 ≤ size_items vs
unfolding size
size_items-pos nil = omega arith
size_items-pos _ = omega arith

size_fields-pos : (fs : Fields) → 1 ≤ size_fields fs
unfolding size
size_fields-pos end = omega arith
size_fields-pos _ = omega arith

-- Enough fuel: the size of the value or more.
mutual
  unfolding size emit read read_items read_fields emit_items emit_fields size_items size_fields

  read-emit : (v : Json) (f : ℕ) (r : String) → size v ≤ f → read f (emit v r) ≡ some (v, r)
  read-emit v zero r h = absurd (omega (arith, size-pos v))
  read-emit null (suc f) r h = refl
  read-emit (flag true) (suc f) r h = refl
  read-emit (flag false) (suc f) r h = refl
  read-emit (number n) (suc f) r h = rw (read_number-emit n r)
  read-emit (text s) (suc f) r h = rw (read_text-emit s r)
  read-emit (array vs) (suc f) r h = rw (read_items-emit vs f r (omega arith))
  read-emit (object fs) (suc f) r h = rw (read_fields-emit fs f r (omega arith))

  read_items-emit :
      (vs : Items) (f : ℕ) (r : String)
      → size_items vs ≤ f
      → read_items f (emit_items vs r) ≡ some (vs, r)
  read_items-emit vs zero r h = absurd (omega (arith, size_items-pos vs))
  read_items-emit nil (suc f) r h = refl
  read_items-emit (cons v vs) (suc f) r h =
      rw (read-emit v f (emit_items vs r) (omega arith), read_items-emit vs f r (omega arith))

  read_fields-emit :
      (fs : Fields) (f : ℕ) (r : String)
      → size_fields fs ≤ f
      → read_fields f (emit_fields fs r) ≡ some (fs, r)
  read_fields-emit fs zero r h = absurd (omega (arith, size_fields-pos fs))
  read_fields-emit end (suc f) r h = refl
  read_fields-emit (field k v fs) (suc f) r h = rw (
    read_text-emit k (emit v (emit_fields fs r)),
    read-emit v f (emit_fields fs r) (omega arith),
    read_fields-emit fs f r (omega arith),
  )

unfoldable pub stringify : Json → String
unfolding emit_nat emit size emit_char
stringify v = emit_nat (size v) (emit v "")

abbrev value_of : Option (Json × String) → Option Json
value_of none = none
value_of (some (v, u)) = some v

unfoldable pub parse : String → Option Json
unfolding then_nat read_nat read read_number read_text newline
parse s = then_nat (read_nat s) (λ f r. value_of (read f r))

parse_emit :
    (n : ℕ) (v : Json) (t : String)
    → read_nat t ≡ some (n, emit v "")
    → size v ≤ n
    → parse t ≡ some v
unfolding parse
parse_emit n v t e h = rw e (ap value_of (read-emit v n "" h))

pub parse-stringify : (v : Json) → parse (stringify v) ≡ some v
unfolding stringify
parse-stringify v =
    parse_emit (size v) v (emit_nat (size v) (emit v "")) (read_nat-emit (size v) (emit v ""))
      (omega arith)
