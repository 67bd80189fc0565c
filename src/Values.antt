-- ===== src/Values.antt =====
-- The values of type `unknown` that the validators read: what `JSON.parse` returns, and the tests
-- that the validators make on it. An absent property is `none`, as `undefined` is in the source.
use istream.Prelude.{
  ℕ, String, Bool, true, false, ◌&&◌, Option, none, some, List, [], ◌∷◌, ltb, leb, str_eq,
  if◌then◌else◌, Result, ok, thrown,
}
use istream.Prelude.Texts.{text_length, matches_base64}
use istream.Contracts.Diagnostics.{Number, int, fraction, infinity, minus_infinity}

mutual
  pub data Json : Type 0 where
    null : Json
    flag : Bool → Json
    number : Number → Json
    text : String → Json
    array : Items → Json
    object : Fields → Json

  pub data Items : Type 0 where
    nil : Items
    cons : Json → Items → Items

  -- An object's own properties, each key once.
  pub data Fields : Type 0 where
    end : Fields
    field : String → Json → Fields → Fields

unfoldable pub get : String → Fields → Option Json
get key end = none
get key (field k v rest) = if str_eq k key then some v else get key rest

abbrev pub items : Items → List Json
items nil = []
items (cons v vs) = v ∷ items vs

abbrev pub entries : Fields → List (String × Json)
entries end = []
entries (field k v rest) = (k, v) ∷ entries rest

-- `typeof value !== 'object' || value === null || Array.isArray(value)` throws.
unfoldable pub record_or_throw : String → Json → Result Fields
record_or_throw message (object fields) = ok fields
record_or_throw message _ = thrown message

abbrev pub as_text : Option Json → Option String
as_text (some (text s)) = some s
as_text _ = none

abbrev pub as_flag : Option Json → Option Bool
as_flag (some (flag b)) = some b
as_flag _ = none

abbrev pub as_number : Option Json → Option Number
as_number (some (number n)) = some n
as_number _ = none

abbrev pub is_null : Option Json → Bool
is_null (some null) = true
is_null _ = false

abbrev pub keep_if {ℓ} : {A : Type ℓ} → (A → Bool) → Option A → Option A
keep_if p none = none
keep_if p (some a) = if p a then some a else none

-- `value.length > 0 && value.length <= maximum`, and that on a value that is a string.
abbrev pub fits : ℕ → String → Bool
fits most s = ltb 0 (text_length s) && leb (text_length s) most

unfoldable pub identifier : ℕ → Option Json → Option String
identifier most v = keep_if (fits most) (as_text v)

unfoldable pub base64 : ℕ → Option Json → Option String
base64 most v = keep_if (λ s. fits most s && matches_base64 s) (as_text v)

-- An integer from `low` to `high`, both natural numbers.
unfoldable pub integer_within : ℕ → ℕ → Option Json → Option ℕ
integer_within low high (some (number (int n))) = if leb low n && leb n high then some n else none
integer_within low high _ = none

-- `value === text` and `value === number` for a constant on the right.
abbrev pub is_text : String → Option Json → Bool
is_text s (some (text t)) = str_eq t s
is_text s _ = false

unfoldable pub is_finite : Number → Bool
is_finite infinity = false
is_finite minus_infinity = false
is_finite _ = true

-- `value < bound` and `value > bound` for a natural number on the right.
unfoldable pub number_below : Number → ℕ → Bool
number_below (int n) bound = ltb n bound
number_below (fraction n _) bound = ltb n bound
number_below infinity bound = false
number_below _ bound = true

unfoldable pub number_above : Number → ℕ → Bool
number_above (int n) bound = ltb bound n
number_above (fraction n _) bound = leb bound n
number_above infinity bound = true
number_above _ bound = false

-- JSON has a text for the value: every number in it is finite. `JSON.stringify` writes an infinite
-- number as null.
unfoldable mutual
  pub has_text : Json → Bool
  has_text (number n) = is_finite n
  has_text (array vs) = have_text vs
  has_text (object c) = fields_have_text c
  has_text _ = true

  pub have_text : Items → Bool
  have_text nil = true
  have_text (cons v vs) = has_text v && have_text vs

  pub fields_have_text : Fields → Bool
  fields_have_text end = true
  fields_have_text (field key v rest) = has_text v && fields_have_text rest

-- `Number.MAX_SAFE_INTEGER`
abbrev pub max_safe_integer : ℕ
max_safe_integer = 9007199254740991

-- A row of tests as a `do` block: the first that fails makes the whole fail.
infixl 5 ◌>>=◌
abbrev pub ◌>>=◌ {ℓ κ} : {A : Type ℓ} {B : Type κ} → Option A → (A → Option B) → Option B
none >>= f = none
some a >>= f = f a

abbrev pub check : Bool → Option (Unit {0})
check b = if b then some tt else none

abbrev pub or_throw {ℓ} : {A : Type ℓ} → String → Option A → Result A
or_throw message none = thrown message
or_throw message (some a) = ok a

-- `value === null || test(value)` with the value that the test hands on.
abbrev pub nullable {ℓ} : {A : Type ℓ} → (Option Json → Option A) → Option Json → Option (Option A)
nullable f (some null) = some none
nullable f v = do a ← f v; some (some a)
