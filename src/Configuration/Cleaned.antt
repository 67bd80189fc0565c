-- ===== src/Configuration/Cleaned.antt =====
-- The list of protected applications as `StreamConfigurationValidator.validate` cleans it: trimmed,
-- without empty names, each name once.
use Prim.Native.Char.{code}
use Prim.Native.String as S
use istream.Prelude.{
  suc, String, Bool, true, false, not, ◌≡◌, refl, ap, sym, ◌∙◌, ◌≤◌, inl, inr, List, [], ◌∷◌, map,
  arith, str_eq, Bool-cases, length, keep, All, All-keep, length-keep-le, ltb,
}
use istream.Prelude.Texts.{is_space, trim, trim_start, trim_end, text_length}

-- `[...new Set(list)]`: the first of equal names stays.
unfoldable pub distinct : List String → List String
distinct [] = []
distinct (x ∷ xs) = x ∷ keep (λ y. not (str_eq y x)) (distinct xs)

-- `application.length > 0`
abbrev is_name : String → Bool
is_name s = ltb 0 (text_length s)

unfoldable pub trimmed : List String → List String
unfolding trim
trimmed xs = keep is_name (map trim xs)

-- A text that does not start with white space.
abbrev is_open : String → Bool
is_open S.[] = true
is_open (S.◌∷◌ c s) = not (is_space (code c))

not-true : (b : Bool) → not b ≡ true → b ≡ false
not-true true h = sym h
not-true false h = refl

trim_start-is_open : (s : String) → is_open (trim_start s) ≡ true
unfolding trim_start
trim_start-is_open S.[] = refl
trim_start-is_open (S.◌∷◌ c s) = elim (Bool-cases (is_space (code c))) [
  | inl h ↦ rw h (trim_start-is_open s)
  | inr h ↦ rw h (ap not h)
]

trim_start-open : (s : String) → is_open s ≡ true → trim_start s ≡ s
unfolding trim_start
trim_start-open S.[] h = refl
trim_start-open (S.◌∷◌ c s) h = rw (not-true (is_space (code c)) h) refl

trim_end-is_open : (s : String) → is_open s ≡ true → is_open (trim_end s) ≡ true
unfolding trim_end
trim_end-is_open S.[] h = refl
trim_end-is_open (S.◌∷◌ c s) h = rw (not-true (is_space (code c)) h) h

trim_end-trim_end : (s : String) → trim_end (trim_end s) ≡ trim_end s
unfolding trim_end
trim_end-trim_end S.[] = refl
trim_end-trim_end (S.◌∷◌ c s) = elim (Bool-cases (is_space (code c))) [
  | inl h ↦ elim (Bool-cases (str_eq (trim_end s) "")) [
    | inl e ↦ rw (h, e) refl
    | inr e ↦ rw (h, e, h, trim_end-trim_end s, e) refl
  ]
  | inr h ↦ rw (h, h) (ap (S.◌∷◌ c) (trim_end-trim_end s))
]

trim-trim : (s : String) → trim (trim s) ≡ trim s
unfolding trim
trim-trim s =
    ap trim_end (trim_start-open (trim s) (trim_end-is_open (trim_start s) (trim_start-is_open s)))
    ∙ trim_end-trim_end (trim_start s)

-- What every name of a cleaned list is.
abbrev pub IsClean : String → Type 0
IsClean s = (trim s ≡ s) × (is_name s ≡ true)

trimmed-IsClean : (xs : List String) → All IsClean (trimmed xs)
unfolding trimmed
trimmed-IsClean [] = tt
trimmed-IsClean (x ∷ xs) = elim (Bool-cases (is_name (trim x))) [
  | inl h ↦ rw h (((trim-trim x, h), trimmed-IsClean xs))
  | inr h ↦ rw h (trimmed-IsClean xs)
]

pub trimmed-clean : (xs : List String) → All IsClean xs → trimmed xs ≡ xs
unfolding trimmed
trimmed-clean [] h = refl
trimmed-clean (x ∷ xs) ((same, named), h) = rw (same, named) (ap (◌∷◌ x) (trimmed-clean xs h))

length-map : (f : String → String) (xs : List String) → length (map f xs) ≡ length xs
length-map f [] = refl
length-map f (x ∷ xs) = ap suc (length-map f xs)

length-trimmed : (xs : List String) → length (trimmed xs) ≤ length xs
unfolding trimmed
length-trimmed xs = ground (arith, length-keep-le is_name (map trim xs), length-map trim xs)

module _ (P : String → Type 0) where
  All-kept : (p : String → Bool) (xs : List String) → All P xs → All P (keep p xs)
  All-kept p [] h = tt
  All-kept p (x ∷ xs) (k, h) = elim (Bool-cases (p x)) [
    | inl e ↦ rw e ((k, All-kept p xs h))
    | inr e ↦ rw e (All-kept p xs h)
  ]

  All-distinct : (xs : List String) → All P xs → All P (distinct xs)
  unfolding distinct
  All-distinct [] h = tt
  All-distinct (x ∷ xs) (k, h) = (k, All-kept _ (distinct xs) (All-distinct xs h))

keep-same : (p : String → Bool) (xs : List String) → All (λ x. p x ≡ true) xs → keep p xs ≡ xs
keep-same p [] h = refl
keep-same p (x ∷ xs) (k, h) = rw k (ap (◌∷◌ x) (keep-same p xs h))

abbrev Differs : String → String → Type 0
Differs x y = not (str_eq y x) ≡ true

abbrev pub AreDistinct : List String → Type 0
AreDistinct [] = Unit
AreDistinct (x ∷ xs) = All (Differs x) xs × AreDistinct xs

keep-AreDistinct : (p : String → Bool) (xs : List String) → AreDistinct xs → AreDistinct (keep p xs)
keep-AreDistinct p [] h = tt
keep-AreDistinct p (x ∷ xs) (k, h) = elim (Bool-cases (p x)) [
  | inl e ↦ rw e ((All-kept (Differs x) p xs k, keep-AreDistinct p xs h))
  | inr e ↦ rw e (keep-AreDistinct p xs h)
]

distinct-AreDistinct : (xs : List String) → AreDistinct (distinct xs)
unfolding distinct
distinct-AreDistinct [] = tt
distinct-AreDistinct (x ∷ xs) = (
  All-keep (Differs x) _ (distinct xs) (λ y e. e),
  keep-AreDistinct _ (distinct xs) (distinct-AreDistinct xs),
)

pub distinct-same : (xs : List String) → AreDistinct xs → distinct xs ≡ xs
unfolding distinct
distinct-same [] h = refl
distinct-same (x ∷ xs) (k, h) = rw (distinct-same xs h) (ap (◌∷◌ x) (keep-same _ xs k))

length-distinct : (xs : List String) → length (distinct xs) ≤ length xs
unfolding distinct
length-distinct [] = omega arith
length-distinct (x ∷ xs) =
    omega (arith, length-keep-le (λ y. not (str_eq y x)) (distinct xs), length-distinct xs)

-- `[...new Set(list.map(trim).filter(nonempty))]`
unfoldable pub cleaned : List String → List String
unfolding distinct trimmed
cleaned xs = distinct (trimmed xs)

pub cleaned-IsClean : (xs : List String) → All IsClean (cleaned xs)
unfolding cleaned
cleaned-IsClean xs = All-distinct IsClean (trimmed xs) (trimmed-IsClean xs)

pub cleaned-AreDistinct : (xs : List String) → AreDistinct (cleaned xs)
unfolding cleaned
cleaned-AreDistinct xs = distinct-AreDistinct (trimmed xs)

pub length-cleaned : (xs : List String) → length (cleaned xs) ≤ length xs
unfolding cleaned
length-cleaned xs = omega (arith, length-distinct (trimmed xs), length-trimmed xs)

-- A property of all names before the repeated ones go is one of the names that stay.
pub All-cleaned : (P : String → Type 0) (xs : List String) → All P (trimmed xs) → All P (cleaned xs)
unfolding cleaned
All-cleaned P xs h = All-distinct P (trimmed xs) h
