-- ===== src/Prelude/Throwing.antt =====
-- A method that may throw. What it wrote before the throw stays written, so the state is returned
-- beside the error too. `Attempt S A` is such a method of an object with state `S`; `Result` is a
-- function that may throw and writes nothing. An error is its message.
use Prim.Native.String.{String}
use mathlib.Core.Path.{◌≡◌, refl, ap}
use mathlib.Core.Logic.{◌⊎◌, inl, inr}
use mathlib.Core.Bool.{Bool, true, false}

pub data Result {ℓ} (A : Type ℓ) : Type ℓ where
  ok : A → Result A
  thrown : String → Result A

abbrev pub and_then {ℓ κ} : {A : Type ℓ} {B : Type κ} → Result A → (A → Result B) → Result B
and_then (ok a) f = f a
and_then (thrown e) f = thrown e

abbrev pub Attempt {ℓ κ} : Type ℓ → Type κ → Type (ℓ ⊔ κ)
Attempt S A = S → Result A × S

module _ {ℓ κ} {S : Type ℓ} {A : Type κ} where
  abbrev pub pure : A → Attempt S A
  pure a s = (ok a, s)

  abbrev pub throw : String → Attempt S A
  throw e s = (thrown e, s)

  abbrev pub lift : Result A → Attempt S A
  lift r s = (r, s)

module _ {ℓ} {S : Type ℓ} where
  -- An assignment to the object's fields.
  abbrev pub modify : (S → S) → Attempt S (Unit {0})
  modify f s = (ok tt, f s)

  -- `if (test) { throw new Error(message); }`
  abbrev pub refuse_if : Bool → String → Attempt S (Unit {0})
  refuse_if true e s = (thrown e, s)
  refuse_if false e s = (ok tt, s)

module _ {ℓ κ μ} {S : Type ℓ} {A : Type κ} {B : Type μ} where
  abbrev pub continue : Result A → (A → Attempt S B) → Attempt S B
  continue (ok a) f s = f a s
  continue (thrown e) f s = (thrown e, s)

  infixl 5 ◌>>=◌
  abbrev pub ◌>>=◌ : Attempt S A → (A → Attempt S B) → Attempt S B
  ◌>>=◌ m f s = let r = m s in continue r.0 f r.1

module _ {ℓ κ} {S : Type ℓ} {B : Type κ} where
  infixl 5 ◌>>◌
  abbrev pub ◌>>◌ : Attempt S (Unit {0}) → Attempt S B → Attempt S B
  m >> n = m >>= λ _. n

module _ {ℓ κ μ} {S : Type ℓ} {A : Type κ} {B : Type μ} where
  continue-eq-ok :
      (r : Result A) (f : A → Attempt S B) (s : S) {b : B} {s' : S}
      → continue r f s ≡ (ok b, s')
      → (a : A) × (r ≡ ok a) × (f a s ≡ (ok b, s'))
  continue-eq-ok (ok a) f s h = (a, refl, h)
  continue-eq-ok (thrown e) f s h = absurd (cc (ap (λ r. r.0) h))

  continue-ok :
      (r : Result A) (f : A → Attempt S B) (s : S) (a : A) → r ≡ ok a → continue r f s ≡ f a s
  continue-ok r f s a e = rw e refl

  -- Behind a part that succeeds, the sequence is its second part.
  pub >>=-ok :
      (m : Attempt S A) (f : A → Attempt S B) (s : S) (a : A)
      → (m s).0 ≡ ok a
      → (m >>= f) s ≡ f a (m s).1
  >>=-ok m f s a e = continue-ok (m s).0 f (m s).1 a e

  continue-split :
      (r : Result A) (f : A → Attempt S B) (s : S) {b : B}
      → (continue r f s).0 ≡ ok b
      → (a : A) × (r ≡ ok a) × (continue r f s ≡ f a s)
  continue-split (ok a) f s h = (a, refl, refl)
  continue-split (thrown e) f s h = absurd (cc h)

  -- If a sequence succeeds, so does its first part.
  pub >>=-split :
      (m : Attempt S A) (f : A → Attempt S B) (s : S) {b : B}
      → ((m >>= f) s).0 ≡ ok b
      → (a : A) × ((m s).0 ≡ ok a) × ((m >>= f) s ≡ f a (m s).1)
  >>=-split m f s h = continue-split (m s).0 f (m s).1 h

  -- Inversion of a successful sequence.
  pub >>=-eq-ok :
      (m : Attempt S A) (f : A → Attempt S B) (s : S) {b : B} {s' : S}
      → (m >>= f) s ≡ (ok b, s')
      → (a : A) × (t : S) × (m s ≡ (ok a, t)) × (f a t ≡ (ok b, s'))
  >>=-eq-ok m f s h =
      let (a, first, rest) = continue-eq-ok (m s).0 f (m s).1 h in
      (a, (m s).1, ap (λ r. (r, (m s).1)) first, rest)

module _ {ℓ κ μ ν} {S : Type ℓ} {A : Type κ} {B : Type μ} (P : S → Type ν) where
  -- What holds of the state after the first part, and is kept by the second, holds at the end.
  pub continue-keeps :
      (r : Result A) (f : A → Attempt S B) (s : S)
      → P s
      → ((a : A) → P (f a s).1)
      → P (continue r f s).1
  continue-keeps (ok a) f s h k = k a
  continue-keeps (thrown e) f s h k = h

  pub >>=-keeps :
      (m : Attempt S A) (f : A → Attempt S B) (s : S)
      → P (m s).1
      → ((a : A) → P (f a (m s).1).1)
      → P ((m >>= f) s).1
  >>=-keeps m f s h k = continue-keeps (m s).0 f (m s).1 h k

  -- A sequence whose parts each keep a property, from any state, keeps it.
  pub >>=-keeps-each :
      (m : Attempt S A) (f : A → Attempt S B)
      → ((s : S) → P s → P (m s).1)
      → ((a : A) (s : S) → P s → P (f a s).1)
      → (s : S) → P s
      → P ((m >>= f) s).1
  >>=-keeps-each m f first rest s h =
      continue-keeps (m s).0 f (m s).1 (first s h) (λ a. rest a (m s).1 (first s h))

pub Result-cases {ℓ} :
    {A : Type ℓ} (r : Result A) → ((a : A) × (r ≡ ok a)) ⊎ ((e : String) × (r ≡ thrown e))
Result-cases (ok a) = inl (a, refl)
Result-cases (thrown e) = inr (e, refl)
