-- ===== src/Configuration/Changed.antt =====
-- Of `StreamConfigurationValidator` in src/main/configuration/StreamConfigurationService.ts: the
-- bitrate and the protected applications that it accepts.
use istream.Prelude.{
  ℕ, suc, String, Bool, true, false, ◌&&◌, ◌≡◌, refl, ap, subst, ◌∙◌, ◌≤◌, inl, inr, Option, some,
  List, [], ◌∷◌, arith, Bool-cases, Option-cases, Result-cases, length, All, ok, ltb,
}
use istream.Prelude.Texts.{text_length}
use istream.Contracts.Diagnostics.{int, fraction}
use istream.Values.{Json, number, text, array, Items, nil, cons, items}
use istream.Configuration.Cleaned.{
  trimmed, cleaned, IsClean, AreDistinct, cleaned-IsClean, cleaned-AreDistinct, trimmed-clean,
  distinct-same, length-cleaned, All-cleaned,
}
use istream.Configuration.Validator.{
  of_texts, texts, applications, bitrate, too_long, changed, is_flag,
}

abbrev IsShort : String → Type 0
IsShort s = text_length s ≤ 260

too_long-All : (xs : List String) → too_long xs ≡ false → All IsShort xs
too_long-All [] h = tt
too_long-All (x ∷ xs) h = (ground arith, too_long-All xs (ground arith))

All-too_long : (xs : List String) → All IsShort xs → too_long xs ≡ false
All-too_long [] h = refl
All-too_long (x ∷ xs) (k, h) = ground (arith, All-too_long xs h)

some-injective {ℓ} : {A : Type ℓ} {a b : A} → some a ≡ some b → a ≡ b
some-injective h = cc h

length-texts : (vs : Items) (xs : List String) → texts vs ≡ some xs → length (items vs) ≡ length xs
unfolding texts
length-texts nil xs h = ap length (some-injective h)
length-texts (cons (text s) rest) xs h = elim (Option-cases (texts rest)) [
  | inl e ↦ absurd (cc (rw e at h))
  | inr (ys, e) ↦ ap suc (length-texts rest ys e) ∙ ap length (some-injective (rw e at h))
]
length-texts (cons v rest) xs h = absurd (cc h)

texts-of_texts : (xs : List String) → texts (of_texts xs) ≡ some xs
unfolding texts
texts-of_texts [] = refl
texts-of_texts (x ∷ xs) = rw (texts-of_texts xs) refl

length-of_texts : (xs : List String) → length (items (of_texts xs)) ≡ length xs
length-of_texts [] = refl
length-of_texts (x ∷ xs) = ap suc (length-of_texts xs)

-- The list of protected applications that the program may hold.
pub record AreSound (names : List String) : Type 0 where
  pub are_clean : All IsClean names
  pub are_distinct : AreDistinct names
  pub are_few : length names ≤ 50
  pub are_short : All IsShort names

applications-split :
    (vs : Items) (names : List String)
    → applications (some (array vs)) ≡ ok names
    → (xs : List String) × (texts vs ≡ some xs)
      × (length (items vs) ≤ 50)
      × (too_long (trimmed xs) ≡ false)
      × (cleaned xs ≡ names)
unfolding applications
applications-split vs names h = elim (Bool-cases (ltb 50 (length (items vs)))) [
  | inl many ↦ absurd (cc (rw many at h))
  | inr few ↦ elim (Option-cases (texts vs)) [
    | inl e ↦ absurd (cc (rw (few, e) at h))
    | inr (xs, e) ↦ elim (Bool-cases (too_long (trimmed xs))) [
      | inl long ↦ absurd (cc (rw (few, e, long) at h))
      | inr short ↦ (xs, e, ground arith, short, cc (rw (few, e, short) at h))
    ]
  ]
]

pub applications-AreSound :
    (v : Option Json) (names : List String) → applications v ≡ ok names → AreSound names
unfolding applications
applications-AreSound (some (array vs)) names h =
    let (xs, e, few, short, same) = applications-split vs names h in
    subst AreSound same (record {
      are_clean = cleaned-IsClean xs;
      are_distinct = cleaned-AreDistinct xs;
      are_few = omega (arith, length-texts vs xs e, length-cleaned xs);
      are_short = All-cleaned IsShort xs (too_long-All (trimmed xs) short);
    })
applications-AreSound v names h = absurd (cc h)

pub applications-of_texts :
    (names : List String) → AreSound names → applications (some (array (of_texts names))) ≡ ok names
unfolding applications
applications-of_texts names s =
    rw (few, texts-of_texts names, trimmed-clean names s.are_clean, All-too_long names s.are_short)
      (ap ok (distinct-same names s.are_distinct))
  where
    few : ltb 50 (length (items (of_texts names))) ≡ false
    few = ground (arith, length-of_texts names, s.are_few)

pub bitrate-bounds :
    (half_up : ℕ → ℕ → Bool) (v : Option Json) (n : ℕ)
    → bitrate half_up v ≡ some n
    → (5 ≤ n) × (n ≤ 200)
unfolding bitrate
bitrate-bounds half_up (some (number (int m))) n h = ground arith
bitrate-bounds half_up (some (number (fraction m d))) n h = ground arith
bitrate-bounds half_up v n h = absurd (cc h)

pub bitrate-int :
    (half_up : ℕ → ℕ → Bool) (n : ℕ)
    → 5 ≤ n
    → n ≤ 200
    → bitrate half_up (some (number (int n))) ≡ some n
unfolding bitrate
bitrate-int half_up n l h = ground arith

ok-injective {ℓ} : {A : Type ℓ} {a b : A} → ok a ≡ ok b → a ≡ b
ok-injective h = cc h

and-right : (a b : Bool) → a && b ≡ true → b ≡ true
and-right true b h = h
and-right false b h = absurd (cc h)

pub changed-split :
    (half_up : ℕ → ℕ → Bool) (g : String → Option Json) (mbps : ℕ) (names : List String)
    → changed half_up g ≡ ok (mbps, names)
    → (bitrate half_up (g "maximumBitrateMbps") ≡ some mbps)
      × (is_flag (g "applicationSafetyLockEnabled") ≡ true)
      × (applications (g "protectedApplications") ≡ ok names)
unfolding changed
changed-split half_up g mbps names h =
    elim (Option-cases (bitrate half_up (g "maximumBitrateMbps"))) [
      | inl e ↦ absurd (cc (rw e at h))
      | inr (m, e) ↦
          elim (Bool-cases
            (is_flag (g "inputEnabled") && is_flag (g "applicationSafetyLockEnabled"))) [
              | inl f ↦ elim (Result-cases (applications (g "protectedApplications"))) [
                | inl (found, k) ↦
                    let same = ok-injective (rw (e, f, k) at h) in
                    (e ∙ ap (λ r. some r.0) same, and-right _ _ f, k ∙ ap (λ r. ok r.1) same)
                | inr (x, k) ↦ absurd (cc (rw (e, f, k) at h))
              ]
              | inr f ↦ absurd (cc (rw (e, f) at h))
            ]
    ]
