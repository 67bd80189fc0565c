-- ===== src/Configuration/Replaced.antt =====
-- Of `StreamConfigurationValidator` in src/main/configuration/StreamConfigurationService.ts: the copy
-- of a configuration with some of its properties replaced.
use istream.Prelude.{
  ℕ, String, false, ◌≡◌, refl, ap, sym, subst, ◌∙◌, inl, inr, some, List, str_eq, eq_iff,
  Bool-cases,
}
use package.text.Mathlib.TextPositions.{eq_refl}
use istream.Contracts.Diagnostics.{Number, int}
use istream.Values.{Json, flag, number, text, array, Fields, end, field, get}
use istream.Configuration.Validator.{set, of_texts, check_kept, check_choices, replaced}

-- The fields of an object behind an assignment.
get-set : (key : String) (v : Json) (c : Fields) → get key (set key v c) ≡ some v
unfolding get set
get-set key v end = rw (eq_refl key) refl
get-set key v (field k w rest) = elim (Bool-cases (str_eq k key)) [
  | inl h ↦ rw (h, h) refl
  | inr h ↦ rw (h, h) (get-set key v rest)
]

get-set-other :
    (key other : String) (v : Json) (c : Fields)
    → str_eq other key ≡ false
    → get key (set other v c) ≡ get key c
unfolding get set
get-set-other key other v end e = rw e refl
get-set-other key other v (field k w rest) e = elim (Bool-cases (str_eq k other)) [
  | inl h ↦ rw (h, subst (λ x. str_eq x key ≡ false) (sym ((eq_iff k other).0 h)) e) refl
  | inr h ↦ elim (Bool-cases (str_eq k key)) [
    | inl f ↦ rw (h, f) refl
    | inr f ↦ rw (h, f) (get-set-other key other v rest e)
  ]
]

set-same : (key : String) (v : Json) (c : Fields) → get key c ≡ some v → set key v c ≡ c
unfolding get set
set-same key v end h = absurd (cc h)
set-same key v (field k w rest) h = elim (Bool-cases (str_eq k key)) [
  | inl e ↦ rw e (ap (λ u. field k u rest) (cc (rw e at h)))
  | inr e ↦ rw e (ap (field k w) (set-same key v rest (rw e at h)))
]

module _ (mbps : ℕ) (names : List String) (c : Fields) where
  abbrev muted : Fields → Fields
  muted d = set "inputEnabled" (flag false) d

  abbrev with_mbps : Fields → Fields
  with_mbps d = set "maximumBitrateMbps" (number (int mbps)) d

  abbrev with_names : Fields → Fields
  with_names d = set "protectedApplications" (array (of_texts names)) d

  pub get-kept :
      (key : String)
      → str_eq "protectedApplications" key ≡ false
      → str_eq "maximumBitrateMbps" key ≡ false
      → str_eq "inputEnabled" key ≡ false
      → get key (replaced mbps names c) ≡ get key c
  unfolding replaced
  get-kept key p m i =
      get-set-other key "protectedApplications" _ (with_mbps (muted c)) p
      ∙ get-set-other key "maximumBitrateMbps" _ (muted c) m
      ∙ get-set-other key "inputEnabled" _ c i

  pub get-names :
      get "protectedApplications" (replaced mbps names c) ≡ some (array (of_texts names))
  unfolding replaced
  get-names = get-set "protectedApplications" _ (with_mbps (muted c))

  pub get-mbps : get "maximumBitrateMbps" (replaced mbps names c) ≡ some (number (int mbps))
  unfolding replaced
  get-mbps =
      get-set-other "maximumBitrateMbps" "protectedApplications" (array (of_texts names))
        (with_mbps (muted c)) refl
      ∙ get-set "maximumBitrateMbps" _ (muted c)

  pub get-input : get "inputEnabled" (replaced mbps names c) ≡ some (flag false)
  unfolding replaced
  get-input =
      get-set-other "inputEnabled" "protectedApplications" (array (of_texts names))
        (with_mbps (muted c)) refl
      ∙ get-set-other "inputEnabled" "maximumBitrateMbps" (number (int mbps)) (muted c) refl
      ∙ get-set "inputEnabled" _ c

  pub replaced-replaced : replaced mbps names (replaced mbps names c) ≡ replaced mbps names c
  unfolding replaced
  replaced-replaced =
      ap (λ d. with_names (with_mbps d))
        (set-same "inputEnabled" (flag false) (replaced mbps names c) get-input)
      ∙ ap with_names
          (set-same "maximumBitrateMbps" (number (int mbps)) (replaced mbps names c) get-mbps)
      ∙ set-same "protectedApplications" (array (of_texts names)) (replaced mbps names c) get-names

  pub check_kept-replaced :
      (print : Number → String)
      → check_kept print (λ key. get key (replaced mbps names c))
        ≡ check_kept print λ key. get key c
  unfolding check_kept check_choices
  check_kept-replaced print =
      rw
        (
          get-kept "preset" refl refl refl,
          get-kept "codec" refl refl refl,
          get-kept "hdrMode" refl refl refl,
          get-kept "capacityFloorMode" refl refl refl,
          get-kept "targetWidth" refl refl refl,
          get-kept "targetHeight" refl refl refl,
          get-kept "targetFramesPerSecond" refl refl refl,
          get-kept "minimumFramesPerSecond" refl refl refl,
        )
        refl
