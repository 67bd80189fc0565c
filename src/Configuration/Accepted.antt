-- ===== src/Configuration/Accepted.antt =====
-- Of `StreamConfigurationValidator` in src/main/configuration/StreamConfigurationService.ts: the
-- configurations that it accepts.
use istream.Prelude.{
  ℕ, String, Bool, true, ◌≡◌, refl, ap, subst, ◌∙◌, ◌≤◌, inl, inr, Option, some, List, [], ◌∷◌, not,
  false, arith, Bool-cases, Result-cases, ok,
}
use istream.Contracts.Diagnostics.{Number, int}
use istream.Values.{Json, flag, number, array, object, Fields, get}
use istream.Configuration.Validator.{
  of_texts, applications, bitrate, changed, check_kept, replaced, validate_fields, validate,
  is_flag, check_choices, check_resolution, check_rates, exceeds, is_step,
}
use istream.Configuration.Replaced.{
  get-kept, get-names, get-mbps, get-input, replaced-replaced, check_kept-replaced,
}
use istream.Configuration.Changed.{
  AreSound, applications-AreSound, applications-of_texts, bitrate-bounds, bitrate-int,
  changed-split,
}

module _ (print : Number → String) (half_up : ℕ → ℕ → Bool) where
  -- A configuration was accepted if it is another one with the three properties replaced.
  record Origin (f : Fields) : Type 0 where
    source : Fields
    mbps : ℕ
    names : List String
    kept : check_kept print (λ key. get key source) ≡ ok tt
    bitrate_is : bitrate half_up (get "maximumBitrateMbps" source) ≡ some mbps
    lock_is : is_flag (get "applicationSafetyLockEnabled" source) ≡ true
    names_are : applications (get "protectedApplications" source) ≡ ok names
    is : replaced mbps names source ≡ f

  validate_fields-Origin : (c f : Fields) → validate_fields print half_up c ≡ ok f → Origin f
  unfolding validate_fields
  validate_fields-Origin c f h = elim (Result-cases (check_kept print λ key. get key c)) [
    | inr (e, k) ↦ absurd (cc (rw k at h))
    | inl (u, k) ↦ elim (Result-cases (changed half_up λ key. get key c)) [
      | inr (e, m) ↦ absurd (cc (rw (k, m) at h))
      | inl ((mbps, names), m) ↦
          let (b, l, a) = changed-split half_up (λ key. get key c) mbps names m in
          record {
            source = c;
            mbps = mbps;
            names = names;
            kept = k;
            bitrate_is = b;
            lock_is = l;
            names_are = a;
            is = cc (rw (k, m) at h);
          }
    ]
  ]

  changed-replaced :
      (mbps : ℕ) (names : List String) (c : Fields)
      → (5 ≤ mbps) × (mbps ≤ 200)
      → is_flag (get "applicationSafetyLockEnabled" c) ≡ true
      → AreSound names
      → changed half_up (λ key. get key (replaced mbps names c)) ≡ ok (mbps, names)
  unfolding changed
  changed-replaced mbps names c (low, high) lock sound =
      rw
        (
          get-mbps mbps names c,
          bitrate-int half_up mbps low high,
          get-input mbps names c,
          get-kept mbps names c "applicationSafetyLockEnabled" refl refl refl,
          lock,
          get-names mbps names c,
          applications-of_texts names sound,
        )
        refl

  again : (f : Fields) → Origin f → validate_fields print half_up f ≡ ok f
  unfolding validate_fields
  again f o =
      subst (λ d. validate_fields print half_up d ≡ ok d) o.is
        (rw
          (
            check_kept-replaced o.mbps o.names o.source print,
            o.kept,
            changed-replaced o.mbps o.names o.source
                (bitrate-bounds half_up (get "maximumBitrateMbps" o.source) o.mbps o.bitrate_is)
                o.lock_is
                (applications-AreSound (get "protectedApplications" o.source) o.names o.names_are),
          )
          (ap ok (replaced-replaced o.mbps o.names o.source)))

  validate-Origin : (v : Json) (f : Fields) → validate print half_up v ≡ ok f → Origin f
  unfolding validate
  validate-Origin (object c) f h = validate_fields-Origin c f h
  validate-Origin v f h = absurd (cc h)

  -- What the validator accepts it accepts again, and returns it unchanged.
  pub validate-validate :
      (v : Json) (f : Fields)
      → validate print half_up v ≡ ok f
      → validate print half_up (object f) ≡ ok f
  unfolding validate
  validate-validate v f h = again f (validate-Origin v f h)

-- What holds of every configuration that the program uses.
pub record IsSupported (f : Fields) : Type 0 where
  pub input_off : get "inputEnabled" f ≡ some (flag false)
  pub mbps : ℕ
  pub mbps_is : get "maximumBitrateMbps" f ≡ some (number (int mbps))
  pub mbps_low : 5 ≤ mbps
  pub mbps_high : mbps ≤ 200
  pub least : ℕ
  pub target : ℕ
  pub least_is : get "minimumFramesPerSecond" f ≡ some (number (int least))
  pub target_is : get "targetFramesPerSecond" f ≡ some (number (int target))
  pub least_below : least ≤ target
  pub names : List String
  pub names_are : get "protectedApplications" f ≡ some (array (of_texts names))
  pub names_sound : AreSound names

is_step-int :
    (steps : List ℕ) (v : Option Json)
    → is_step steps v ≡ true
    → (n : ℕ) × (v ≡ some (number (int n)))
is_step-int [] v h = absurd (cc h)
is_step-int (n ∷ rest) (some (number (int m))) h = (m, refl)
is_step-int (n ∷ rest) v h = is_step-int rest v h

not-exceeds :
    (m n : ℕ) → not (exceeds (some (number (int m))) (some (number (int n)))) ≡ true → m ≤ n
not-exceeds m n h = ground arith

check_rates-split :
    (target least : Option Json)
    → check_rates target least ≡ ok tt
    → (m : ℕ) × (n : ℕ) × (least ≡ some (number (int m)))
      × (target ≡ some (number (int n)))
      × (m ≤ n)
unfolding check_rates
check_rates-split target least h = elim (Bool-cases (is_step (30 ∷ 60 ∷ 90 ∷ 120 ∷ []) target)) [
  | inr e ↦ absurd (cc (rw e at h))
  | inl e ↦ elim (Bool-cases (is_step (15 ∷ 20 ∷ 30 ∷ 45 ∷ 60 ∷ []) least)) [
    | inr f ↦ absurd (cc (rw (e, f) at h))
    | inl f ↦ elim (Bool-cases (not (exceeds least target))) [
      | inr k ↦ absurd (cc (rw (e, f, k) at h))
      | inl k ↦
          let (n, is_n) = is_step-int (30 ∷ 60 ∷ 90 ∷ 120 ∷ []) target e in
          let (m, is_m) = is_step-int (15 ∷ 20 ∷ 30 ∷ 45 ∷ 60 ∷ []) least f in
          (m, n, is_m, is_n, not-exceeds m n (rw (is_m, is_n) at k))
    ]
  ]
]

check_kept-rates :
    (print : Number → String) (g : String → Option Json)
    → check_kept print g ≡ ok tt
    → check_rates (g "targetFramesPerSecond") (g "minimumFramesPerSecond") ≡ ok tt
unfolding check_kept
check_kept-rates print g h = elim (Result-cases (check_choices g)) [
  | inr (x, e) ↦ absurd (cc (rw e at h))
  | inl (u, e) ↦ elim (Result-cases (check_resolution print (g "targetWidth") (g "targetHeight"))) [
    | inr (x, f) ↦ absurd (cc (rw (e, f) at h))
    | inl (v, f) ↦ rw (e, f) at h
  ]
]

module _ (print : Number → String) (half_up : ℕ → ℕ → Bool) where
  supported : (f : Fields) → Origin print half_up f → IsSupported f
  supported f o =
      let (m, n, is_m, is_n, below) =
        check_rates-split _ _ (check_kept-rates print (λ key. get key o.source) o.kept) in
      let (low, high) =
        bitrate-bounds half_up (get "maximumBitrateMbps" o.source) o.mbps o.bitrate_is in
      subst IsSupported o.is (record {
        input_off = get-input o.mbps o.names o.source;
        mbps = o.mbps;
        mbps_is = get-mbps o.mbps o.names o.source;
        mbps_low = low;
        mbps_high = high;
        least = m;
        target = n;
        least_is = get-kept o.mbps o.names o.source "minimumFramesPerSecond" refl refl refl ∙ is_m;
        target_is = get-kept o.mbps o.names o.source "targetFramesPerSecond" refl refl refl ∙ is_n;
        least_below = below;
        names = o.names;
        names_are = get-names o.mbps o.names o.source;
        names_sound =
            applications-AreSound (get "protectedApplications" o.source) o.names o.names_are;
      })

  -- Whatever the validator is given, what it accepts is a supported configuration.
  pub validate-IsSupported :
      (v : Json) (f : Fields) → validate print half_up v ≡ ok f → IsSupported f
  validate-IsSupported v f h = supported f (validate-Origin print half_up v f h)
