-- ===== src/Configuration/Validator.antt =====
-- `StreamConfigurationValidator` of src/main/configuration/StreamConfigurationService.ts. What it is
-- given comes from a file or from the window and is any value; what it accepts it copies with every
-- property, so that the result is an object's fields.
use istream.Prelude.{
  ℕ, suc, String, Bool, true, false, not, ◌&&◌, ◌||◌, Option, none, some, List, [], ◌∷◌, is_none,
  ltb, leb, ◌==◌, length, str_eq, text_append, if◌then◌else◌, Result, ok, thrown,
}
use istream.Prelude.Texts.{text_length}
use istream.Contracts.Diagnostics.{Number, int, fraction}
use istream.Values.{
  Json, null, flag, number, text, array, object, Items, nil, cons, Fields, end, field, get, items,
  is_text, as_flag, or_throw,
}
use istream.Configuration.Cleaned.{trimmed, cleaned}

-- The message of an error that the engine itself throws.
abbrev pub type_error : String
type_error = "TypeError"

-- `list.includes(value)` of texts and of natural numbers.
abbrev one_of : List String → Option Json → Bool
one_of [] v = false
one_of (s ∷ rest) v = is_text s v || one_of rest v

abbrev is_number : ℕ → Option Json → Bool
is_number n (some (number (int m))) = m == n
is_number n _ = false

abbrev pub is_step : List ℕ → Option Json → Bool
is_step [] v = false
is_step (n ∷ rest) v = is_number n v || is_step rest v

-- An entry of an array in the text of the array.
abbrev entry : Json → Option String → Option String
entry null s = some ""
entry _ s = s

abbrev joined : Option String → Option String → Option String
joined none t = none
joined (some s) none = none
joined (some s) (some t) = some (text_append s t)

-- What a value adds to a template, `print` being that of a number. An object whose own property
-- hides `toString` makes the template throw.
unfoldable mutual
  pub printed : (Number → String) → Json → Option String
  printed print null = some "null"
  printed print (flag true) = some "true"
  printed print (flag false) = some "false"
  printed print (number n) = some (print n)
  printed print (text s) = some s
  printed print (array nil) = some ""
  printed print (array (cons v rest)) = joined (entry v (printed print v)) (remaining print rest)
  printed print (object c) = if is_none (get "toString" c) then some "[object Object]" else none

  pub remaining : (Number → String) → Items → Option String
  remaining print nil = some ""
  remaining print (cons v rest) =
      joined (some ",") (joined (entry v (printed print v)) (remaining print rest))

abbrev printed? : (Number → String) → Option Json → Option String
unfolding printed
printed? print none = some "undefined"
printed? print (some v) = printed print v

abbrev is_resolution : String → Bool
is_resolution s =
    str_eq s "1280x720" || str_eq s "1920x1080" || str_eq s "2560x1440" || str_eq s "3840x2160"

abbrev pub unless : Bool → String → Result (Unit {0})
unless true e = ok tt
unless false e = thrown e

unfoldable pub check_resolution : (Number → String) → Option Json → Option Json → Result (Unit {0})
unfolding printed
check_resolution print width height =
    elim (joined (printed? print width) (joined (some "x") (printed? print height))) [
      | none ↦ thrown type_error
      | some s ↦ unless (is_resolution s) "Unsupported target resolution."
    ]

-- `minimum > target`, of the steps that have been accepted before.
abbrev pub exceeds : Option Json → Option Json → Bool
exceeds (some (number (int m))) (some (number (int n))) = ltb n m
exceeds _ _ = false

-- A bitrate from 5 to 200, rounded; `half_up` tells the fractions of at least a half.
unfoldable pub bitrate : (ℕ → ℕ → Bool) → Option Json → Option ℕ
bitrate half_up (some (number (int n))) = if leb 5 n && leb n 200 then some n else none
bitrate half_up (some (number (fraction n d))) =
    if leb 5 n && ltb n 200 then some (if half_up n d then suc n else n) else none
bitrate half_up _ = none

abbrev pub is_flag : Option Json → Bool
is_flag v = not (is_none (as_flag v))

-- `list.map(application => application.trim())` throws at an entry that is no text.
unfoldable pub texts : Items → Option (List String)
texts nil = some []
texts (cons (text s) rest) = elim (texts rest) [ none ↦ none | some xs ↦ some (s ∷ xs) ]
texts (cons _ rest) = none

abbrev pub too_long : List String → Bool
too_long [] = false
too_long (s ∷ rest) = ltb 260 (text_length s) || too_long rest

unfoldable pub applications : Option Json → Result (List String)
unfolding texts trimmed cleaned
applications (some (array vs)) =
    if ltb 50 (length (items vs))
    then thrown "Protected application list is invalid."
    else elim (texts vs) [
      | none ↦ thrown type_error
      | some xs ↦
          if too_long (trimmed xs)
          then thrown "Protected application list is invalid."
          else ok (cleaned xs)
    ]
applications _ = thrown "Protected application list is invalid."

-- `{ ...object, key: value }`: the key keeps its place.
unfoldable pub set : String → Json → Fields → Fields
set key v end = field key v end
set key v (field k w rest) = if str_eq k key then field k v rest else field k w (set key v rest)

abbrev pub of_texts : List String → Items
of_texts [] = nil
of_texts (s ∷ rest) = cons (text s) (of_texts rest)

infixl 5 ◌>>=◌
abbrev pub ◌>>=◌ {ℓ κ} : {A : Type ℓ} {B : Type κ} → Result A → (A → Result B) → Result B
ok a >>= f = f a
thrown e >>= f = thrown e

infixl 5 ◌>>◌
abbrev pub ◌>>◌ {κ} : {B : Type κ} → Result (Unit {0}) → Result B → Result B
m >> n = m >>= λ _. n

-- The choices among names, of an object whose properties `g` reads.
unfoldable pub check_choices : (String → Option Json) → Result (Unit {0})
check_choices g = do
  unless (one_of ("gaming" ∷ "desktop" ∷ []) (g "preset")) "Unknown streaming preset."
  unless (one_of ("h264" ∷ "hevc" ∷ []) (g "codec")) "Unknown video codec."
  unless (one_of ("off" ∷ "automatic" ∷ []) (g "hdrMode")) "Unknown HDR mode."
  unless (one_of ("freeze-and-reconnect-at-hd" ∷ "allow-below-hd" ∷ []) (g "capacityFloorMode"))
      "Unknown capacity floor behavior."

-- The frame rates, the target and the minimum.
unfoldable pub check_rates : Option Json → Option Json → Result (Unit {0})
check_rates target least = do
  unless (is_step (30 ∷ 60 ∷ 90 ∷ 120 ∷ []) target) "Target frame rate must use a supported step."
  unless (is_step (15 ∷ 20 ∷ 30 ∷ 45 ∷ 60 ∷ []) least)
      "Minimum frame rate must use a supported step."
  unless (not (exceeds least target)) "Minimum frame rate cannot exceed the target."

-- The settings that are kept as they are.
unfoldable pub check_kept : (Number → String) → (String → Option Json) → Result (Unit {0})
unfolding check_choices check_resolution check_rates
check_kept print g = do
  check_choices g
  check_resolution print (g "targetWidth") (g "targetHeight")
  check_rates (g "targetFramesPerSecond") (g "minimumFramesPerSecond")

-- The settings that are changed: the bitrate and the protected applications.
unfoldable pub changed : (ℕ → ℕ → Bool) → (String → Option Json) → Result (ℕ × List String)
unfolding bitrate applications
changed half_up g = do
  mbps ←
      or_throw "Maximum bitrate must be between 5 and 200 Mbps."
        (bitrate half_up (g "maximumBitrateMbps"))
  unless (is_flag (g "inputEnabled") && is_flag (g "applicationSafetyLockEnabled"))
      "Input settings are invalid."
  names ← applications (g "protectedApplications")
  ok (mbps, names)

unfoldable pub replaced : ℕ → List String → Fields → Fields
unfolding set
replaced mbps names c =
    set "protectedApplications" (array (of_texts names))
      (set "maximumBitrateMbps" (number (int mbps)) (set "inputEnabled" (flag false) c))

unfoldable pub validate_fields : (Number → String) → (ℕ → ℕ → Bool) → Fields → Result Fields
unfolding check_kept changed replaced
validate_fields print half_up c = do
  check_kept print λ key. get key c
  (mbps, names) ← changed half_up λ key. get key c
  ok (replaced mbps names c)

-- `StreamConfigurationValidator.validate`
unfoldable pub validate : (Number → String) → (ℕ → ℕ → Bool) → Json → Result Fields
unfolding validate_fields
validate print half_up null = thrown type_error
validate print half_up (object c) = validate_fields print half_up c
validate print half_up _ = thrown "Unknown streaming preset."
