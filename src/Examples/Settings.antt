-- ===== src/Examples/Settings.antt =====
-- The settings of the streams at concrete inputs.
use istream.Prelude.{String, true, false, none, some, ◌≡◌, refl, ok, thrown}
use istream.Prelude.Texts.{trim, trim_start, trim_end, text_length}
use istream.Prelude.Decimals.{to_decimal, digits, digit}
use istream.Contracts.Diagnostics.{Number, int, fraction}
use istream.Values.{Json, flag, number, text, array, object, nil, cons, Fields, end, field, get}
use istream.Configuration.{Engine, new_service, load, update, hold, defaults}
use istream.Configuration.Cleaned.{trimmed, cleaned, distinct}
use istream.Configuration.Validator.{
  validate, validate_fields, check_kept, check_choices, check_resolution, check_rates, changed,
  replaced, bitrate, applications, texts, set, printed, remaining,
}
use istream.Configuration.Kept.{load-update}

-- A request of the window, with input enabled, a fractional bitrate and untidy names.
abbrev asked : Json → Fields
asked width = field "preset" (text "desktop") (
    field "codec" (text "hevc") (
      field "targetWidth" width (
        field "targetHeight" (number (int 720)) (
          field "targetFramesPerSecond" (number (int 60)) (
            field "minimumFramesPerSecond" (number (int 30)) (
              field "maximumBitrateMbps" (number (fraction 7 5)) (
                field "hdrMode" (text "off") (
                  field "capacityFloorMode" (text "allow-below-hd") (
                    field "inputEnabled" (flag true) (
                      field "applicationSafetyLockEnabled" (flag true) (
                        field "protectedApplications"
                          (array (cons (text " a ") (cons (text "") (cons (text "a") nil))))
                          end)))))))))))

-- What becomes of it.
abbrev held : Json → Fields
held width = field "preset" (text "desktop") (
    field "codec" (text "hevc") (
      field "targetWidth" width (
        field "targetHeight" (number (int 720)) (
          field "targetFramesPerSecond" (number (int 60)) (
            field "minimumFramesPerSecond" (number (int 30)) (
              field "maximumBitrateMbps" (number (int 8)) (
                field "hdrMode" (text "off") (
                  field "capacityFloorMode" (text "allow-below-hd") (
                    field "inputEnabled" (flag false) (
                      field "applicationSafetyLockEnabled" (flag true)
                        (field "protectedApplications" (array (cons (text "a") nil)) end)))))))))))

abbrev number_text : Number → String
number_text (int n) = to_decimal n
number_text _ = "0.5"

-- An engine whose `parse` knows one text.
abbrev engine : Engine
engine = record {
  print = number_text;
  half_up = λ n d. true;
  stringify = λ v. "saved";
  parse = λ s. ok (object (held (number (int 1280))));
}

load-update_example :
    (load engine (record { configuration = defaults; file = some "saved" })).1.configuration
    ≡ held (number (int 1280))
unfolding update hold validate validate_fields check_kept check_choices check_resolution check_rates
    changed replaced bitrate applications texts trimmed cleaned distinct set printed remaining get
    trim trim_start trim_end text_length to_decimal digits digit
load-update_example =
    load-update engine (object (asked (number (int 1280)))) (held (number (int 1280)))
      (new_service none) (record { configuration = defaults; file = none }) refl refl

-- A width that is a text, or an array of a number, is accepted and kept.
text_width :
    validate number_text (λ n d. true) (object (asked (text "1280"))) ≡ ok (held (text "1280"))
unfolding validate validate_fields check_kept check_choices check_resolution check_rates changed
    replaced bitrate applications texts trimmed cleaned distinct set printed remaining get trim
    trim_start trim_end text_length to_decimal digits digit
text_width = refl

array_width :
    validate number_text (λ n d. true) (object (asked (array (cons (number (int 1280)) nil))))
    ≡ ok (held (array (cons (number (int 1280)) nil)))
unfolding validate validate_fields check_kept check_choices check_resolution check_rates changed
    replaced bitrate applications texts trimmed cleaned distinct set printed remaining get trim
    trim_start trim_end text_length to_decimal digits digit
array_width = refl

-- The service uses a configuration that could not be written, though its update fails.
unwritten : update engine false (object (asked (number (int 1280)))) (new_service none) ≡ (
  thrown "The file was not written.",
  record { configuration = held (number (int 1280)); file = none },
)
unfolding update hold validate validate_fields check_kept check_choices check_resolution check_rates
    changed replaced bitrate applications texts trimmed cleaned distinct set printed remaining get
    trim trim_start trim_end text_length to_decimal digits digit new_service
unwritten = refl
