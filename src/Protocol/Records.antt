-- ===== src/Protocol/Records.antt =====
-- `DiagnosticRecordValidator` of src/main/diagnostics/DiagnosticRecordValidator.ts.
use istream.Prelude.{
  String, Option, none, some, List, [], ◌∷◌, leb, str_eq, if◌then◌else◌, length, Result, and_then,
}
use istream.Values.{
  Json, null, flag, number, text, object, Fields, get, entries, record_or_throw, as_text, as_number,
  keep_if, fits, identifier, integer_within, is_finite, max_safe_integer, ◌>>=◌, check, or_throw,
}
use istream.Contracts.Diagnostics as D

unfoldable pub category_of : String → Option D.DiagnosticCategory
category_of s =
    if str_eq s "lifecycle"
    then some D.lifecycle
    else if str_eq s "control"
    then some D.control
    else if str_eq s "media"
    then some D.media
    else if str_eq s "network"
    then some D.network
    else if str_eq s "input"
    then some D.input
    else if str_eq s "error"
    then some D.DiagnosticCategory.error
    else none

unfoldable pub severity_of : String → Option D.DiagnosticSeverity
severity_of s =
    if str_eq s "debug"
    then some D.debug
    else if str_eq s "information"
    then some D.information
    else if str_eq s "warning"
    then some D.warning
    else if str_eq s "error"
    then some D.DiagnosticSeverity.error
    else none

diagnostic_value : Json → Option D.DiagnosticValue
diagnostic_value null = some D.absent
diagnostic_value (flag b) = some (D.flag b)
diagnostic_value (number n) = if is_finite n then some (D.number n) else none
diagnostic_value (text s) = some (D.text s)
diagnostic_value _ = none

unfoldable pub diagnostic_values : List (String × Json) → Option (List (String × D.DiagnosticValue))
unfolding diagnostic_value
diagnostic_values [] = some []
diagnostic_values ((key, v) ∷ rest) = do
  _ ← check (fits 64 key)
  value ← diagnostic_value v
  values ← diagnostic_values rest
  some ((key, value) ∷ values)

abbrev as_object : Option Json → Option Fields
as_object (some (object fields)) = some fields
as_object _ = none

-- The header's checks; the values are still those of the source.
diagnostic_header :
    Fields → Option (Fields × (List (String × D.DiagnosticValue) → D.DiagnosticRecord))
diagnostic_header c = do
  version ← integer_within 1 1 (get "schemaVersion" c)
  sequence ← integer_within 0 max_safe_integer (get "sequence" c)
  timestamp ← keep_if is_finite (as_number (get "timestamp" c))
  device_id ← identifier 32 (get "originDeviceId" c)
  display_name ← identifier 64 (get "originDisplayName" c)
  category_text ← as_text (get "category" c)
  category ← category_of category_text
  severity_text ← as_text (get "severity" c)
  severity ← severity_of severity_text
  event ← identifier 96 (get "event" c)
  values ← as_object (get "values" c)
  some (
    values,
    λ checked. record {
      schema_version = version;
      sequence = sequence;
      timestamp = timestamp;
      origin_device_id = device_id;
      origin_display_name = display_name;
      category = category;
      severity = severity;
      event = event;
      values = checked;
    },
  )

diagnostic_body :
    Fields × (List (String × D.DiagnosticValue) → D.DiagnosticRecord) → Option D.DiagnosticRecord
unfolding diagnostic_values
diagnostic_body (values, build) = do
  _ ← check (leb (length (entries values)) D.maximum_values_per_record)
  checked ← diagnostic_values (entries values)
  some (build checked)

unfoldable pub validate : Json → Result D.DiagnosticRecord
unfolding diagnostic_header diagnostic_body
validate v = and_then (record_or_throw "Diagnostic record must be an object." v) λ c.
    and_then (or_throw "Diagnostic record header is invalid." (diagnostic_header c))
      (λ h. or_throw "Diagnostic record values are invalid." (diagnostic_body h))
