-- ===== src/Contracts/Diagnostics.antt =====
-- src/shared/DiagnosticContracts.ts: diagnostic records and the limits on them.
use istream.Prelude.{ℕ, ◌*◌, String, Bool, List}

pub data DiagnosticCategory : Type 0 where
  lifecycle control media network input error : DiagnosticCategory

pub data DiagnosticSeverity : Type 0 where
  debug information warning error : DiagnosticSeverity

pub data DiagnosticEventSource : Type 0 where
  local remote : DiagnosticEventSource

-- A number of JSON. A fraction `fraction n d` lies strictly between `n` and `n + 1`, and
-- `negative_fraction n d` between `- n - 1` and `- n`; `d` tells two of them apart. `negative n` is
-- `- n - 1`. `JSON.parse` reads a literal like 1e999 as an infinite number, and never reads NaN.
pub data Number : Type 0 where
  int : ℕ → Number
  negative : ℕ → Number
  fraction : ℕ → ℕ → Number
  negative_fraction : ℕ → ℕ → Number
  infinity minus_infinity : Number

pub data DiagnosticValue : Type 0 where
  text : String → DiagnosticValue
  number : Number → DiagnosticValue
  flag : Bool → DiagnosticValue
  absent : DiagnosticValue

pub record DiagnosticRecord : Type 0 where
  pub schema_version : ℕ
  pub sequence : ℕ
  pub timestamp : Number
  pub origin_device_id : String
  pub origin_display_name : String
  pub category : DiagnosticCategory
  pub severity : DiagnosticSeverity
  pub event : String
  pub values : List (String × DiagnosticValue)

pub record CollectedDiagnosticRecord : Type 0 where
  pub received_at : ℕ
  pub source : DiagnosticEventSource
  pub record_of : DiagnosticRecord

-- `DiagnosticDefaults`
abbrev pub schema_version_default : ℕ
schema_version_default = 1

abbrev pub retained_duration_ms : ℕ
retained_duration_ms = 10 * 60 * 1000

abbrev pub retained_record_limit : ℕ
retained_record_limit = 10000

abbrev pub maximum_values_per_record : ℕ
maximum_values_per_record = 64

abbrev pub maximum_peer_records_per_request : ℕ
maximum_peer_records_per_request = 5000

abbrev pub peer_batch_record_count : ℕ
peer_batch_record_count = 10
