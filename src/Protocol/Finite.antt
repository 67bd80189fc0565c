-- ===== src/Protocol/Finite.antt =====
-- The numbers in the encodings of well-formed messages.
use istream.Prelude.{
  String, Bool, false, leb, ◌==◌, length, ◌&&◌, true, ◌≡◌, refl, List, [], ◌∷◌, all, arith,
}
use istream.Values.{has_text, is_finite, fits, max_safe_integer}
use istream.Contracts.Diagnostics as D
use istream.Contracts.Media as M
use istream.Protocol as P
use istream.Protocol.Encoding.{
  values_to_json, record_to_json, records_to_json, signal_to_json, message_to_json,
}
use istream.Protocol.WellFormed.{value_ok, record_ok, message_ok}
use istream.Values.{fields_have_text, have_text}

values_to_json-has_text :
    (vs : List (String × D.DiagnosticValue))
    → all value_ok vs ≡ true
    → fields_have_text (values_to_json vs) ≡ true
unfolding values_to_json has_text
values_to_json-has_text [] h = refl
values_to_json-has_text ((k, D.text s) ∷ vs) h = ground (arith, values_to_json-has_text vs)
values_to_json-has_text ((k, D.number s) ∷ vs) h = ground (arith, values_to_json-has_text vs)
values_to_json-has_text ((k, D.flag s) ∷ vs) h = ground (arith, values_to_json-has_text vs)
values_to_json-has_text ((k, D.absent) ∷ vs) h = ground (arith, values_to_json-has_text vs)

third : (a b c d e f g k : Bool) → (a && b && c && d && e && f && g && k) ≡ true → c ≡ true
third true true true d e f g k h = refl
third a b c d e f g k h = ground arith

last : (a b c d e f g k : Bool) → (a && b && c && d && e && f && g && k) ≡ true → k ≡ true
last a b c d e f g k h = ground arith

second : (a b : Bool) → (a && b) ≡ true → b ≡ true
second true b h = h
second false b h = absurd (cc h)

third-last :
    (a b c d e f g k : Bool)
    → (a && b && c && d && e && f && g && k) ≡ true
    → (c ≡ true) × (k ≡ true)
third-last a b c d e f g k h = (third a b c d e f g k h, last a b c d e f g k h)

record_to_json-has_text :
    (r : D.DiagnosticRecord) → record_ok r ≡ true → has_text (record_to_json r) ≡ true
unfolding record_to_json has_text record_ok is_finite
record_to_json-has_text r h =
    let (finite, good) =
      third-last (r.schema_version == 1) (leb r.sequence max_safe_integer) (is_finite r.timestamp)
        (fits 32 r.origin_device_id) (fits 64 r.origin_display_name) (fits 96 r.event)
        (leb (length r.values) D.maximum_values_per_record) (all value_ok r.values) h in
    rw (finite, values_to_json-has_text r.values good) refl

records_to_json-has_text :
    (rs : List D.DiagnosticRecord) → all record_ok rs ≡ true → have_text (records_to_json rs) ≡ true
unfolding records_to_json has_text
records_to_json-has_text [] h = refl
records_to_json-has_text (r ∷ rs) h =
    ground (arith, record_to_json-has_text r, records_to_json-has_text rs)

signal_to_json-has_text : (m : M.MediaSignal) → has_text (signal_to_json m) ≡ true
unfolding signal_to_json has_text is_finite
signal_to_json-has_text m = ground arith

pub message_to_json-has_text :
    (m : P.SecureMessage) → message_ok m ≡ true → has_text (message_to_json m) ≡ true
unfolding message_to_json has_text message_ok is_finite
message_to_json-has_text (P.diagnostics_batch i rs c) h =
    rw
      (records_to_json-has_text rs
        (second (fits 64 i && leb (length rs) D.peer_batch_record_count) (all record_ok rs) h))
      refl
message_to_json-has_text (P.media_signal m) h = rw (signal_to_json-has_text m) refl
message_to_json-has_text (P.ping i at_) h = rw (second (fits 64 i) (is_finite at_) h) refl
message_to_json-has_text P.ready h = refl
message_to_json-has_text P.ready_acknowledged h = refl
message_to_json-has_text (P.consent_decision b) h = refl
message_to_json-has_text _ h = refl
