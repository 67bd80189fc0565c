-- ===== src/Protocol/WellFormed.antt =====
-- The messages within the protocol's limits, and what the validator reads of their encodings.
use istream.Prelude.{
  String, suc, Bool, true, false, ◌&&◌, ◌≡◌, refl, none, some, List, [], ◌∷◌, leb, ◌==◌, length,
  all, ok, arith, ap, Option, is_none, ℕ,
}
use istream.Values.{
  fits, is_finite, max_safe_integer, get, entries, integer_within, identifier, record_or_throw,
  items,
}
use istream.Contracts.Diagnostics as D
use istream.Contracts.Media as M
use istream.Protocol as P
use istream.Protocol.Records.{validate, diagnostic_values, category_of, severity_of}
use istream.Protocol.Messages.{secure_message, media_signal, validate_all, kind_fields}
use istream.Protocol.Encoding.{
  values_to_json, record_to_json, records_to_json, signal_to_json, message_to_json, category_text,
  severity_text,
}

abbrev pub value_ok : String × D.DiagnosticValue → Bool
value_ok (key, D.number n) = fits 64 key && is_finite n
value_ok (key, v) = fits 64 key

unfoldable pub record_ok : D.DiagnosticRecord → Bool
record_ok r =
    r.schema_version == 1
    && leb r.sequence max_safe_integer
    && is_finite r.timestamp
    && fits 32 r.origin_device_id
    && fits 64 r.origin_display_name
    && fits 96 r.event
    && leb (length r.values) D.maximum_values_per_record
    && all value_ok r.values

abbrev nullable_ok {ℓ} : {A : Type ℓ} → (A → Bool) → Option A → Bool
nullable_ok p none = true
nullable_ok p (some a) = p a

abbrev some_fits : ℕ → Option String → Bool
some_fits most none = false
some_fits most (some s) = fits most s

abbrev description_ok : M.MediaSignal → Bool
description_ok s =
    some_fits P.maximum_session_description_length s.sdp
    && is_none s.candidate
    && is_none s.sdp_mid
    && is_none s.sdp_m_line_index

abbrev body_ok : M.MediaSignalKind → M.MediaSignal → Bool
body_ok M.offer s = description_ok s
body_ok M.answer s = description_ok s
body_ok M.ice_candidate s =
    some_fits P.maximum_ice_candidate_length s.candidate
    && is_none s.sdp
    && nullable_ok (fits 256) s.sdp_mid
    && nullable_ok (λ n. leb n 32) s.sdp_m_line_index
body_ok M.ice_complete s =
    is_none s.sdp && is_none s.candidate && is_none s.sdp_mid && is_none s.sdp_m_line_index

unfoldable pub signal_ok : M.MediaSignal → Bool
signal_ok s = fits 64 s.generation && body_ok s.kind s

unfoldable pub message_ok : P.SecureMessage → Bool
message_ok P.ready = true
message_ok P.ready_acknowledged = true
message_ok (P.consent_decision accepted) = true
message_ok (P.ping ping_id sent_at) = fits 64 ping_id && is_finite sent_at
message_ok (P.pong ping_id) = fits 64 ping_id
message_ok (P.reversal_request request_id) = fits 64 request_id
message_ok (P.reversal_decision request_id accepted) = fits 64 request_id
message_ok (P.disconnect reason) = fits 256 reason
message_ok (P.protocol_error reason) = fits 256 reason
message_ok (P.diagnostics_request request_id limit) =
    fits 64 request_id && leb 1 limit && leb limit D.maximum_peer_records_per_request
message_ok (P.diagnostics_batch request_id records complete) =
    fits 64 request_id && leb (length records) D.peer_batch_record_count && all record_ok records
message_ok (P.media_signal signal) = signal_ok signal

values-to_json :
    (vs : List (String × D.DiagnosticValue))
    → all value_ok vs ≡ true
    → diagnostic_values (entries (values_to_json vs)) ≡ some vs
unfolding diagnostic_values values_to_json
values-to_json [] h = refl
values-to_json ((k, D.text s) ∷ vs) h = ground (arith, values-to_json vs)
values-to_json ((k, D.number s) ∷ vs) h = ground (arith, values-to_json vs)
values-to_json ((k, D.flag s) ∷ vs) h = ground (arith, values-to_json vs)
values-to_json ((k, D.absent) ∷ vs) h = ground (arith, values-to_json vs)

length-entries :
    (vs : List (String × D.DiagnosticValue)) → length (entries (values_to_json vs)) ≡ length vs
unfolding values_to_json
length-entries [] = refl
length-entries (v ∷ vs) = ap suc (length-entries vs)

category_of-category_text : (c : D.DiagnosticCategory) → category_of (category_text c) ≡ some c
unfolding category_of category_text
category_of-category_text D.lifecycle = refl
category_of-category_text _ = refl

severity_of-severity_text : (c : D.DiagnosticSeverity) → severity_of (severity_text c) ≡ some c
unfolding severity_of severity_text
severity_of-severity_text D.debug = refl
severity_of-severity_text _ = refl

-- A diagnostic record within the limits is read back from its encoding as it was.
pub validate-record_to_json :
    (r : D.DiagnosticRecord) → record_ok r ≡ true → validate (record_to_json r) ≡ ok r
unfolding validate record_to_json record_ok record_or_throw get identifier integer_within is_finite
validate-record_to_json r h = ground (
  arith,
  values-to_json r.values,
  length-entries r.values,
  category_of-category_text r.category,
  severity_of-severity_text r.severity,
)

-- The same over the signal's parts, so that the kind can be split on.
signal_of :
    String
    → M.MediaSignalKind
    → Option String
    → Option String
    → Option String
    → Option ℕ
    → M.MediaSignal
signal_of g k sdp c mid l = record {
  generation = g;
  kind = k;
  sdp = sdp;
  candidate = c;
  sdp_mid = mid;
  sdp_m_line_index = l;
}

signal_of-to_json :
    (g : String) (k : M.MediaSignalKind) (sdp c mid : Option String) (l : Option ℕ)
    → signal_ok (signal_of g k sdp c mid l) ≡ true
    → media_signal (some (signal_to_json (signal_of g k sdp c mid l)))
      ≡ ok (signal_of g k sdp c mid l)
unfolding signal_of media_signal signal_to_json signal_ok record_or_throw get identifier
    integer_within
signal_of-to_json g M.offer (some sdp) none none none h = ground arith
signal_of-to_json g M.answer (some sdp) none none none h = ground arith
signal_of-to_json g M.ice_candidate none (some c) none none h = ground arith
signal_of-to_json g M.ice_candidate none (some c) none (some l) h = ground arith
signal_of-to_json g M.ice_candidate none (some c) (some mid) none h = ground arith
signal_of-to_json g M.ice_candidate none (some c) (some mid) (some l) h = ground arith
signal_of-to_json g M.ice_complete none none none none h = ground arith
signal_of-to_json g k sdp c mid l h = ground arith

signal-to_json :
    (s : M.MediaSignal) → signal_ok s ≡ true → media_signal (some (signal_to_json s)) ≡ ok s
unfolding signal_of
signal-to_json s =
    signal_of-to_json s.generation s.kind s.sdp s.candidate s.sdp_mid s.sdp_m_line_index

records-to_json :
    (rs : List D.DiagnosticRecord)
    → all record_ok rs ≡ true
    → validate_all (items (records_to_json rs)) ≡ ok rs
unfolding validate_all records_to_json
records-to_json [] h = refl
records-to_json (r ∷ rs) h = ground (arith, validate-record_to_json r, records-to_json rs)

length-items : (rs : List D.DiagnosticRecord) → length (items (records_to_json rs)) ≡ length rs
unfolding records_to_json
length-items [] = refl
length-items (r ∷ rs) = ap suc (length-items rs)

-- A message of any of the twelve kinds, within the limits of the protocol and with finite numbers, is
-- read back from its encoding as it was.
pub secure_message-to_json :
    (m : P.SecureMessage) → message_ok m ≡ true → secure_message (message_to_json m) ≡ ok m
unfolding secure_message kind_fields message_to_json message_ok record_or_throw get identifier
    integer_within
secure_message-to_json P.ready h = refl
secure_message-to_json (P.diagnostics_batch i rs c) h =
    ground (arith, records-to_json rs, length-items rs)
secure_message-to_json (P.media_signal s) h = ground (arith, signal-to_json s)
secure_message-to_json _ h = ground arith
