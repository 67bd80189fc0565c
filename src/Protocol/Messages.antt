-- ===== src/Protocol/Messages.antt =====
-- `ProtocolValidator.secureMessage` and `mediaSignal` of
-- src/main/connectivity/SessionCryptography.ts: the messages inside the encrypted envelopes.
use istream.Prelude.{
  String, Bool, Option, none, some, List, [], ◌∷◌, leb, str_eq, if◌then◌else◌, length, Result, ok,
  thrown, and_then,
}
use istream.Values.{
  Json, array, Fields, Items, get, items, record_or_throw, as_text, as_flag, as_number, is_null,
  keep_if, fits, identifier, integer_within, ◌>>=◌, check, or_throw, nullable,
}
use istream.Contracts.Diagnostics as D
use istream.Contracts.Media as M
use istream.Protocol as P
use istream.Protocol.Records.{validate}

-- An offer or an answer.
description_fields : M.MediaSignalKind → String → Fields → Option M.MediaSignal
description_fields kind generation c = do
  sdp ← keep_if (fits P.maximum_session_description_length) (as_text (get "sdp" c))
  _ ← check (is_null (get "candidate" c))
  _ ← check (is_null (get "sdpMid" c))
  _ ← check (is_null (get "sdpMLineIndex" c))
  some (record {
    generation = generation;
    kind = kind;
    sdp = some sdp;
    candidate = none;
    sdp_mid = none;
    sdp_m_line_index = none;
  })

candidate_fields : String → Fields → Option M.MediaSignal
candidate_fields generation c = do
  candidate ← keep_if (fits P.maximum_ice_candidate_length) (as_text (get "candidate" c))
  _ ← check (is_null (get "sdp" c))
  sdp_mid ← nullable (identifier 256) (get "sdpMid" c)
  line ← nullable (integer_within 0 32) (get "sdpMLineIndex" c)
  some (record {
    generation = generation;
    kind = M.ice_candidate;
    sdp = none;
    candidate = some candidate;
    sdp_mid = sdp_mid;
    sdp_m_line_index = line;
  })

complete_fields : String → Fields → Option M.MediaSignal
complete_fields generation c = do
  _ ← check (is_null (get "sdp" c))
  _ ← check (is_null (get "candidate" c))
  _ ← check (is_null (get "sdpMid" c))
  _ ← check (is_null (get "sdpMLineIndex" c))
  some (record {
    generation = generation;
    kind = M.ice_complete;
    sdp = none;
    candidate = none;
    sdp_mid = none;
    sdp_m_line_index = none;
  })

-- The kinds exclude one another, so that the source's later tests fail after an earlier kind.
media_kind : String → String → Fields → Option M.MediaSignal
unfolding description_fields candidate_fields complete_fields
media_kind kind generation c =
    if str_eq kind "offer"
    then description_fields M.offer generation c
    else if str_eq kind "answer"
    then description_fields M.answer generation c
    else if str_eq kind "ice-candidate"
    then candidate_fields generation c
    else if str_eq kind "ice-complete"
    then complete_fields generation c
    else none

abbrev media_fields : String → Fields → Option M.MediaSignal
media_fields generation c = do kind ← as_text (get "kind" c); media_kind kind generation c

unfoldable pub media_signal : Option Json → Result M.MediaSignal
unfolding media_kind
media_signal none = thrown "Invalid control message."
media_signal (some v) = and_then (record_or_throw "Invalid control message." v) λ c.
    and_then (or_throw "Invalid media session identifier." (identifier 64 (get "generation" c)))
      (λ generation. or_throw "Invalid media negotiation message." (media_fields generation c))

unfoldable pub validate_all : List Json → Result (List D.DiagnosticRecord)
validate_all [] = ok []
validate_all (v ∷ vs) = and_then (validate v) (λ r. and_then (validate_all vs) (λ rs. ok (r ∷ rs)))

abbrev as_array : Option Json → Option Items
as_array (some (array vs)) = some vs
as_array _ = none

batch_header : Fields → Option (String × Items × Bool)
batch_header c = do
  request_id ← identifier 64 (get "requestId" c)
  records ← as_array (get "records" c)
  _ ← check (leb (length (items records)) D.peer_batch_record_count)
  complete ← as_flag (get "complete" c)
  some (request_id, records, complete)

batch_fields : Fields → Result P.SecureMessage
unfolding batch_header validate_all
batch_fields c =
    and_then (or_throw "Invalid secure control message." (batch_header c))
      λ h. and_then (validate_all (items h.1)) (λ rs. ok (P.diagnostics_batch h.0 rs h.2))

-- The kinds with no nested validator.
plain_fields : String → Fields → Option P.SecureMessage
plain_fields kind c =
    if str_eq kind "ready"
    then some P.ready
    else if str_eq kind "ready-acknowledged"
    then some P.ready_acknowledged
    else if str_eq kind "consent-decision"
    then (do accepted ← as_flag (get "accepted" c); some (P.consent_decision accepted))
    else if str_eq kind "ping"
    then (do
      ping_id ← identifier 64 (get "pingId" c)
      sent_at ← as_number (get "sentAt" c)
      some (P.ping ping_id sent_at))
    else if str_eq kind "pong"
    then (do ping_id ← identifier 64 (get "pingId" c); some (P.pong ping_id))
    else if str_eq kind "reversal-request"
    then (do request_id ← identifier 64 (get "requestId" c); some (P.reversal_request request_id))
    else if str_eq kind "reversal-decision"
    then (do
      request_id ← identifier 64 (get "requestId" c)
      accepted ← as_flag (get "accepted" c)
      some (P.reversal_decision request_id accepted))
    else if str_eq kind "disconnect"
    then (do reason ← identifier 256 (get "reason" c); some (P.disconnect reason))
    else if str_eq kind "protocol-error"
    then (do reason ← identifier 256 (get "reason" c); some (P.protocol_error reason))
    else if str_eq kind "diagnostics-request"
    then (do
      request_id ← identifier 64 (get "requestId" c)
      limit ← integer_within 1 D.maximum_peer_records_per_request (get "limit" c)
      some (P.diagnostics_request request_id limit))
    else none

unfoldable pub kind_fields : String → Fields → Result P.SecureMessage
unfolding plain_fields batch_fields media_signal
kind_fields kind c =
    if str_eq kind "diagnostics-batch"
    then batch_fields c
    else if str_eq kind "media-signal"
    then and_then (media_signal (get "signal" c)) (λ s. ok (P.media_signal s))
    else or_throw "Invalid secure control message." (plain_fields kind c)

abbrev text_or_blank : Option String → String
text_or_blank none = ""
text_or_blank (some s) = s

-- A kind that is no text, like one that is the empty text, matches no case of the `switch`.
unfoldable pub secure_message : Json → Result P.SecureMessage
unfolding kind_fields
secure_message v =
    and_then (record_or_throw "Invalid control message." v)
      (λ c. kind_fields (text_or_blank (as_text (get "kind" c))) c)
