-- ===== src/Protocol/Encoding.antt =====
-- The typed messages as the values that `JSON.stringify` is handed: the object literals that
-- src/main/connectivity/PeerSession.ts sends, with the declared properties of each message. An
-- infinite number is still one here; what its text is, the platform's `stringify` says.
use istream.Prelude.{String, Option, none, some, List, [], ◌∷◌}
use istream.Values.{
  Json, null, flag, number, text, array, object, Items, nil, cons, Fields, end, field,
}
use istream.Contracts.Connectivity.{ConnectionIntent, view_remote, share_local}
use istream.Contracts.Diagnostics as D
use istream.Contracts.Media as M
use istream.Protocol as P

abbrev pub intent_text : ConnectionIntent → String
intent_text view_remote = "view-remote"
intent_text share_local = "share-local"

unfoldable pub client_to_json : P.ClientHello → Json
client_to_json m = object (
    field "kind" (text "client-hello") (
      field "protocolVersion" (number (D.int m.protocol_version)) (
        field "sessionId" (text m.session_id) (
          field "deviceId" (text m.device_id) (
            field "displayName" (text m.display_name) (
              field "identityPublicKey" (text m.identity_public_key) (
                field "ephemeralPublicKey" (text m.ephemeral_public_key) (
                  field "nonce" (text m.nonce) (
                    field "intent" (text (intent_text m.intent))
                      (field "signature" (text m.signature) end))))))))))

unfoldable pub server_to_json : P.ServerHello → Json
server_to_json m = object (
    field "kind" (text "server-hello") (
      field "protocolVersion" (number (D.int m.protocol_version)) (
        field "sessionId" (text m.session_id) (
          field "deviceId" (text m.device_id) (
            field "displayName" (text m.display_name) (
              field "identityPublicKey" (text m.identity_public_key) (
                field "ephemeralPublicKey" (text m.ephemeral_public_key) (
                  field "nonce" (text m.nonce) (
                    field "clientHelloHash" (text m.client_hello_hash)
                      (field "signature" (text m.signature) end))))))))))

unfoldable pub envelope_to_json : P.SecureEnvelope → Json
envelope_to_json e = object (
    field "kind" (text "secure") (
      field "counter" (text e.counter)
        (field "ciphertext" (text e.ciphertext) (field "authTag" (text e.auth_tag) end))))

unfoldable pub category_text : D.DiagnosticCategory → String
category_text D.lifecycle = "lifecycle"
category_text D.control = "control"
category_text D.media = "media"
category_text D.network = "network"
category_text D.input = "input"
category_text D.DiagnosticCategory.error = "error"

unfoldable pub severity_text : D.DiagnosticSeverity → String
severity_text D.debug = "debug"
severity_text D.information = "information"
severity_text D.warning = "warning"
severity_text D.DiagnosticSeverity.error = "error"

abbrev pub value_to_json : D.DiagnosticValue → Json
value_to_json (D.text s) = text s
value_to_json (D.number n) = number n
value_to_json (D.flag b) = flag b
value_to_json D.absent = null

unfoldable pub values_to_json : List (String × D.DiagnosticValue) → Fields
values_to_json [] = end
values_to_json ((key, v) ∷ rest) = field key (value_to_json v) (values_to_json rest)

unfoldable pub record_to_json : D.DiagnosticRecord → Json
record_to_json r = object (
    field "schemaVersion" (number (D.int r.schema_version)) (
      field "sequence" (number (D.int r.sequence)) (
        field "timestamp" (number r.timestamp) (
          field "originDeviceId" (text r.origin_device_id) (
            field "originDisplayName" (text r.origin_display_name) (
              field "category" (text (category_text r.category)) (
                field "severity" (text (severity_text r.severity)) (
                  field "event" (text r.event)
                    (field "values" (object (values_to_json r.values)) end)))))))))

unfoldable pub records_to_json : List D.DiagnosticRecord → Items
records_to_json [] = nil
records_to_json (r ∷ rs) = cons (record_to_json r) (records_to_json rs)

abbrev media_kind_text : M.MediaSignalKind → String
media_kind_text M.offer = "offer"
media_kind_text M.answer = "answer"
media_kind_text M.ice_candidate = "ice-candidate"
media_kind_text M.ice_complete = "ice-complete"

abbrev text_or_null : Option String → Json
text_or_null none = null
text_or_null (some s) = text s

unfoldable pub signal_to_json : M.MediaSignal → Json
signal_to_json s = object (
    field "generation" (text s.generation) (
      field "kind" (text (media_kind_text s.kind)) (
        field "sdp" (text_or_null s.sdp) (
          field "candidate" (text_or_null s.candidate) (
            field "sdpMid" (text_or_null s.sdp_mid) (
              field "sdpMLineIndex"
                (elim s.sdp_m_line_index [ none ↦ null | some n ↦ number (D.int n) ]) end))))))

abbrev kinded : String → Fields → Json
kinded kind rest = object (field "kind" (text kind) rest)

unfoldable pub message_to_json : P.SecureMessage → Json
message_to_json P.ready = kinded "ready" end
message_to_json P.ready_acknowledged = kinded "ready-acknowledged" end
message_to_json (P.consent_decision accepted) =
    kinded "consent-decision" (field "accepted" (flag accepted) end)
message_to_json (P.ping ping_id sent_at) =
    kinded "ping" (field "pingId" (text ping_id) (field "sentAt" (number sent_at) end))
message_to_json (P.pong ping_id) = kinded "pong" (field "pingId" (text ping_id) end)
message_to_json (P.reversal_request request_id) =
    kinded "reversal-request" (field "requestId" (text request_id) end)
message_to_json (P.reversal_decision request_id accepted) =
    kinded "reversal-decision"
      (field "requestId" (text request_id) (field "accepted" (flag accepted) end))
message_to_json (P.disconnect reason) = kinded "disconnect" (field "reason" (text reason) end)
message_to_json (P.protocol_error reason) =
    kinded "protocol-error" (field "reason" (text reason) end)
message_to_json (P.diagnostics_request request_id limit) =
    kinded "diagnostics-request"
      (field "requestId" (text request_id) (field "limit" (number (D.int limit)) end))
message_to_json (P.diagnostics_batch request_id records complete) = kinded "diagnostics-batch" (
    field "requestId" (text request_id)
      (field "records" (array (records_to_json records)) (field "complete" (flag complete) end)))
message_to_json (P.media_signal signal) =
    kinded "media-signal" (field "signal" (signal_to_json signal) end)
