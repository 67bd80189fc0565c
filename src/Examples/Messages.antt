-- ===== src/Examples/Messages.antt =====
-- Messages, ciphers, hellos and approvals, and what the theorems state of them.
use istream.Prelude.{
  String, true, false, none, some, List, [], ◌∷◌, ◌≡◌, refl, ok, arith, All, length, ◌+◌,
}
use istream.Prelude.Texts.{text_length}
use istream.Prelude.Maps.{insert}
use istream.Prelude.Decimals.{of_decimal}
use istream.Contracts.Connectivity.{view_remote}
use istream.Contracts.Diagnostics.{DiagnosticRecord, int, network, information, DiagnosticValue}
use istream.Values.{
  Json, is_finite, record_or_throw, get, object, field, end, text, number, array, cons, nil,
}
use istream.Protocol as P
use istream.Protocol.Messages.{secure_message}
use istream.Protocol.Records.{validate}
use istream.Protocol.Encoding.{message_to_json, record_to_json}
use istream.Protocol.WellFormed.{
  message_ok, record_ok, secure_message-to_json, validate-record_to_json,
}
use istream.Cipher.{Cipher, decrypt, create}
use istream.Cipher.Order.{
  Paired, transmit, receive, receive-transmit, receive-RunOn, decrypt-thrown, RunOn,
}
use istream.Handshake.{
  create_client_hello, create_server_hello, verify_client_hello, verify_server_hello,
  derive_shared_secret,
}
use istream.Handshake.Agreement.{
  verify_client_hello-create, verify_server_hello-create, create-Paired,
}
use istream.Trust.{Store, is_trusted, find, clear, load, remember_inbound, InboundTrustCandidate}
use istream.Trust.Latest.{get_any-IsLatest}
use istream.Prelude.{◌≤◌, ◌<◌, keep, str_eq}
use istream.Trust.{records, get_any, record_for}
use istream.Trust.Laws.{IsKeyed, find-clear}
use istream.Trust.History.{
  Change, remembers, clears, run, trusts, is_trusted-run, load-IsCurrent, IsCurrent, empty,
}
use istream.Examples.Plain.{plain, plain-Lawful}
use istream.Examples.Connecting.{scripted, device}

abbrev sender : Cipher
sender = record {
  session_id = "s1";
  transmit_key = "aaaa";
  receive_key = "bbbb";
  transmit_counter = 0;
  receive_counter = 0;
}

abbrev receiver : Cipher
receiver = record {
  session_id = "s1";
  transmit_key = "bbbb";
  receive_key = "aaaa";
  transmit_counter = 0;
  receive_counter = 0;
}

abbrev sender-Paired : Paired sender receiver
sender-Paired = record { same_session = refl; same_key = refl; in_step = refl }

abbrev messages : List P.SecureMessage
messages = P.consent_decision true ∷ P.reversal_request "r1" ∷ P.diagnostics_request "q1" 20 ∷ []

abbrev envelope_at : String → String → P.SecureEnvelope
envelope_at counter ciphertext = record {
  counter = counter;
  ciphertext = ciphertext;
  auth_tag = "BBBB";
}

abbrev envelopes : List P.SecureEnvelope
envelopes = envelope_at "1" "REAL" ∷ envelope_at "2" "YESS" ∷ []

abbrev sample_record : DiagnosticRecord
sample_record = record {
  schema_version = 1;
  sequence = 7;
  timestamp = int 1000;
  origin_device_id = "0123456789abcdef0123456789abcdef";
  origin_display_name = "Desk";
  category = network;
  severity = information;
  event = "connection.sample";
  values = ("role", DiagnosticValue.text "sharer") ∷ ("ageMs", DiagnosticValue.absent) ∷ [];
}

abbrev approval : InboundTrustCandidate
approval = record {
  intent = view_remote;
  device_id = "d1";
  display_name = "Laptop";
  public_key_der = "ffff";
  last_address = "10.0.0.3";
}

abbrev changes : List Change
changes = clears "d2" ∷ remembers 1000 approval ∷ []

abbrev one_peer : Store
unfolding run
one_peer = run (remembers 1000 approval ∷ [])

abbrev stored : Json
stored = object (
    field "schemaVersion" (number (int 1)) (
      field "peers"
        (array (
          cons
            (object (
              field "direction" (text "inbound") (
                field "intent" (text "view-remote") (
                  field "deviceId" (text "0123456789abcdef0123456789abcdef") (
                    field "displayName" (text "Laptop") (
                      field "publicKeyDer" (text "ffff") (
                        field "lastAddress" (text "10.0.0.3") (
                          field "trustedAt" (number (int 1000))
                            (field "expiresAt" (number (int 2592001000)) end)))))))))
            nil))
        end))

receive-transmit_example :
    (es : List P.SecureEnvelope) × (a' : Cipher) × (b' : Cipher) × (transmit plain messages sender
      ≡ (ok es, a'))
    × (receive plain es receiver ≡ (ok messages, b'))
    × Paired a' b'
unfolding message_ok text_length
receive-transmit_example =
    receive-transmit plain plain-Lawful messages sender receiver sender-Paired refl (omega arith)

receive-RunOn_example :
    RunOn 0 envelopes
    × (length (P.ready ∷ P.consent_decision true ∷ []) ≡ length envelopes)
    × ((receive scripted envelopes receiver).1.receive_counter ≡ 0 + length envelopes)
unfolding receive decrypt of_decimal secure_message record_or_throw get
receive-RunOn_example = receive-RunOn scripted envelopes receiver refl

decrypt-thrown_example : (decrypt scripted (envelope_at "7" "REAL") receiver).1 ≡ receiver
unfolding decrypt of_decimal
decrypt-thrown_example = decrypt-thrown scripted (envelope_at "7" "REAL") receiver refl

secure_message-to_json_example :
    secure_message (message_to_json (P.diagnostics_batch "q1" (sample_record ∷ []) true))
    ≡ ok (P.diagnostics_batch "q1" (sample_record ∷ []) true)
unfolding message_ok record_ok text_length is_finite
secure_message-to_json_example =
    secure_message-to_json (P.diagnostics_batch "q1" (sample_record ∷ []) true) refl

validate-record_to_json_example : validate (record_to_json sample_record) ≡ ok sample_record
unfolding record_ok text_length is_finite
validate-record_to_json_example = validate-record_to_json sample_record refl

is_trusted-run_example :
    is_trusted 2000 "d1" "ffff" view_remote (run changes)
    ≡ trusts 2000 "d1" "ffff" view_remote changes
is_trusted-run_example = is_trusted-run 2000 "d1" "ffff" view_remote changes

load-IsCurrent_example :
    IsKeyed (load 5000 (some stored) empty)
    × All (λ e. IsCurrent 5000 e.1) (load 5000 (some stored) empty).peers
load-IsCurrent_example = load-IsCurrent 5000 (some stored) empty

find-clear_example : find 2000 "d1" view_remote (clear "d1" one_peer) ≡ none
unfolding one_peer run remember_inbound insert
find-clear_example = find-clear 2000 "d1" "d1" view_remote one_peer (refl, tt)

verify_client_hello-create_example :
    verify_client_hello plain (create_client_hello plain device "s1" "agreement" view_remote "cccc")
    ≡ ok true
verify_client_hello-create_example =
    verify_client_hello-create plain plain-Lawful device "s1" "agreement" "cccc" view_remote

abbrev hello : P.ClientHello
unfolding create_client_hello
hello = create_client_hello plain device "s1" "agreement" view_remote "cccc"

verify_server_hello-create_example :
    verify_server_hello plain (create_server_hello plain device hello "other" "cccc") hello
    ≡ ok true
verify_server_hello-create_example =
    verify_server_hello-create plain plain-Lawful device hello "other" "cccc"

create-Paired_example :
    (secret : String) × (derive_shared_secret plain "agreement"
        (create_server_hello plain device hello "other" "cccc").ephemeral_public_key
      ≡ ok secret)
    × (derive_shared_secret plain "other" hello.ephemeral_public_key ≡ ok secret)
    × Paired
        (create plain hello.session_id secret "hash" true)
        (create plain hello.session_id secret "hash" false)
    × Paired
        (create plain hello.session_id secret "hash" false)
        (create plain hello.session_id secret "hash" true)
unfolding hello create_client_hello plain
create-Paired_example =
    create-Paired plain plain-Lawful hello device "agreement" "other" "cccc" "hash" refl

get_any-IsLatest_example :
    (approval.device_id ≡ "d1")
    × (2000 < 2592001000)
    × All
        (λ q. q.expires_at ≤ 2592001000)
        (keep (λ q. str_eq q.device_id "d1") (records 2000 one_peer))
unfolding one_peer run remember_inbound insert get_any
get_any-IsLatest_example = get_any-IsLatest 2000 "d1" one_peer (record_for 1000 approval) refl
