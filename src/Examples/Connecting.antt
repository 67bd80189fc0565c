-- ===== src/Examples/Connecting.antt =====
-- A responder's way to a connection, on a platform that knows three texts of JSON: the witness of
-- what Session.Agreed states of every run.
use istream.Prelude.{
  String, true, false, Option, none, some, List, [], ◌∷◌, str_eq, if◌then◌else◌, ◌≡◌, refl,
}
use istream.Values.{
  Json, object, field, end, text, flag, number, identifier, base64, integer_within, get,
  record_or_throw,
}
use istream.Contracts.Diagnostics.{int}
use istream.Platform.{Platform}
use istream.Handshake.{
  DeviceIdentity, verify_client_hello, create_server_hello, derive_shared_secret, session_hash,
  verification_code,
}
use istream.Transport as T
use istream.Transport.{open_transport}
use istream.Prelude.Texts.{text_length, matches_base64, matches_counter, trim, matches_six_digits}
use istream.Prelude.Maps.{lookup}
use istream.Prelude.Decimals.{to_decimal, of_decimal}
use istream.Cipher.{encrypt, decrypt, create}
use istream.Protocol.Validator.{client_hello, secure_envelope}
use istream.Protocol.Messages.{secure_message}
use istream.Session.Closing.{send_plain, send_secure, record_local_diagnostics}
use istream.Session.Consent.{
  start, handle_client_hello, refuse_unless, create_peer, create_cipher, enter_consent_phase,
  ask_or_agree, prompt_for, agree_as_initiator, initial_role,
}
use istream.Session.Establish.{
  handle_consent_decision, try_establish_connection, begin_establishing, establish,
  respond_to_prompt, answer, give_consent, code_matches, settle,
}
use istream.Session.Dispatch.{handle_wire_message}
use istream.Session.Agreed.{both_agreed}
use istream.Session.Agreed.Run.{run-IsConnected}
use istream.Trust.{Store, is_trusted, remember_inbound}
use istream.Session.State.{Env, new_session}
use istream.Session.Events.{Event, starts, receives, responds, settles, run}

abbrev script : String → Option Json
script t =
    if str_eq t "REAL"
    then some (object (field "kind" (text "ready") end))
    else if str_eq t "YESS"
    then some (object (field "kind" (text "consent-decision") (field "accepted" (flag true) end)))
    else none

abbrev pub scripted : Platform
scripted = record {
  stringify = λ v. "json";
  parse = script;
  parse_failure = "Unexpected token";
  seal = λ key nonce data_ plaintext. ("AAAA", "BBBB");
  unseal = λ key nonce data_ ciphertext tag. some ciphertext;
  unseal_failure = "Unsupported state or unable to authenticate data";
  derive_keys = λ secret hash. ("aaaa", "bbbb");
  public_key = λ private_key. "cccc";
  shared_secret = λ private_key remote. some "secret";
  digest = λ content. "dddd";
  hex_digest = λ content. "0123456789abcdef0123456789abcdef0123456789abcdef0123456789abcdef";
  leading_word = λ first second. 4042;
  sign = λ private_key payload. "eeee";
  verify = λ public_key payload signature. some true;
  identity_public_key = λ private_key. "ffff";
  key_failure = "Invalid key";
}

abbrev pub device : DeviceIdentity
device = record { display_name = "Desk"; private_key = "key" }

abbrev pub empty_store : Store
empty_store = record { peers = []; written = [] }

abbrev pub now_env : Env
now_env = record { now = 1000; uuid = "u1"; random = "cccc"; local_records = λ n. [] }

abbrev pub hello_json : Json
hello_json = object (
    field "kind" (text "client-hello") (
      field "protocolVersion" (number (int 2)) (
        field "sessionId" (text "s1") (
          field "deviceId" (text "0123456789abcdef0123456789abcdef") (
            field "displayName" (text "Laptop") (
              field "identityPublicKey" (text "ffff") (
                field "ephemeralPublicKey" (text "cccc") (
                  field "nonce" (text "cccc") (
                    field "intent" (text "view-remote")
                      (field "signature" (text "eeee") end))))))))))

abbrev pub sealed_json : String → String → Json
sealed_json counter ciphertext = object (
    field "kind" (text "secure") (
      field "counter" (text counter)
        (field "ciphertext" (text ciphertext) (field "authTag" (text "BBBB") end))))

-- The peer's hello, its two messages, the user's answer and the end of the trust store's write.
abbrev pub connecting : List (Event × Env)
connecting =
    (starts none, now_env)
    ∷ (receives hello_json, now_env)
    ∷ (receives (sealed_json "1" "REAL"), now_env)
    ∷ (receives (sealed_json "2" "YESS"), now_env)
    ∷ (responds "u1" true (some "004042"), now_env)
    ∷ (settles, now_env)
    ∷ []

run-IsConnected_example :
    both_agreed (
      run scripted connecting
        (new_session device "agreement" "10.0.0.2" false none empty_store 1000))
    ≡ true
unfolding run new_session start handle_wire_message handle_client_hello refuse_unless
    verify_client_hello create_peer create_cipher create_server_hello send_plain send_secure T.send
    open_transport client_hello secure_envelope identifier base64 integer_within matches_base64
    matches_counter get record_or_throw text_length encrypt decrypt create derive_shared_secret
    session_hash verification_code to_decimal of_decimal secure_message enter_consent_phase
    ask_or_agree prompt_for agree_as_initiator handle_consent_decision try_establish_connection
    begin_establishing establish respond_to_prompt answer give_consent code_matches trim
    matches_six_digits settle is_trusted remember_inbound record_local_diagnostics initial_role
    lookup
run-IsConnected_example =
    run-IsConnected scripted connecting device "agreement" "10.0.0.2" false none empty_store 1000
      refl refl
