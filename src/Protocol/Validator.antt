-- ===== src/Protocol/Validator.antt =====
-- `ProtocolValidator.clientHello`, `serverHello` and `secureEnvelope` of
-- src/main/connectivity/SessionCryptography.ts. The cast of an accepted value to its type is the
-- building of the typed message, which drops properties that the type lacks.
use istream.Prelude.{String, Option, none, some, str_eq, if◌then◌else◌, Result, and_then}
use istream.Prelude.Texts.{matches_counter}
use istream.Values.{
  Json, Fields, get, record_or_throw, as_text, keep_if, identifier, base64, integer_within, is_text,
  ◌>>=◌, check, or_throw,
}
use istream.Contracts.Connectivity.{ConnectionIntent, view_remote, share_local, protocol_version}
use istream.Protocol as P

abbrev pub intent_of : String → Option ConnectionIntent
intent_of s =
    if str_eq s "view-remote"
    then some view_remote
    else if str_eq s "share-local"
    then some share_local
    else none

client_fields : Fields → Option P.ClientHello
client_fields c = do
  _ ← check (is_text "client-hello" (get "kind" c))
  version ← integer_within protocol_version protocol_version (get "protocolVersion" c)
  session_id ← identifier 64 (get "sessionId" c)
  device_id ← identifier 32 (get "deviceId" c)
  display_name ← identifier 64 (get "displayName" c)
  identity_key ← base64 4096 (get "identityPublicKey" c)
  ephemeral_key ← base64 4096 (get "ephemeralPublicKey" c)
  nonce ← base64 4096 (get "nonce" c)
  intent_text ← as_text (get "intent" c)
  intent ← intent_of intent_text
  signature ← base64 4096 (get "signature" c)
  some (record {
    protocol_version = version;
    session_id = session_id;
    device_id = device_id;
    display_name = display_name;
    identity_public_key = identity_key;
    ephemeral_public_key = ephemeral_key;
    nonce = nonce;
    intent = intent;
    signature = signature;
  })

unfoldable pub client_hello : Json → Result P.ClientHello
unfolding client_fields
client_hello v =
    and_then (record_or_throw "Invalid control message." v)
      (λ c. or_throw "Invalid client handshake." (client_fields c))

server_fields : Fields → Option P.ServerHello
server_fields c = do
  _ ← check (is_text "server-hello" (get "kind" c))
  version ← integer_within protocol_version protocol_version (get "protocolVersion" c)
  session_id ← identifier 64 (get "sessionId" c)
  device_id ← identifier 32 (get "deviceId" c)
  display_name ← identifier 64 (get "displayName" c)
  identity_key ← base64 4096 (get "identityPublicKey" c)
  ephemeral_key ← base64 4096 (get "ephemeralPublicKey" c)
  nonce ← base64 4096 (get "nonce" c)
  hash ← base64 4096 (get "clientHelloHash" c)
  signature ← base64 4096 (get "signature" c)
  some (record {
    protocol_version = version;
    session_id = session_id;
    device_id = device_id;
    display_name = display_name;
    identity_public_key = identity_key;
    ephemeral_public_key = ephemeral_key;
    nonce = nonce;
    client_hello_hash = hash;
    signature = signature;
  })

unfoldable pub server_hello : Json → Result P.ServerHello
unfolding server_fields
server_hello v =
    and_then (record_or_throw "Invalid control message." v)
      (λ c. or_throw "Invalid server handshake." (server_fields c))

envelope_fields : Fields → Option P.SecureEnvelope
envelope_fields c = do
  _ ← check (is_text "secure" (get "kind" c))
  counter ← keep_if matches_counter (as_text (get "counter" c))
  ciphertext ← base64 P.maximum_frame_bytes (get "ciphertext" c)
  auth_tag ← base64 64 (get "authTag" c)
  some (record { counter = counter; ciphertext = ciphertext; auth_tag = auth_tag })

unfoldable pub secure_envelope : Json → Result P.SecureEnvelope
unfolding envelope_fields
secure_envelope v =
    and_then (record_or_throw "Invalid control message." v)
      (λ c. or_throw "Invalid secure control envelope." (envelope_fields c))
