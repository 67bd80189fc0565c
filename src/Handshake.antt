-- ===== src/Handshake.antt =====
-- The handshake: `HandshakeFactory` and `HandshakeTranscript` of
-- src/main/connectivity/SessionCryptography.ts with `DeviceIdentity` of
-- src/main/connectivity/DeviceIdentity.ts, whose key pair is known by its private key.
pub mod Agreement
use Prim.Native.Nat.{◌%◌}
use Prim.Native.String.{slice, len}
use istream.Prelude.{
  ℕ, zero, suc, ◌-◌, String, text_append, Bool, true, false, not, ◌||◌, Option, none, some, str_eq,
  if◌then◌else◌, Result, ok, thrown,
}
use istream.Prelude.Decimals.{to_decimal}
use istream.Values.{Json, text, number, array, nil, cons, Items}
use istream.Contracts.Connectivity.{ConnectionIntent, protocol_version}
use istream.Contracts.Diagnostics.{int}
use istream.Platform.{Platform}
use istream.Protocol.{ClientHello, ServerHello}
use istream.Protocol.Encoding.{client_to_json, server_to_json, intent_text}

pub record DeviceIdentity : Type 0 where
  pub display_name : String
  pub private_key : String

module _ (p : Platform) where
  unfoldable pub device_id_for_public_key : String → String
  device_id_for_public_key public_key = slice (p.hex_digest public_key) 0 32

  unfoldable pub device_id : DeviceIdentity → String
  unfolding device_id_for_public_key
  device_id d = device_id_for_public_key (p.identity_public_key d.private_key)

  unfoldable pub client_payload : ClientHello → String
  client_payload m = p.stringify (
      array (
        cons (text "client-hello") (
          cons (number (int m.protocol_version)) (
            cons (text m.session_id) (
              cons (text m.device_id) (
                cons (text m.display_name) (
                  cons (text m.identity_public_key) (
                    cons (text m.ephemeral_public_key)
                      (cons (text m.nonce) (cons (text (intent_text m.intent)) nil))))))))))

  unfoldable pub server_payload : ServerHello → String
  server_payload m = p.stringify (
      array (
        cons (text "server-hello") (
          cons (number (int m.protocol_version)) (
            cons (text m.session_id) (
              cons (text m.device_id) (
                cons (text m.display_name) (
                  cons (text m.identity_public_key) (
                    cons (text m.ephemeral_public_key)
                      (cons (text m.nonce) (cons (text m.client_hello_hash) nil))))))))))

  unfoldable pub client_hello_hash : ClientHello → String
  client_hello_hash m = p.digest (p.stringify (client_to_json m))

  -- The unsigned message has an empty signature; the payload does not read it.
  unsigned_client : DeviceIdentity → String → String → ConnectionIntent → String → ClientHello
  unfolding device_id
  unsigned_client d session_id agreement intent nonce = record {
    protocol_version = protocol_version;
    session_id = session_id;
    device_id = device_id d;
    display_name = d.display_name;
    identity_public_key = p.identity_public_key d.private_key;
    ephemeral_public_key = p.public_key agreement;
    nonce = nonce;
    intent = intent;
    signature = "";
  }

  unfoldable pub create_client_hello :
      DeviceIdentity → String → String → ConnectionIntent → String → ClientHello
  unfolding unsigned_client client_payload
  create_client_hello d session_id agreement intent nonce =
      let unsigned = unsigned_client d session_id agreement intent nonce in
      record unsigned { signature = p.sign d.private_key (client_payload unsigned) }

  unsigned_server : DeviceIdentity → ClientHello → String → String → ServerHello
  unfolding device_id client_hello_hash
  unsigned_server d client agreement nonce = record {
    protocol_version = protocol_version;
    session_id = client.session_id;
    device_id = device_id d;
    display_name = d.display_name;
    identity_public_key = p.identity_public_key d.private_key;
    ephemeral_public_key = p.public_key agreement;
    nonce = nonce;
    client_hello_hash = client_hello_hash client;
    signature = "";
  }

  unfoldable pub create_server_hello : DeviceIdentity → ClientHello → String → String → ServerHello
  unfolding unsigned_server server_payload
  create_server_hello d client agreement nonce =
      let unsigned = unsigned_server d client agreement nonce in
      record unsigned { signature = p.sign d.private_key (server_payload unsigned) }

  abbrev key_or_throw {ℓ} : {A : Type ℓ} → Option A → Result A
  key_or_throw none = thrown p.key_failure
  key_or_throw (some a) = ok a

  unfoldable pub verify_client_hello : ClientHello → Result Bool
  unfolding device_id_for_public_key client_payload
  verify_client_hello m =
      if not (str_eq (device_id_for_public_key m.identity_public_key) m.device_id)
      then ok false
      else key_or_throw (p.verify m.identity_public_key (client_payload m) m.signature)

  unfoldable pub verify_server_hello : ServerHello → ClientHello → Result Bool
  unfolding device_id_for_public_key server_payload client_hello_hash
  verify_server_hello m client =
      if not (str_eq m.session_id client.session_id)
        || not (str_eq m.client_hello_hash (client_hello_hash client))
        || not (str_eq (device_id_for_public_key m.identity_public_key) m.device_id)
      then ok false
      else key_or_throw (p.verify m.identity_public_key (server_payload m) m.signature)

  unfoldable pub session_hash : ClientHello → ServerHello → String
  session_hash c s = p.digest (
      text_append (p.stringify (client_to_json c))
        (text_append "\n" (p.stringify (server_to_json s))))

  -- `padStart(6, '0')`
  zeros : ℕ → String
  zeros zero = ""
  zeros (suc n) = text_append "0" (zeros n)

  unfoldable pub verification_code : String → String → String
  unfolding zeros
  verification_code secret hash =
      let digits = to_decimal (p.leading_word secret hash % 1000000) in
      text_append (zeros (6 - len digits)) digits

  -- `EphemeralKeyAgreement.deriveSharedSecret`
  unfoldable pub derive_shared_secret : String → String → Result String
  derive_shared_secret agreement remote = key_or_throw (p.shared_secret agreement remote)
