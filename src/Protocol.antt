-- ===== src/Protocol.antt =====
-- src/main/connectivity/ProtocolContracts.ts: the messages of the control connection. A message
-- has the properties that the source declares and no others; its `kind` is its constructor.
pub mod Validator
pub mod Records
pub mod Messages
pub mod Encoding
pub mod WellFormed
pub mod Finite
use istream.Prelude.{ℕ, String, Bool, List}
use istream.Contracts.Connectivity.{ConnectionIntent}
use istream.Contracts.Diagnostics.{DiagnosticRecord, Number}
use istream.Contracts.Media.{MediaSignal}

pub record ClientHello : Type 0 where
  pub protocol_version : ℕ
  pub session_id : String
  pub device_id : String
  pub display_name : String
  pub identity_public_key : String
  pub ephemeral_public_key : String
  pub nonce : String
  pub intent : ConnectionIntent
  pub signature : String

pub record ServerHello : Type 0 where
  pub protocol_version : ℕ
  pub session_id : String
  pub device_id : String
  pub display_name : String
  pub identity_public_key : String
  pub ephemeral_public_key : String
  pub nonce : String
  pub client_hello_hash : String
  pub signature : String

pub record SecureEnvelope : Type 0 where
  pub counter : String
  pub ciphertext : String
  pub auth_tag : String

pub data SecureMessage : Type 0 where
  ready : SecureMessage
  ready_acknowledged : SecureMessage
  consent_decision : (accepted : Bool) → SecureMessage
  ping : (ping_id : String) (sent_at : Number) → SecureMessage
  pong : (ping_id : String) → SecureMessage
  reversal_request : (request_id : String) → SecureMessage
  reversal_decision : (request_id : String) (accepted : Bool) → SecureMessage
  disconnect : (reason : String) → SecureMessage
  protocol_error : (reason : String) → SecureMessage
  diagnostics_request : (request_id : String) (limit : ℕ) → SecureMessage
  diagnostics_batch :
      (request_id : String) (records : List DiagnosticRecord) (complete : Bool) → SecureMessage
  media_signal : (signal : MediaSignal) → SecureMessage

-- `ProtocolLimits`
abbrev pub maximum_frame_bytes : ℕ
maximum_frame_bytes = 65536

abbrev pub maximum_session_description_length : ℕ
maximum_session_description_length = 32000

abbrev pub maximum_ice_candidate_length : ℕ
maximum_ice_candidate_length = 4096
