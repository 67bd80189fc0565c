-- ===== src/Session/State.antt =====
-- The state of one `PeerSession` of src/main/connectivity/PeerSession.ts: its fields, and what it
-- does to the objects around it as a list of effects, latest first.
use istream.Prelude.{
  ℕ, String, Bool, true, false, Option, none, List, [], ◌∷◌, if◌then◌else◌, is_none,
}
use istream.Contracts.Connectivity.{
  ConnectionIntent, ConnectionState, LocalMediaRole, ConnectedPeerDescriptor,
  ConsentPromptDescriptor, ActiveConnectionDescriptor,
}
use istream.Contracts.Diagnostics.{DiagnosticRecord}
use istream.Contracts.Media.{MediaSignal}
use istream.Protocol.{ClientHello, ServerHello, SecureMessage, maximum_frame_bytes}
use istream.Handshake.{DeviceIdentity}
use istream.Cipher.{Cipher}
use istream.Transport.{Transport, open_transport}
use istream.Trust.{Store}

pub data PeerSessionPhase : Type 0 where
  awaiting_client_hello awaiting_server_hello awaiting_secure_ready : PeerSessionPhase
  awaiting_secure_acknowledgement awaiting_consent connected closed : PeerSessionPhase

abbrev pub is_closed : PeerSessionPhase → Bool
is_closed closed = true
is_closed _ = false

abbrev pub is_connected : PeerSessionPhase → Bool
is_connected connected = true
is_connected _ = false

abbrev pub is_awaiting_consent : PeerSessionPhase → Bool
is_awaiting_consent awaiting_consent = true
is_awaiting_consent _ = false

abbrev pub is_awaiting_ready : PeerSessionPhase → Bool
is_awaiting_ready awaiting_secure_ready = true
is_awaiting_ready _ = false

abbrev pub is_awaiting_acknowledgement : PeerSessionPhase → Bool
is_awaiting_acknowledgement awaiting_secure_acknowledgement = true
is_awaiting_acknowledgement _ = false

-- A request for the peer's records: `resolve` and `reject` are effects, and the timer's firing is
-- an operation of its own.
pub record PendingDiagnosticRequest : Type 0 where
  pub limit : ℕ
  pub records : List DiagnosticRecord

-- Who called `tryEstablishConnection`, where it waits for the trust store's file.
pub data Caller : Type 0 where
  by_prompt by_message : Caller

pub data Effect : Type 0 where
  changed : Effect
  sent : SecureMessage → Effect
  recorded : DiagnosticRecord → Effect
  signalled : MediaSignal → Effect
  resolved : (request_id : String) → List DiagnosticRecord → Effect
  rejected : (request_id reason : String) → Effect

pub record Session : Type 0 where
  pub identity : DeviceIdentity
  pub agreement : String
  pub remote_address : String
  pub initiator : Bool
  pub expected_device_id : Option String
  pub store : Store
  pub transport : Transport
  pub phase : PeerSessionPhase
  pub intent : Option ConnectionIntent
  pub client_hello : Option ClientHello
  pub server_hello : Option ServerHello
  pub cipher : Option Cipher
  pub peer : Option ConnectedPeerDescriptor
  pub peer_public_key : Option String
  pub verification_code : Option String
  pub prompt : Option ConsentPromptDescriptor
  pub local_consent : Option Bool
  pub remote_consent : Option Bool
  pub role : LocalMediaRole
  pub connected_at : Option ℕ
  pub round_trip_time_ms : Option ℕ
  pub error : Option String
  pub handshake_timer : Bool
  pub keep_alive_timer : Bool
  pub diagnostic_timer : Bool
  -- Intervals whose handle was overwritten, so that nothing clears them any more.
  pub stray_timers : ℕ
  pub diagnostic_sequence : ℕ
  pub last_secure_message_at : ℕ
  pub pending_outgoing_reversal_id : Option String
  pub pending_incoming_reversal_id : Option String
  pub intentional_close : Bool
  pub pending_pings : List (String × ℕ)
  pub pending_diagnostic_requests : List (String × PendingDiagnosticRequest)
  -- The calls of `tryEstablishConnection` that wait, first call first.
  pub establishing : List Caller
  pub effects : List Effect

-- What an event reads from outside: the clock, the next random identifier and the next random bytes,
-- and the diagnostics hub's local records.
pub record Env : Type 0 where
  pub now : ℕ
  pub uuid : String
  pub random : String
  pub local_records : ℕ → List DiagnosticRecord

-- The constructor, for a socket that is open.
unfoldable pub new_session :
    DeviceIdentity → String → String → Bool → Option String → Store → ℕ → Session
unfolding open_transport
new_session identity agreement remote_address initiator expected store now = record {
  identity = identity;
  agreement = agreement;
  remote_address = remote_address;
  initiator = initiator;
  expected_device_id = expected;
  store = store;
  transport = open_transport maximum_frame_bytes;
  phase = if initiator then awaiting_server_hello else awaiting_client_hello;
  intent = none;
  client_hello = none;
  server_hello = none;
  cipher = none;
  peer = none;
  peer_public_key = none;
  verification_code = none;
  prompt = none;
  local_consent = none;
  remote_consent = none;
  role = LocalMediaRole.none;
  connected_at = none;
  round_trip_time_ms = none;
  error = none;
  handshake_timer = false;
  keep_alive_timer = false;
  diagnostic_timer = false;
  stray_timers = 0;
  diagnostic_sequence = 0;
  last_secure_message_at = now;
  pending_outgoing_reversal_id = none;
  pending_incoming_reversal_id = none;
  intentional_close = false;
  pending_pings = [];
  pending_diagnostic_requests = [];
  establishing = [];
  effects = [];
}

unfoldable pub connection_state : Session → ConnectionState
connection_state s = elim s.phase [
  | connected ↦ ConnectionState.connected
  | awaiting_consent ↦ ConnectionState.pairing
  | closed ↦ if is_none s.error then ConnectionState.idle else ConnectionState.failed
  | _ ↦ ConnectionState.connecting
]

unfoldable pub presentation : Session → ActiveConnectionDescriptor × Option ConsentPromptDescriptor
unfolding connection_state
presentation s = (
  record {
    state = connection_state s;
    peer = s.peer;
    role = s.role;
    round_trip_time_ms = s.round_trip_time_ms;
    connected_at = s.connected_at;
    error = s.error;
  },
  s.prompt,
)

abbrev pub emit : Effect → Session → Session
emit e s = record s { effects = e ∷ s.effects }

abbrev pub notify_changed : Session → Session
notify_changed = emit changed
