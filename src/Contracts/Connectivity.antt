-- ===== src/Contracts/Connectivity.antt =====
-- src/shared/ConnectivityContracts.ts: the connection's states, its descriptors and the constants.
-- A `T | null` is an `Option T`; times are milliseconds of a clock that starts at 0.
use istream.Prelude.{ℕ, ◌*◌, String, Bool, Option, List}

pub data ServiceState : Type 0 where
  starting ready failed : ServiceState

pub data ConnectionState : Type 0 where
  idle connecting pairing connected failed : ConnectionState

pub data ConnectionIntent : Type 0 where
  view_remote share_local : ConnectionIntent

-- `LocalMediaRole.none` shares its name with the library's `none`.
pub data LocalMediaRole : Type 0 where
  none viewer sharer : LocalMediaRole

pub data PromptKind : Type 0 where
  pairing connection reversal : PromptKind

pub data ConsentPromptMode : Type 0 where
  waiting_for_peer enter_verification_code decision : ConsentPromptMode

pub record DiscoveredPeerDescriptor : Type 0 where
  pub device_id : String
  pub display_name : String
  pub address : String
  pub control_port : Option ℕ
  pub paired : Bool
  pub online : Bool
  pub trust_expires_at : Option ℕ
  pub trusted_intents : List ConnectionIntent
  pub last_seen_at : ℕ

pub record ConnectedPeerDescriptor : Type 0 where
  pub device_id : String
  pub display_name : String
  pub address : String
  pub paired : Bool

pub record ConsentPromptDescriptor : Type 0 where
  pub prompt_id : String
  pub kind : PromptKind
  pub mode : ConsentPromptMode
  pub peer_name : String
  pub verification_code : Option String
  pub intent : Option ConnectionIntent
  pub known_peer : Bool

pub record ActiveConnectionDescriptor : Type 0 where
  pub state : ConnectionState
  pub peer : Option ConnectedPeerDescriptor
  pub role : LocalMediaRole
  pub round_trip_time_ms : Option ℕ
  pub connected_at : Option ℕ
  pub error : Option String

-- `ConnectivityDefaults`
abbrev pub protocol_version : ℕ
protocol_version = 2

abbrev pub preferred_control_port : ℕ
preferred_control_port = 47778

abbrev pub peer_expiry_ms : ℕ
peer_expiry_ms = 7000

abbrev pub pairing_connection_timeout_ms : ℕ
pairing_connection_timeout_ms = 5000

abbrev pub connection_timeout_ms : ℕ
connection_timeout_ms = 15000

abbrev pub trust_duration_ms : ℕ
trust_duration_ms = 30 * 24 * 60 * 60 * 1000
