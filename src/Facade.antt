-- ===== src/Facade.antt =====
-- `ConnectivityFacade` of src/main/connectivity/ConnectivityFacade.ts: what the window asks of the
-- connectivity, and the snapshot that it is shown. `now` is the clock's reading; `order` tells whether
-- a name comes before another one in the order of `localeCompare`, or is the same there.
pub mod Descriptors
pub mod Operations
pub mod Starting
pub mod Complete
use istream.Prelude.{
  ℕ, ◌+◌, String, Bool, true, false, not, ◌&&◌, Option, none, some, List, [], ◌∷◌, is_none,
  if◌then◌else◌, str_eq,
}
use istream.Contracts.Connectivity.{
  ServiceState, ConnectionState, connected, idle, failed, starting, LocalMediaRole,
  ActiveConnectionDescriptor, ConsentPromptDescriptor, DiscoveredPeerDescriptor,
}
use istream.Platform.{Platform}
use istream.Handshake.{DeviceIdentity, device_id}
use istream.Hub.{DiagnosticsHub}
use istream.Trust.{Store}
use istream.Addressing.{NetworkInterface, private_addresses}
use istream.Discovery.{Discovery}
use istream.Discovery as D
use istream.Manager.{Manager}
use istream.Manager as M
use istream.Servers.Control.{ControlServer}
use istream.Servers.Loopback.{DiagnosticsHttpServer, DiagnosticsEndpointDescriptor, descriptor}
use istream.Facade.Descriptors.{peer_descriptors}

-- The trust store is the manager's, and so is the hub once there is a manager.
pub record Facade : Type 0 where
  pub service_state : ServiceState
  pub identity : Option DeviceIdentity
  pub hub : DiagnosticsHub
  pub manager : Option Manager
  pub control_server : Option ControlServer
  pub discovery : Option Discovery
  pub http_server : Option DiagnosticsHttpServer
  pub last_operation_error : Option String
  pub media_diagnostic_sequence : ℕ
  -- How often its own methods called the listeners.
  pub notifications : ℕ

unfoldable pub new_facade : DiagnosticsHub → Facade
new_facade hub = record {
  service_state = starting;
  identity = none;
  hub = hub;
  manager = none;
  control_server = none;
  discovery = none;
  http_server = none;
  last_operation_error = none;
  media_diagnostic_sequence = 0;
  notifications = 0;
}

pub record LocalEndpointDescriptor : Type 0 where
  pub device_id : String
  pub display_name : String
  pub control_port : ℕ
  pub addresses : List String

pub record ConnectivitySnapshot : Type 0 where
  pub service_state : ServiceState
  pub local_endpoint : Option LocalEndpointDescriptor
  pub discovered_peers : List DiscoveredPeerDescriptor
  pub connection : ActiveConnectionDescriptor
  pub prompt : Option ConsentPromptDescriptor
  pub diagnostics : Option DiagnosticsEndpointDescriptor

abbrev is_idle : ConnectionState → Bool
is_idle idle = true
is_idle _ = false

-- What the manager presents, or that there is none.
unfoldable pub session_presentation :
    Facade → ActiveConnectionDescriptor × Option ConsentPromptDescriptor
session_presentation f = elim f.manager [
  | some m ↦ M.presentation m
  | none ↦ (
    record {
      state = if is_none f.last_operation_error then idle else ConnectionState.failed;
      peer = none;
      role = LocalMediaRole.none;
      round_trip_time_ms = none;
      connected_at = none;
      error = f.last_operation_error;
    },
    none,
  )
]

-- An idle connection shows the last operation's error.
unfoldable pub shown_connection :
    Option String → ActiveConnectionDescriptor → ActiveConnectionDescriptor
shown_connection last_error c =
    if is_idle c.state && not (is_none last_error)
    then record c { state = ConnectionState.failed; error = last_error }
    else c

abbrev store_of : Option Manager → Option Store
store_of none = none
store_of (some m) = some m.store

module _ (p : Platform) (order : String → String → Bool) where
  abbrev live_peers : Option Discovery → List DiscoveredPeerDescriptor
  live_peers none = []
  live_peers (some d) = D.peers p order d

  -- The addresses of the interfaces, without repetitions and sorted by `arrange`.
  unfoldable pub local_endpoint :
      (arrange : List String → List String)
      → List NetworkInterface
      → Facade
      → Option LocalEndpointDescriptor
  local_endpoint arrange interfaces f = elim f.identity [
    | none ↦ none
    | some identity ↦ elim f.control_server [
      | none ↦ none
      | some server ↦ some (record {
        device_id = device_id p identity;
        display_name = identity.display_name;
        control_port = server.port;
        addresses = arrange (private_addresses interfaces);
      })
    ]
  ]

  abbrev http_descriptor : Option DiagnosticsHttpServer → Option DiagnosticsEndpointDescriptor
  http_descriptor none = none
  http_descriptor (some server) = descriptor server

  unfoldable pub snapshot :
      ℕ
      → (arrange : List String → List String) → List NetworkInterface
      → Facade
      → ConnectivitySnapshot
  unfolding local_endpoint session_presentation shown_connection
  snapshot now arrange interfaces f =
      let presented = session_presentation f in
      record {
        service_state = f.service_state;
        local_endpoint = local_endpoint arrange interfaces f;
        discovered_peers =
            peer_descriptors order now presented.0 (live_peers f.discovery) (store_of f.manager);
        connection = shown_connection f.last_operation_error presented.0;
        prompt = presented.1;
        diagnostics = http_descriptor f.http_server;
      }
