-- ===== src/Facade/Operations.antt =====
-- The calls of `ConnectivityFacade`. An operation that waits ends with an event of its own, which is
-- `end_operation`; what the manager's sessions write to the hub goes to the manager's.
use istream.Prelude.{
  ℕ, ◌+◌, String, Bool, true, false, not, Option, none, some, List, [], ◌∷◌, str_eq, if◌then◌else◌,
  Result, ok, thrown, Attempt, modify, lift, refuse_if, ◌>>=◌, ◌>>◌,
}
use istream.Prelude.Texts.{matches_device_id}
use istream.Contracts.Connectivity.{
  ServiceState, starting, ready, ConnectionIntent, DiscoveredPeerDescriptor, preferred_control_port,
}
use istream.Contracts.Diagnostics as DC
use istream.Contracts.Media.{MediaSignal, MediaMetricSample}
use istream.Values.{Json}
use istream.Platform.{Platform}
use istream.Handshake.{DeviceIdentity, device_id}
use istream.Hub.{DiagnosticsHub}
use istream.Hub as H
use istream.Trust as T
use istream.Trust.{Store}
use istream.Addressing as A
use istream.Session.{Env}
use istream.Manager.{Manager, Dial, new_manager}
use istream.Manager as M
use istream.Discovery.{Discovery}
use istream.Discovery as D
use istream.Metrics as X
use istream.Servers.Control.{ControlServer}
use istream.Servers.Control as C
use istream.Servers.Loopback.{DiagnosticsHttpServer}
use istream.Servers.Loopback as L
use istream.Facade.{Facade}

unfoldable pub notify_listeners : Facade → Facade
notify_listeners f = record f { notifications = f.notifications + 1 }

-- `performOperation` behind the operation.
unfoldable pub end_operation : Result (Unit {0}) → Facade → Facade
unfolding notify_listeners
end_operation (ok _) f = notify_listeners f
end_operation (thrown e) f = notify_listeners (record f { last_operation_error = some e })

-- `performOperation` for an operation that throws before it waits, or waits.
unfoldable pub perform : Attempt Facade (Unit {0}) → Attempt Facade (Unit {0})
unfolding end_operation
perform operation f =
    let r = operation (record f { last_operation_error = none }) in
    elim r.0 [ ok _ ↦ r | thrown e ↦ (thrown e, end_operation (thrown e) r.1) ]

abbrev is_ready : ServiceState → Bool
is_ready ready = true
is_ready _ = false

-- A method of the manager, if the service is ready.
unfoldable pub with_manager : String → Attempt Manager (Unit {0}) → Attempt Facade (Unit {0})
with_manager message method f = elim f.manager [
  | none ↦ (thrown message, f)
  | some m ↦
      if not (is_ready f.service_state)
      then (thrown message, f)
      else let r = method m in (r.0, record f { manager = some r.1 })
]

-- `requiredManager()`
abbrev pub required : Attempt Manager (Unit {0}) → Attempt Facade (Unit {0})
required = with_manager "Connectivity service is not ready."

-- `peers().find((candidate) => candidate.deviceId === deviceId)`
unfoldable pub find_peer : String → List DiscoveredPeerDescriptor → Option DiscoveredPeerDescriptor
find_peer id [] = none
find_peer id (d ∷ ds) = if str_eq d.device_id id then some d else find_peer id ds

module _ (p : Platform) (order : String → String → Bool) where
  unfoldable pub connect_manual : String → ConnectionIntent → Attempt Facade (Unit {0})
  unfolding perform with_manager
  connect_manual text intent = perform (do
    endpoint ← lift (A.parse preferred_control_port text)
    required
        (M.connect p (record { endpoint = endpoint; intent = intent; expected_device_id = none })))

  unfoldable pub refresh_discovery : ℕ → Attempt Facade (Unit {0})
  unfolding perform
  refresh_discovery now = perform λ f. elim f.discovery [
    | none ↦ (thrown "LAN discovery is not available.", f)
    | some d ↦ let r = D.refresh p order now d in (r.0, record f { discovery = some r.1 })
  ]

  unfoldable pub clear_trust : String → Attempt Facade (Unit {0})
  unfolding perform with_manager
  clear_trust id = perform (do
    refuse_if (not (matches_device_id id)) "The trusted device identifier is invalid."
    with_manager "The trust store is not ready."
        (λ m. (ok tt, record m { store = T.clear id m.store })))

  abbrev heard : Option Discovery → List DiscoveredPeerDescriptor
  heard none = []
  heard (some d) = D.peers p order d

  abbrev dial_to : DiscoveredPeerDescriptor → ConnectionIntent → ℕ → Dial
  dial_to peer intent port = record {
    endpoint = record { host = peer.address; port = port };
    intent = intent;
    expected_device_id = some peer.device_id;
  }

  unfoldable pub connect_discovered : String → ConnectionIntent → Attempt Facade (Unit {0})
  unfolding perform with_manager find_peer
  connect_discovered id intent = perform λ f. elim (find_peer id (heard f.discovery)) [
    | none ↦ (thrown "That discovered peer is no longer available.", f)
    | some peer ↦ elim peer.control_port [
      | none ↦ (thrown "That trusted peer is offline.", f)
      | some port ↦ required (M.connect p (dial_to peer intent port)) f
    ]
  ]

  unfoldable pub respond_to_prompt : Env → String → Bool → Option String → Attempt Facade (Unit {0})
  unfolding perform with_manager
  respond_to_prompt env id accepted code =
      perform (required (M.respond_to_prompt p env id accepted code))

  unfoldable pub request_reversal : Env → Attempt Facade (Unit {0})
  unfolding perform with_manager
  request_reversal env = perform (required (M.request_reversal p env))

  unfoldable pub request_remote_diagnostics : Env → ℕ → Attempt Facade (Unit {0})
  unfolding with_manager
  request_remote_diagnostics env limit = required (M.request_remote_diagnostics p env limit)

  unfoldable pub send_media_signal : Env → MediaSignal → Attempt Facade (Unit {0})
  unfolding with_manager
  send_media_signal env signal = required (M.send_media_signal p env signal)

  unfoldable pub disconnect : Env → Attempt Facade (Unit {0})
  unfolding with_manager notify_listeners
  disconnect env = do
    modify λ f. record f { last_operation_error = none }
    required (λ m. (ok tt, M.disconnect p env m))
    modify notify_listeners

  abbrev media_record : ℕ → DeviceIdentity → MediaMetricSample → DC.DiagnosticRecord
  media_record sequence identity sample = record {
    schema_version = DC.schema_version_default;
    sequence = sequence;
    timestamp = sample.timestamp;
    origin_device_id = device_id p identity;
    origin_display_name = identity.display_name;
    category = DC.media;
    severity = DC.information;
    event = "media.sample";
    values = X.values_of sample;
  }

  -- The hub that a record goes to.
  abbrev publish : ℕ → DC.DiagnosticRecord → Facade → Facade
  publish now r f = elim f.manager [
    | none ↦ record f { hub = H.publish now r DC.local f.hub }
    | some m ↦ record f { manager = some (record m { hub = H.publish now r DC.local m.hub }) }
  ]

  unfoldable pub report_media_metrics : ℕ → Json → Attempt Facade (Unit {0})
  report_media_metrics now value f = elim f.identity [
    | none ↦ (thrown "Connectivity service is not ready.", f)
    | some identity ↦
        (lift (X.validate now value) >>= λ sample. modify λ g.
            publish now (media_record (g.media_diagnostic_sequence + 1) identity sample)
              (record g { media_diagnostic_sequence = g.media_diagnostic_sequence + 1 }))
          f
  ]

  abbrev stopped_discovery : Option Discovery → Option Discovery
  stopped_discovery none = none
  stopped_discovery (some d) = some (D.stop p order d)

  abbrev disposed_manager : Env → Option Manager → Option Manager
  disposed_manager env none = none
  disposed_manager env (some m) = some (M.dispose env m)

  abbrev stopped_control : Option ControlServer → Option ControlServer
  stopped_control none = none
  stopped_control (some s) = some (C.stop s)

  abbrev stopped_http : Option DiagnosticsHttpServer → Option DiagnosticsHttpServer
  stopped_http none = none
  stopped_http (some s) = some (L.stop s).0

  -- The waits for the servers to close change nothing more.
  unfoldable pub stop : Env → Facade → Facade
  stop env f = record f {
    discovery = stopped_discovery f.discovery;
    manager = disposed_manager env f.manager;
    control_server = stopped_control f.control_server;
    http_server = stopped_http f.http_server;
    service_state = starting;
  }
