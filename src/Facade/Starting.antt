-- ===== src/Facade/Starting.antt =====
-- `ConnectivityFacade.start`, with what its waits bring: the identity and the trust store's file, the
-- ports that the operating system gives, and whether the socket of discovery could be bound. What
-- arrives from outside during these waits comes after the start here.
use istream.Prelude.{
  ℕ, String, Bool, Option, some, [], Result, ok, thrown, Attempt, pure, lift, modify, ◌>>=◌, ◌>>◌,
  if◌then◌else◌,
}
use istream.Contracts.Connectivity.{ready, failed}
use istream.Values.{Json}
use istream.Platform.{Platform}
use istream.Handshake.{DeviceIdentity}
use istream.Trust as T
use istream.Trust.{Store}
use istream.Manager.{new_manager}
use istream.Discovery as D
use istream.Servers.Control as C
use istream.Servers.Loopback as L
use istream.Facade.{Facade}
use istream.Facade.Operations.{notify_listeners}

pub record ConnectivityRuntimeOptions : Type 0 where
  pub enable_discovery : Bool
  pub preferred_control_port : ℕ
  pub enable_local_diagnostics_server : Bool
  pub preferred_diagnostics_port : ℕ

-- What the start finds outside.
pub record Surroundings : Type 0 where
  pub now : ℕ
  pub identity : Result DeviceIdentity
  pub stored_peers : Result (Option Json)
  pub listen : ℕ → Result ℕ
  pub listen_loopback : ℕ → Result ℕ
  pub bind_error : Option String

abbrev empty_store : Store
empty_store = record { peers = []; written = [] }

module _ (p : Platform) (order : String → String → Bool) (options : ConnectivityRuntimeOptions)
    (outside : Surroundings) where
  unfoldable pub start_control : Attempt Facade ℕ
  start_control f =
      let r = C.start outside.listen options.preferred_control_port C.new_control_server in
      (r.0, record f { control_server = some r.1 })

  unfoldable pub start_loopback : Attempt Facade (Unit {0})
  start_loopback f =
      let r =
        L.start outside.listen_loopback options.preferred_diagnostics_port L.new_http_server in
      if options.enable_local_diagnostics_server
      then (lift r.0 >>= λ port. pure tt) (record f { http_server = some r.1 })
      else (ok tt, f)

  unfoldable pub start_discovery : DeviceIdentity → ℕ → Attempt Facade (Unit {0})
  start_discovery identity port f =
      let r = D.start p order outside.now outside.bind_error port (D.new_discovery identity) in
      if options.enable_discovery then (r.0, record f { discovery = some r.1 }) else (ok tt, f)

  -- The body of the `try`.
  unfoldable pub start_services : Attempt Facade (Unit {0})
  unfolding start_control start_loopback start_discovery
  start_services = do
    identity ← lift outside.identity
    modify λ f. record f { identity = some identity }
    stored ← lift outside.stored_peers
    modify λ f. record f {
      manager = some (new_manager identity (T.load outside.now stored empty_store) f.hub);
    }
    port ← start_control
    start_loopback
    start_discovery identity port

  unfoldable pub start : Attempt Facade (Unit {0})
  unfolding start_services notify_listeners
  start f =
      let r = start_services f in
      elim r.0 [
        | ok _ ↦ (ok tt, notify_listeners (record r.1 { service_state = ready }))
        | thrown e ↦ (
          thrown e,
          notify_listeners (record r.1 { service_state = failed; last_operation_error = some e }),
        )
      ]
