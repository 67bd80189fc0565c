-- ===== src/Manager.antt =====
-- `ConnectionManager` of src/main/connectivity/ConnectionManager.ts: the one session of this
-- computer, and what it shares with the trust store and the diagnostics hub. A session that was
-- replaced still hears its timers and the trust store's file, and so it is kept in `former`, the
-- latest first. What a session's effects do to the manager is done when the session's step ends.
pub mod Events
pub mod Sound
pub mod Consent
pub mod Displaced
pub mod Stays
mod Records
use istream.Prelude.{
  ℕ, zero, suc, ◌+◌, String, Bool, true, false, not, ◌&&◌, ◌||◌, Option, none, some, List, [], ◌∷◌,
  ◌++◌, map, keep, take_last, ◌==◌, if◌then◌else◌, Result, ok, thrown, Attempt,
}
use istream.Prelude.Lists.{take_out}
use istream.Contracts.Connectivity.{
  ConnectionIntent, LocalMediaRole, ActiveConnectionDescriptor, ConsentPromptDescriptor, idle,
}
use istream.Contracts.Diagnostics.{
  DiagnosticRecord, CollectedDiagnosticRecord, DiagnosticEventSource, local, remote,
}
use istream.Contracts.Media.{MediaSignal}
use istream.Platform.{Platform}
use istream.Values.{Json}
use istream.Handshake.{DeviceIdentity}
use istream.Trust.{Store}
use istream.Hub.{DiagnosticsHub, publish, snapshot}
use istream.Addressing.{ParsedEndpoint, is_private_ipv4}
use istream.Session as S
use istream.Session.{
  Session, Env, Effect, changed, sent, recorded, signalled, resolved, rejected, is_closed,
  new_session,
}

-- A call of `connect` whose socket is not open yet.
pub record Dial : Type 0 where
  pub endpoint : ParsedEndpoint
  pub intent : ConnectionIntent
  pub expected_device_id : Option String

pub record Manager : Type 0 where
  pub identity : DeviceIdentity
  pub store : Store
  pub hub : DiagnosticsHub
  pub session : Option Session
  pub former : List Session
  pub dialling : List Dial
  -- How often the listeners were called, and the media signals that were handed on, latest first.
  pub notifications : ℕ
  pub signals : List MediaSignal

unfoldable pub new_manager : DeviceIdentity → Store → DiagnosticsHub → Manager
new_manager identity store hub = record {
  identity = identity;
  store = store;
  hub = hub;
  session = none;
  former = [];
  dialling = [];
  notifications = 0;
  signals = [];
}

unfoldable pub notify_changed : Manager → Manager
notify_changed m = record m { notifications = m.notifications + 1 }

unfoldable pub idle_connection : ActiveConnectionDescriptor
idle_connection = record {
  state = idle;
  peer = none;
  role = LocalMediaRole.none;
  round_trip_time_ms = none;
  connected_at = none;
  error = none;
}

unfoldable pub presentation : Manager → ActiveConnectionDescriptor × Option ConsentPromptDescriptor
unfolding idle_connection
presentation m = elim m.session [ none ↦ (idle_connection, none) | some s ↦ S.presentation s ]

abbrev pub is_local : CollectedDiagnosticRecord → Bool
is_local r = elim r.source [ local ↦ true | remote ↦ false ]

abbrev pub records_of : List CollectedDiagnosticRecord → List DiagnosticRecord
records_of [] = []
records_of (r ∷ rs) = r.record_of ∷ records_of rs

-- `slice(-limit)`, which takes everything at a limit of 0.
abbrev pub slice_last {ℓ} : {A : Type ℓ} → ℕ → List A → List A
slice_last limit xs = if limit == 0 then xs else take_last limit xs

-- The hub's own pruning by `snapshot` is left to its next publication.
unfoldable pub local_diagnostic_records : ℕ → DiagnosticsHub → ℕ → List DiagnosticRecord
local_diagnostic_records now hub limit =
    records_of (slice_last limit (keep is_local (snapshot now hub).0))

unfoldable pub publish_all :
    ℕ → DiagnosticEventSource → List DiagnosticRecord → DiagnosticsHub → DiagnosticsHub
publish_all now source [] hub = hub
publish_all now source (r ∷ rs) hub = publish_all now source rs (publish now r source hub)

-- What one effect of a session does to its manager: the listeners that the session was given, and
-- the second half of `requestRemoteDiagnostics` for the records that the session resolves.
unfoldable pub feed : ℕ → Effect → Manager → Manager
unfolding publish_all notify_changed
feed now changed m = notify_changed m
feed now (recorded r) m = record m { hub = publish now r local m.hub }
feed now (signalled signal) m = record m { signals = signal ∷ m.signals }
feed now (resolved id rs) m = record m { hub = publish_all now remote rs m.hub }
feed now (sent _) m = m
feed now (rejected _ _) m = m

-- All of them, the earliest first.
unfoldable pub feed_all : ℕ → List Effect → Manager → Manager
unfolding feed
feed_all now [] m = m
feed_all now (e ∷ earlier) m = feed now e (feed_all now earlier m)

unfoldable pub is_available : Manager → Bool
is_available m = elim m.session [ none ↦ true | some s ↦ is_closed s.phase ]

-- What a session finds around it: the manager's store.
abbrev pub enter : Manager → Session → Session
enter m s = record s { store = m.store }

-- The environment of a session's event, with the manager's local records.
abbrev pub seen : Env → Manager → Env
seen env m = record env { local_records = local_diagnostic_records env.now m.hub }

-- What a session leaves: the store, and its effects.
unfoldable pub leave : Env → Session → Manager → Manager
unfolding feed_all
leave env s m = feed_all env.now s.effects (record m { store = s.store })

abbrev pub emptied : Session → Session
emptied s = record s { effects = [] }

-- A step of the current session.
unfoldable pub act : Env → Attempt Session (Unit {0}) → Session → Attempt Manager (Unit {0})
unfolding leave
act env f s m =
    let r = f (enter m s) in (r.0, record (leave env r.1 m) { session = some (emptied r.1) })

-- The session is disposed, and no longer the manager's.
unfoldable pub retire : Env → Manager → Manager
unfolding leave
retire env m = elim m.session [
  | none ↦ m
  | some s ↦
      let gone = S.dispose (enter m s) in
      record (leave env gone m) { session = none; former = emptied gone ∷ m.former }
]

unfoldable pub install_session : Env → Session → Manager → Manager
unfolding retire notify_changed
install_session env s m = notify_changed (record (retire env m) { session = some s })

module _ (p : Platform) where
  -- `connect` up to its `await`.
  unfoldable pub connect : Dial → Attempt Manager (Unit {0})
  unfolding is_available
  connect dial m =
      if is_available m
      then (ok tt, record m { dialling = m.dialling ++ dial ∷ [] })
      else (thrown "Disconnect the current peer before starting another connection.", m)

  -- A new session with an ephemeral private key of its own.
  unfoldable pub begin :
      Env
      → String
      → String
      → Bool
      → Option String
      → Option ConnectionIntent
      → Attempt Manager (Unit {0})
  unfolding act install_session
  begin env agreement address initiator expected intent m =
      let s = new_session m.identity agreement address initiator expected m.store env.now in
      let installed = install_session env s m in
      act env (S.start p (seen env installed) intent) s installed

  -- The socket of the `n`th call that waits opens, or fails.
  unfoldable pub dial_opened : Env → String → ℕ → Attempt Manager (Unit {0})
  unfolding begin take_out
  dial_opened env agreement n m = elim (take_out n m.dialling) [
    | none ↦ (ok tt, m)
    | some (dial, rest) ↦
        begin env agreement dial.endpoint.host true dial.expected_device_id (some dial.intent)
          (record m { dialling = rest })
  ]

  unfoldable pub dial_failed : ℕ → Manager → Manager
  unfolding take_out
  dial_failed n m = elim (take_out n m.dialling) [
    | none ↦ m
    | some (dial, rest) ↦ record m { dialling = rest }
  ]

  -- Whether the socket was kept, and the manager.
  unfoldable pub accept_incoming : Env → String → String → Manager → Bool × Manager
  unfolding begin is_available
  accept_incoming env agreement address m =
      if not (is_private_ipv4 address) || not (is_available m)
      then (false, m)
      else (true, (begin env agreement address false none none m).1)

  -- A method of the session, if there is one.
  unfoldable pub with_session :
      String → Env → (Env → Attempt Session (Unit {0})) → Attempt Manager (Unit {0})
  unfolding act
  with_session message env f m = elim m.session [
    | none ↦ (thrown message, m)
    | some s ↦ act env (f (seen env m)) s m
  ]

  unfoldable pub respond_to_prompt :
      Env → String → Bool → Option String → Attempt Manager (Unit {0})
  unfolding with_session
  respond_to_prompt env id accepted code =
      with_session "There is no active consent request." env
        (λ seen. S.respond_to_prompt p seen id accepted code)

  unfoldable pub request_reversal : Env → Attempt Manager (Unit {0})
  unfolding with_session
  request_reversal env =
      with_session "There is no active connection." env (λ seen. S.request_reversal p seen)

  -- The records come later: `feed` has what happens to them.
  unfoldable pub request_remote_diagnostics : Env → ℕ → Attempt Manager (Unit {0})
  unfolding with_session
  request_remote_diagnostics env limit =
      with_session "There is no active connection." env
        (λ seen s. (ok tt, S.request_diagnostics p seen limit s))

  unfoldable pub send_media_signal : Env → MediaSignal → Attempt Manager (Unit {0})
  unfolding with_session
  send_media_signal env signal =
      with_session "There is no active connection for streaming." env
        (λ seen. S.send_media_signal p seen signal)

  unfoldable pub disconnect : Env → Manager → Manager
  unfolding act retire notify_changed
  disconnect env m = elim m.session [
    | none ↦ m
    | some s ↦
        if is_closed s.phase
        then notify_changed (retire env m)
        else notify_changed (
            (act env (λ t. (ok tt, S.disconnect_with p (seen env m) "Disconnected by the user." t))
              s m).1)
  ]

unfoldable pub dispose : Env → Manager → Manager
unfolding retire
dispose env m = retire env m
