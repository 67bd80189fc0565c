-- ===== src/Manager/Events.antt =====
-- A manager as a state machine: the calls of its methods, and what reaches its sessions.
use istream.Prelude.{ℕ, zero, suc, String, Bool, Option, none, some, List, [], ◌∷◌, ok}
use istream.Contracts.Diagnostics.{DiagnosticRecord, DiagnosticEventSource}
use istream.Contracts.Media.{MediaSignal}
use istream.Platform.{Platform}
use istream.Values.{Json}
use istream.Trust.{Store}
use istream.Hub.{publish}
use istream.Session as S
use istream.Session.{Session, Env}
use istream.Manager.{
  Manager, Dial, act, seen, enter, emptied, leave, connect, dial_opened, dial_failed,
  accept_incoming, respond_to_prompt, request_reversal, request_remote_diagnostics,
  send_media_signal, disconnect, dispose,
}

-- What comes to a session from its socket, its timers and the trust store's file.
pub data Incoming : Type 0 where
  receives : Json → Incoming
  handshake_expires keep_alive_fires recording_fires : Incoming
  diagnostics_expire : (request_id : String) → Incoming
  transport_closes : (reason : String) → Incoming
  settles settle_fails : Incoming

abbrev pub event_of : Incoming → S.Event
event_of (receives value) = S.receives value
event_of handshake_expires = S.handshake_expires
event_of keep_alive_fires = S.keep_alive_fires
event_of recording_fires = S.recording_fires
event_of (diagnostics_expire id) = S.diagnostics_expire id
event_of (transport_closes reason) = S.transport_closes reason
event_of settles = S.settles
event_of settle_fails = S.settle_fails

pub data ManagerEvent : Type 0 where
  connects : Dial → ManagerEvent
  dial_opens : (n : ℕ) (agreement : String) → ManagerEvent
  dial_fails : (n : ℕ) → ManagerEvent
  accepts : (agreement address : String) → ManagerEvent
  responds : (prompt_id : String) (accepted : Bool) (entered : Option String) → ManagerEvent
  requests_reversal : ManagerEvent
  requests_diagnostics : (limit : ℕ) → ManagerEvent
  sends_signal : MediaSignal → ManagerEvent
  disconnects disposes : ManagerEvent
  -- Something comes to the current session, or to the `n`th of those before it.
  to_session : Incoming → ManagerEvent
  to_former : (n : ℕ) → Incoming → ManagerEvent
  -- The user clears a record of the trust store; somebody else publishes a record.
  store_changes : Store → ManagerEvent
  publishes : DiagnosticRecord → DiagnosticEventSource → ManagerEvent

module _ (p : Platform) (env : Env) where
  unfoldable pub session_step : Incoming → Manager → Manager
  session_step event m = elim m.session [
    | none ↦ m
    | some s ↦ (act env (λ t. (ok tt, S.step p (event_of event, seen env m) t)) s m).1
  ]

  -- The `n`th former session takes a step, and leaves its effects to the manager `m`.
  unfoldable pub step_at : ℕ → Incoming → Manager → List Session → List Session × Manager
  step_at n event m [] = ([], m)
  step_at zero event m (s ∷ rest) =
      let t = S.step p (event_of event, seen env m) (enter m s) in (emptied t ∷ rest, leave env t m)
  step_at (suc n) event m (s ∷ rest) = let r = step_at n event m rest in (s ∷ r.0, r.1)

  unfoldable pub former_step : ℕ → Incoming → Manager → Manager
  unfolding step_at
  former_step n event m = let r = step_at n event m m.former in record r.1 { former = r.0 }

-- An error of a method goes to its caller.
unfoldable pub step : Platform → ManagerEvent × Env → Manager → Manager
unfolding session_step former_step
step p (connects dial, env) m = (connect p dial m).1
step p (dial_opens n agreement, env) m = (dial_opened p env agreement n m).1
step p (dial_fails n, env) m = dial_failed p n m
step p (accepts agreement address, env) m = (accept_incoming p env agreement address m).1
step p (responds id accepted entered, env) m = (respond_to_prompt p env id accepted entered m).1
step p (requests_reversal, env) m = (request_reversal p env m).1
step p (requests_diagnostics limit, env) m = (request_remote_diagnostics p env limit m).1
step p (sends_signal signal, env) m = (send_media_signal p env signal m).1
step p (disconnects, env) m = disconnect p env m
step p (disposes, env) m = dispose env m
step p (to_session event, env) m = session_step p env event m
step p (to_former n event, env) m = former_step p env n event m
step p (store_changes store, env) m = record m { store = store }
step p (publishes r source, env) m = record m { hub = publish env.now r source m.hub }

unfoldable pub run : Platform → List (ManagerEvent × Env) → Manager → Manager
unfolding step
run p [] m = m
run p (e ∷ es) m = run p es (step p e m)
