-- ===== src/Manager/Consent.antt =====
-- The sessions of a manager under every event, and in every run.
use istream.Prelude.Lists.{take_out}
use istream.Prelude.{
  ℕ, String, true, false, none, some, List, [], ◌∷◌, ◌≡◌, subst, sym, arith, All, ok, Option-cases,
  inl, inr,
}
use istream.Platform.{Platform}
use istream.Handshake.{DeviceIdentity}
use istream.Trust.{Store}
use istream.Hub.{DiagnosticsHub}
use istream.Session as S
use istream.Session.{
  Session, Env, is_connected, Effect, changed, recorded, signalled, resolved, sent, rejected,
}
use istream.Session.Agreed.{Agreed}
use istream.Session.Agreed.Run.{step-Agreed}
use istream.Manager.{
  Manager, new_manager, connect, dial_opened, dial_failed, accept_incoming, seen, dispose,
  respond_to_prompt, request_reversal, request_remote_diagnostics, send_media_signal,
}
use istream.Manager.Events.{
  ManagerEvent, connects, dial_opens, dial_fails, accepts, responds, requests_reversal,
  requests_diagnostics, sends_signal, disconnects, disposes, to_session, to_former, store_changes,
  publishes, Incoming, event_of, session_step, former_step, step, run,
}
use istream.Manager.Sound.{
  Sound, Every, act-Sound, retire-Sound, begin-Sound, current-Agreed, with_session-Sound,
  disconnect-Sound, step_at-Shut, step_at-session,
}

former_step-Sound :
    (p : Platform) (env : Env) (n : ℕ) (event : Incoming) (m : Manager)
    → Sound m
    → Sound (former_step p env n event m)
unfolding former_step
former_step-Sound p env n event m h = record {
  current = subst (Every Agreed) (sym (step_at-session p env n event m m.former)) h.current;
  former = step_at-Shut p env n event m m.former h.former;
}

session_step-Sound :
    (p : Platform) (env : Env) (event : Incoming) (m : Manager)
    → Sound m
    → Sound (session_step p env event m)
unfolding session_step
session_step-Sound p env event m h = elim (Option-cases m.session) [
  | inl e ↦ rw (session_step, e) h
  | inr (s, e) ↦
      rw (session_step, e)
        (act-Sound env (λ t. (ok tt, S.step p (event_of event, seen env m) t)) s m
          (step-Agreed p (event_of event, seen env m)) (current-Agreed m s e h) h)
]

dial_opened-Sound :
    (p : Platform) (env : Env) (agreement : String) (n : ℕ) (m : Manager)
    → Sound m
    → Sound (dial_opened p env agreement n m).1
unfolding dial_opened
dial_opened-Sound p env agreement n m h = elim (Option-cases (take_out n m.dialling)) [
  | inl e ↦ rw (dial_opened, e) h
  | inr ((dial, rest), e) ↦
      rw (dial_opened, e)
        (begin-Sound p env agreement dial.endpoint.host true dial.expected_device_id
          (some dial.intent) (record m { dialling = rest })
          (record { current = h.current; former = h.former }))
]

accept_incoming-Sound :
    (p : Platform) (env : Env) (agreement address : String) (m : Manager)
    → Sound m
    → Sound (accept_incoming p env agreement address m).1
unfolding accept_incoming
accept_incoming-Sound p env agreement address m h =
    ground (arith, begin-Sound p env agreement address false none none m h)

step-Sound : (p : Platform) (e : ManagerEvent × Env) (m : Manager) → Sound m → Sound (step p e m)
unfolding step connect dial_failed respond_to_prompt request_reversal request_remote_diagnostics
    send_media_signal dispose S.step
step-Sound p (connects dial, env) m h = ground arith
step-Sound p (dial_opens n agreement, env) m h = dial_opened-Sound p env agreement n m h
step-Sound p (dial_fails n, env) m h = ground arith
step-Sound p (accepts agreement address, env) m h =
    accept_incoming-Sound p env agreement address m h
step-Sound p (responds id accepted code, env) m h =
    with_session-Sound p _ env (λ e. S.respond_to_prompt p e id accepted code) m
      (λ e. step-Agreed p (S.responds id accepted code, e)) h
step-Sound p (requests_reversal, env) m h =
    with_session-Sound p _ env (λ e. S.request_reversal p e) m
      (λ e. step-Agreed p (S.requests_reversal, e)) h
step-Sound p (requests_diagnostics limit, env) m h =
    with_session-Sound p _ env (λ e t. (ok tt, S.request_diagnostics p e limit t)) m
      (λ e. step-Agreed p (S.requests_diagnostics limit, e)) h
step-Sound p (sends_signal signal, env) m h =
    with_session-Sound p _ env (λ e. S.send_media_signal p e signal) m
      (λ e. step-Agreed p (S.sends_signal signal, e)) h
step-Sound p (disconnects, env) m h = disconnect-Sound p env m h
step-Sound p (disposes, env) m h = retire-Sound env m h
step-Sound p (to_session event, env) m h = session_step-Sound p env event m h
step-Sound p (to_former n event, env) m h = former_step-Sound p env n event m h
step-Sound p (store_changes store, env) m h = record { current = h.current; former = h.former }
step-Sound p (publishes r source, env) m h = record { current = h.current; former = h.former }

pub run-Sound :
    (p : Platform) (es : List (ManagerEvent × Env)) (m : Manager) → Sound m → Sound (run p es m)
unfolding run
run-Sound p [] m h = h
run-Sound p (e ∷ es) m h = run-Sound p es (step p e m) (step-Sound p e m h)

new_manager-Sound :
    (identity : DeviceIdentity) (store : Store) (hub : DiagnosticsHub)
    → Sound (new_manager identity store hub)
unfolding new_manager
new_manager-Sound identity store hub = record { current = tt; former = tt }

-- Whatever calls a new manager gets and whatever comes to its sessions, the transports of all the
-- sessions before the current one are closed: at most one connection is open.
pub run-former :
    (p : Platform) (es : List (ManagerEvent × Env)) (identity : DeviceIdentity) (store : Store)
    (hub : DiagnosticsHub)
    → All (λ s. s.transport.closed ≡ true) (run p es (new_manager identity store hub)).former
run-former p es identity store hub =
    (run-Sound p es (new_manager identity store hub) (new_manager-Sound identity store hub)).former
