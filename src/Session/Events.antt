-- ===== src/Session/Events.antt =====
-- A session as a state machine: everything that can happen to it, one event at a time. An error that
-- a public method throws goes to its caller and is not part of the state.
use istream.Prelude.{ℕ, String, Bool, false, Option, List, [], ◌∷◌, if◌then◌else◌, ◌||◌, ltb}
use istream.Contracts.Connectivity.{ConnectionIntent}
use istream.Contracts.Media.{MediaSignal}
use istream.Values.{Json}
use istream.Platform.{Platform}
use istream.Trust.{Store}
use istream.Session.State.{Session, Env}
use istream.Session.Closing.{
  close_with_error, disconnect_with, dispose, handle_transport_closed, record_local_diagnostics,
}
use istream.Session.Reversal.{
  request_reversal, request_diagnostics, expire_diagnostics, send_media_signal, keep_alive_tick,
}
use istream.Session.Consent.{start}
use istream.Session.Establish.{respond_to_prompt, settle, settle_failed}
use istream.Session.Dispatch.{handle_wire_message}

pub data Event : Type 0 where
  starts : Option ConnectionIntent → Event
  receives : Json → Event
  responds : (prompt_id : String) (accepted : Bool) (entered : Option String) → Event
  requests_reversal : Event
  requests_diagnostics : (limit : ℕ) → Event
  sends_signal : MediaSignal → Event
  disconnects : (reason : String) → Event
  disposes : Event
  handshake_expires keep_alive_fires recording_fires : Event
  diagnostics_expire : (request_id : String) → Event
  transport_closes : (reason : String) → Event
  -- The trust store's file is written, or cannot be.
  settles settle_fails : Event
  -- Somebody else changed the trust store.
  store_changes : Store → Event

-- A timer fires only while it is set.
unfoldable pub step : Platform → Event × Env → Session → Session
step p (starts intent, env) s = (start p env intent s).1
step p (receives value, env) s = handle_wire_message p env value s
step p (responds id accepted entered, env) s = (respond_to_prompt p env id accepted entered s).1
step p (requests_reversal, env) s = (request_reversal p env s).1
step p (requests_diagnostics limit, env) s = request_diagnostics p env limit s
step p (sends_signal signal, env) s = (send_media_signal p env signal s).1
step p (disconnects reason, env) s = disconnect_with p env reason s
step p (disposes, env) s = dispose s
step p (handshake_expires, env) s =
    if s.handshake_timer
    then close_with_error p env "Secure pairing handshake timed out." false s
    else s
step p (keep_alive_fires, env) s = if s.keep_alive_timer then (keep_alive_tick p env s).1 else s
step p (recording_fires, env) s =
    if s.diagnostic_timer || ltb 0 s.stray_timers then record_local_diagnostics p env s else s
step p (diagnostics_expire id, env) s = expire_diagnostics p env id s
step p (transport_closes reason, env) s = handle_transport_closed p env reason s
step p (settles, env) s = settle p env s
step p (settle_fails, env) s = settle_failed p env s
step p (store_changes store, env) s = record s { store = store }

-- The first event first.
unfoldable pub run : Platform → List (Event × Env) → Session → Session
unfolding step
run p [] s = s
run p (e ∷ es) s = run p es (step p e s)
