-- ===== src/Session/Agreed/Run.antt =====
-- The agreement of both sides under every message and every event.
use istream.Prelude.{
  ℕ, continue-keeps, >>=-keeps-each, String, Bool, true, false, Option, ◌≡◌, refl, Attempt, lift,
  Result-cases, ◌>>=◌, List, [], ◌∷◌, arith, Bool-cases, inl, inr,
}
use istream.Platform.{Platform}
use istream.Protocol as P
use istream.Values.{Json}
use istream.Session.State.{
  Session, Env, is_connected, is_awaiting_ready, is_awaiting_acknowledgement,
}
use istream.Session.Closing.{
  send_secure, disconnect_with, dispose, handle_transport_closed, record_local_diagnostics,
}
use istream.Session.Consent.{handle_client_hello, handle_server_hello}
use istream.Session.Dispatch.{
  handle_secure_message, receive_value, handle_wire_message, closing_on_error, read_secure,
  decrypt_envelope, handle_ready, handle_ready_acknowledged,
}
use istream.Protocol.Validator.{client_hello, server_hello, secure_envelope}
use istream.Session.Events.{Event, step, run}
use istream.Session.State.{new_session}
use istream.Handshake.{DeviceIdentity}
use istream.Trust.{Store}
use istream.Session.Core.{send_secure-Same}
use istream.Session.Agreed.{Agreed, Early, is_early, both_agreed, Same-Agreed}
use istream.Session.Agreed.Running.{
  close_with_error-Agreed, handle_ping-Agreed, handle_pong-Agreed, handle_reversal_request-Agreed,
  handle_reversal_decision-Agreed, request_reversal-Agreed, handle_diagnostics_batch-Agreed,
  request_diagnostics-Agreed, expire_diagnostics-Agreed, handle_media_signal-Agreed,
  send_media_signal-Agreed, keep_alive_tick-Agreed, settle-Agreed, settle_failed-Agreed,
  handle_consent_decision-Agreed, handle_diagnostics_request-Agreed,
}
use istream.Session.Agreed.Consent.{respond_to_prompt-Agreed, enter_consent_phase-Agreed}
use istream.Session.Agreed.Hello.{
  start-Agreed, handle_client_hello-Early, handle_server_hello-Early,
}

module _ (p : Platform) (env : Env) where
  pub handle_ready-Agreed : (s : Session) → Agreed s → Agreed (handle_ready p env s).1
  unfolding handle_ready
  handle_ready-Agreed s v = elim (Bool-cases (is_awaiting_ready s.phase)) [
    | inl at ↦
        let t = (send_secure p P.ready_acknowledged s).1 in
        let same = send_secure-Same p P.ready_acknowledged s in
        let sent : Agreed t = Same-Agreed same v in
        rw at (
          continue-keeps Agreed (send_secure p P.ready_acknowledged s).0 _ t sent
            (λ _. enter_consent_phase-Agreed p env t sent (ground arith)))
    | inr elsewhere ↦ rw elsewhere v
  ]

  pub handle_ready_acknowledged-Agreed :
      (s : Session) → Agreed s → Agreed (handle_ready_acknowledged p env s).1
  unfolding handle_ready_acknowledged
  handle_ready_acknowledged-Agreed s v = elim (Bool-cases (is_awaiting_acknowledgement s.phase)) [
    | inl at ↦ rw at (enter_consent_phase-Agreed p env s v (ground arith))
    | inr elsewhere ↦ rw elsewhere v
  ]

  pub handle_secure_message-Agreed :
      (m : P.SecureMessage) (s : Session) → Agreed s → Agreed (handle_secure_message p env m s).1
  unfolding handle_secure_message
  handle_secure_message-Agreed P.ready s v = handle_ready-Agreed s v
  handle_secure_message-Agreed P.ready_acknowledged s v = handle_ready_acknowledged-Agreed s v
  handle_secure_message-Agreed (P.consent_decision b) s v =
      handle_consent_decision-Agreed p env b s v
  handle_secure_message-Agreed (P.ping i t) s v = handle_ping-Agreed p env i s v
  handle_secure_message-Agreed (P.pong i) s v = handle_pong-Agreed p env i s v
  handle_secure_message-Agreed (P.reversal_request i) s v =
      handle_reversal_request-Agreed p env i s v
  handle_secure_message-Agreed (P.reversal_decision i b) s v =
      handle_reversal_decision-Agreed p env i b s v
  handle_secure_message-Agreed (P.disconnect r) s v = close_with_error-Agreed p env r true s v
  handle_secure_message-Agreed (P.protocol_error r) s v = close_with_error-Agreed p env r false s v
  handle_secure_message-Agreed (P.diagnostics_request i n) s v =
      handle_diagnostics_request-Agreed p env i n s v
  handle_secure_message-Agreed (P.diagnostics_batch i rs b) s v =
      handle_diagnostics_batch-Agreed p env i rs b s v
  handle_secure_message-Agreed (P.media_signal m) s v = handle_media_signal-Agreed p env m s v

  pub decrypt_envelope-Agreed :
      (e : P.SecureEnvelope) (s : Session) → Agreed s → Agreed (decrypt_envelope p env e s).1
  unfolding decrypt_envelope
  decrypt_envelope-Agreed e s v = ground arith

  pub read_secure-Agreed : (j : Json) (s : Session) → Agreed s → Agreed (read_secure p env j s).1
  unfolding read_secure
  read_secure-Agreed j =
      >>=-keeps-each Agreed (lift (secure_envelope j)) _ (λ s v. v)
        λ e.
          >>=-keeps-each Agreed (decrypt_envelope p env e) _ (decrypt_envelope-Agreed e)
            handle_secure_message-Agreed

  pub receive_client-Agreed :
      (j : Json) (s : Session)
      → Agreed s
      → is_early s.phase ≡ true
      → Agreed ((lift (client_hello j) >>= handle_client_hello p env) s).1
  receive_client-Agreed j s v e =
      (>>=-keeps-each Early (lift (client_hello j)) (handle_client_hello p env) (λ s v. v)
        (handle_client_hello-Early p env) s (record { agreed = v; early = e })).agreed

  pub receive_server-Agreed :
      (j : Json) (s : Session)
      → Agreed s
      → is_early s.phase ≡ true
      → Agreed ((lift (server_hello j) >>= handle_server_hello p env) s).1
  receive_server-Agreed j s v e =
      (>>=-keeps-each Early (lift (server_hello j)) (handle_server_hello p env) (λ s v. v)
        (handle_server_hello-Early p env) s (record { agreed = v; early = e })).agreed

  pub receive_value-Agreed :
      (j : Json) (s : Session) → Agreed s → Agreed (receive_value p env j s).1
  unfolding receive_value
  receive_value-Agreed j s v =
      ground
        (arith, read_secure-Agreed j s v, receive_client-Agreed j s v, receive_server-Agreed j s v)

  pub closing_on_error-Agreed :
      (m : Attempt Session (Unit {0})) (s : Session)
      → Agreed (m s).1
      → Agreed (closing_on_error p env m s)
  unfolding closing_on_error
  closing_on_error-Agreed m s v = elim (Result-cases (m s).0) [
    | inl (a, e) ↦ rw (e, closing_on_error) v
    | inr (x, e) ↦ rw (e, closing_on_error) (close_with_error-Agreed p env x false (m s).1 v)
  ]

  pub handle_wire_message-Agreed :
      (j : Json) (s : Session) → Agreed s → Agreed (handle_wire_message p env j s)
  unfolding handle_wire_message
  handle_wire_message-Agreed j s v =
      closing_on_error-Agreed (receive_value p env j) s (receive_value-Agreed j s v)

  pub disconnect_with-Agreed :
      (r : String) (s : Session) → Agreed s → Agreed (disconnect_with p env r s)
  unfolding disconnect_with
  disconnect_with-Agreed r s v = ground (
    arith,
    close_with_error-Agreed p env r true s v,
    close_with_error-Agreed p env r true (send_secure p (P.disconnect r) s).1
        (Same-Agreed (send_secure-Same p (P.disconnect r) s) v),
  )

  pub handle_transport_closed-Agreed :
      (r : String) (s : Session) → Agreed s → Agreed (handle_transport_closed p env r s)
  unfolding handle_transport_closed
  handle_transport_closed-Agreed r s v = ground (arith, close_with_error-Agreed p env r false s v)

  pub record_local-Agreed : (s : Session) → Agreed s → Agreed (record_local_diagnostics p env s)
  unfolding record_local_diagnostics
  record_local-Agreed s v = ground arith

pub dispose-Agreed : (s : Session) → Agreed s → Agreed (dispose s)
unfolding dispose
dispose-Agreed s v = ground arith

pub step-Agreed : (p : Platform) (e : Event × Env) (s : Session) → Agreed s → Agreed (step p e s)
unfolding step
step-Agreed p (Event.starts i, env) s v = start-Agreed p env i s v
step-Agreed p (Event.receives j, env) s v = handle_wire_message-Agreed p env j s v
step-Agreed p (Event.responds i b c, env) s v = respond_to_prompt-Agreed p env i b c s v
step-Agreed p (Event.requests_reversal, env) s v = request_reversal-Agreed p env s v
step-Agreed p (Event.requests_diagnostics n, env) s v = request_diagnostics-Agreed p env n s v
step-Agreed p (Event.sends_signal m, env) s v = send_media_signal-Agreed p env m s v
step-Agreed p (Event.disconnects r, env) s v = disconnect_with-Agreed p env r s v
step-Agreed p (Event.disposes, env) s v = dispose-Agreed s v
step-Agreed p (Event.handshake_expires, env) s v =
    ground (arith, close_with_error-Agreed p env "Secure pairing handshake timed out." false s v)
step-Agreed p (Event.keep_alive_fires, env) s v = ground (arith, keep_alive_tick-Agreed p env s v)
step-Agreed p (Event.recording_fires, env) s v = ground (arith, record_local-Agreed p env s v)
step-Agreed p (Event.diagnostics_expire i, env) s v = expire_diagnostics-Agreed p env i s v
step-Agreed p (Event.transport_closes r, env) s v = handle_transport_closed-Agreed p env r s v
step-Agreed p (Event.settles, env) s v = settle-Agreed p env s v
step-Agreed p (Event.settle_fails, env) s v = settle_failed-Agreed p env s v
step-Agreed p (Event.store_changes x, env) s v = ground arith

pub run-Agreed :
    (p : Platform) (es : List (Event × Env)) (s : Session) → Agreed s → Agreed (run p es s)
unfolding run
run-Agreed p [] s v = v
run-Agreed p (e ∷ es) s v = run-Agreed p es (step p e s) (step-Agreed p e s v)

pub new_session-Agreed :
    (i : DeviceIdentity) (key address : String) (out : Bool) (x : Option String) (store : Store)
    (now : ℕ)
    → Agreed (new_session i key address out x store now)
unfolding new_session
new_session-Agreed i key address false x store now = record {
  closing = refl;
  agreed = refl;
  waiting = refl;
  early = refl;
  answered = refl;
}
new_session-Agreed i key address true x store now = record {
  closing = refl;
  agreed = refl;
  waiting = refl;
  early = refl;
  answered = refl;
}

-- Whatever events a new session meets, in whatever order and with whatever messages of the peer: if it
-- is connected and its transport is open, it has the consent of both sides, and shows no prompt but
-- one for a reversal.
pub run-IsConnected :
    (p : Platform) (es : List (Event × Env)) (i : DeviceIdentity) (key address : String)
    (out : Bool) (x : Option String) (store : Store) (now : ℕ)
    → is_connected (run p es (new_session i key address out x store now)).phase ≡ true
    → (run p es (new_session i key address out x store now)).transport.closed ≡ false
    → both_agreed (run p es (new_session i key address out x store now)) ≡ true
run-IsConnected p es i key address out x store now c o =
    let v = run-Agreed p es _ (new_session-Agreed i key address out x store now) in
    ground (arith, v.agreed)
