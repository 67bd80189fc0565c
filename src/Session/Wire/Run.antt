-- ===== src/Session/Wire/Run.antt =====
-- Every message and every event on the session's transport.
use istream.Prelude.{
  String, Bool, true, false, Attempt, lift, Result-cases, ◌>>=◌, List, [], ◌∷◌, arith, inl, inr,
  >>=-keeps-each, refuse_if, not,
}
use istream.Platform.{Platform}
use istream.Protocol as P
use istream.Protocol.{maximum_frame_bytes}
use istream.Protocol.Validator.{client_hello, server_hello, secure_envelope}
use istream.Values.{Json}
use istream.Transport.{Transport}
use istream.Session.State.{Session, Env, is_awaiting_ready, is_awaiting_acknowledgement}
use istream.Session.Closing.{
  send_secure, disconnect_with, dispose, handle_transport_closed, record_local_diagnostics,
  clear_timers, close_with_error,
}
use istream.Session.Consent.{handle_client_hello, handle_server_hello}
use istream.Session.Dispatch.{
  handle_secure_message, receive_value, handle_wire_message, closing_on_error, read_secure,
  decrypt_envelope, handle_ready, handle_ready_acknowledged,
}
use istream.Session.Events.{Event, step, run}
use istream.Session.Wire.{IsKept, Keeps, send_secure-Keeps, close_with_error-Keeps}
use istream.Session.Wire.Running.{
  handle_ping-Keeps, handle_pong-Keeps, handle_reversal_request-Keeps,
  handle_reversal_decision-Keeps, request_reversal-Keeps, handle_diagnostics_batch-Keeps,
  request_diagnostics-Keeps, expire_diagnostics-Keeps, handle_media_signal-Keeps,
  send_media_signal-Keeps, keep_alive_tick-Keeps, settle-Keeps, settle_failed-Keeps,
  handle_consent_decision-Keeps, handle_diagnostics_request-Keeps,
}
use istream.Session.Wire.Opening.{
  start-Keeps, handle_client_hello-Keeps, handle_server_hello-Keeps, respond_to_prompt-Keeps,
  enter_consent_phase-Keeps,
}

module _ (p : Platform) (Q : Transport → Type 0) (kept : IsKept p Q) where
  module _ (env : Env) where
    closing :
        (r : String) (b : Bool) (s : Session) → Keeps Q s → Keeps Q (close_with_error p env r b s)
    closing = close_with_error-Keeps p Q kept env

    handle_ready-Keeps : (s : Session) → Keeps Q s → Keeps Q (handle_ready p env s).1
    unfolding handle_ready
    handle_ready-Keeps =
        >>=-keeps-each (Keeps Q)
          (λ s. refuse_if (not (is_awaiting_ready s.phase)) "Unexpected secure ready message." s) _
          (λ s v. ground arith)
          λ _.
            >>=-keeps-each (Keeps Q) (send_secure p P.ready_acknowledged) _
              (send_secure-Keeps p Q kept P.ready_acknowledged)
              (λ _. enter_consent_phase-Keeps p Q kept env)

    handle_ready_acknowledged-Keeps :
        (s : Session) → Keeps Q s → Keeps Q (handle_ready_acknowledged p env s).1
    unfolding handle_ready_acknowledged
    handle_ready_acknowledged-Keeps =
        >>=-keeps-each (Keeps Q)
          (λ s.
            refuse_if (not (is_awaiting_acknowledgement s.phase))
              "Unexpected secure acknowledgement." s)
          _ (λ s v. ground arith) (λ _. enter_consent_phase-Keeps p Q kept env)

    handle_secure_message-Keeps :
        (m : P.SecureMessage) (s : Session)
        → Keeps Q s
        → Keeps Q (handle_secure_message p env m s).1
    unfolding handle_secure_message
    handle_secure_message-Keeps P.ready s v = handle_ready-Keeps s v
    handle_secure_message-Keeps P.ready_acknowledged s v = handle_ready_acknowledged-Keeps s v
    handle_secure_message-Keeps (P.consent_decision b) s v =
        handle_consent_decision-Keeps p Q kept env b s v
    handle_secure_message-Keeps (P.ping i t) s v = handle_ping-Keeps p Q kept env i s v
    handle_secure_message-Keeps (P.pong i) s v = handle_pong-Keeps p Q kept env i s v
    handle_secure_message-Keeps (P.reversal_request i) s v =
        handle_reversal_request-Keeps p Q kept env i s v
    handle_secure_message-Keeps (P.reversal_decision i b) s v =
        handle_reversal_decision-Keeps p Q kept env i b s v
    handle_secure_message-Keeps (P.disconnect r) s v = closing r true s v
    handle_secure_message-Keeps (P.protocol_error r) s v = closing r false s v
    handle_secure_message-Keeps (P.diagnostics_request i n) s v =
        handle_diagnostics_request-Keeps p Q kept env i n s v
    handle_secure_message-Keeps (P.diagnostics_batch i rs b) s v =
        handle_diagnostics_batch-Keeps p Q kept env i rs b s v
    handle_secure_message-Keeps (P.media_signal m) s v =
        handle_media_signal-Keeps p Q kept env m s v

    decrypt_envelope-Keeps :
        (e : P.SecureEnvelope) (s : Session) → Keeps Q s → Keeps Q (decrypt_envelope p env e s).1
    unfolding decrypt_envelope
    decrypt_envelope-Keeps e s v = ground arith

    read_secure-Keeps : (j : Json) (s : Session) → Keeps Q s → Keeps Q (read_secure p env j s).1
    unfolding read_secure
    read_secure-Keeps j =
        >>=-keeps-each (Keeps Q) (lift (secure_envelope j)) _ (λ s v. v)
          λ e.
            >>=-keeps-each (Keeps Q) (decrypt_envelope p env e) _ (decrypt_envelope-Keeps e)
              handle_secure_message-Keeps

    receive_client-Keeps :
        (j : Json) (s : Session)
        → Keeps Q s
        → Keeps Q ((lift (client_hello j) >>= handle_client_hello p env) s).1
    receive_client-Keeps j =
        >>=-keeps-each (Keeps Q) (lift (client_hello j)) (handle_client_hello p env) (λ s v. v)
          (handle_client_hello-Keeps p Q kept env)

    receive_server-Keeps :
        (j : Json) (s : Session)
        → Keeps Q s
        → Keeps Q ((lift (server_hello j) >>= handle_server_hello p env) s).1
    receive_server-Keeps j =
        >>=-keeps-each (Keeps Q) (lift (server_hello j)) (handle_server_hello p env) (λ s v. v)
          (handle_server_hello-Keeps p Q kept env)

    receive_value-Keeps : (j : Json) (s : Session) → Keeps Q s → Keeps Q (receive_value p env j s).1
    unfolding receive_value
    receive_value-Keeps j s v =
        ground
          (arith, read_secure-Keeps j s v, receive_client-Keeps j s v, receive_server-Keeps j s v)

    closing_on_error-Keeps :
        (m : Attempt Session (Unit {0})) (s : Session)
        → Keeps Q (m s).1
        → Keeps Q (closing_on_error p env m s)
    unfolding closing_on_error
    closing_on_error-Keeps m s v = elim (Result-cases (m s).0) [
      | inl (a, e) ↦ rw (e, closing_on_error) v
      | inr (x, e) ↦ rw (e, closing_on_error) (closing x false (m s).1 v)
    ]

    handle_wire_message-Keeps :
        (j : Json) (s : Session) → Keeps Q s → Keeps Q (handle_wire_message p env j s)
    unfolding handle_wire_message
    handle_wire_message-Keeps j s v =
        closing_on_error-Keeps (receive_value p env j) s (receive_value-Keeps j s v)

    disconnect_with-Keeps :
        (r : String) (s : Session) → Keeps Q s → Keeps Q (disconnect_with p env r s)
    unfolding disconnect_with
    disconnect_with-Keeps r s v = ground (
      arith,
      closing r true s v,
      closing r true (send_secure p (P.disconnect r) s).1
          (send_secure-Keeps p Q kept (P.disconnect r) s v),
    )

    handle_transport_closed-Keeps :
        (r : String) (s : Session) → Keeps Q s → Keeps Q (handle_transport_closed p env r s)
    unfolding handle_transport_closed
    handle_transport_closed-Keeps r s v = ground (arith, closing r false s v)

    record_local-Keeps : (s : Session) → Keeps Q s → Keeps Q (record_local_diagnostics p env s)
    unfolding record_local_diagnostics
    record_local-Keeps s v = ground arith

  pub step-Keeps : (e : Event × Env) (s : Session) → Keeps Q s → Keeps Q (step p e s)
  unfolding step dispose clear_timers
  step-Keeps (Event.starts i, env) s v = start-Keeps p Q kept env i s v
  step-Keeps (Event.receives j, env) s v = handle_wire_message-Keeps env j s v
  step-Keeps (Event.responds i b c, env) s v = respond_to_prompt-Keeps p Q kept env i b c s v
  step-Keeps (Event.requests_reversal, env) s v = request_reversal-Keeps p Q kept env s v
  step-Keeps (Event.requests_diagnostics n, env) s v = request_diagnostics-Keeps p Q kept env n s v
  step-Keeps (Event.sends_signal m, env) s v = send_media_signal-Keeps p Q kept env m s v
  step-Keeps (Event.disconnects r, env) s v = disconnect_with-Keeps env r s v
  step-Keeps (Event.disposes, env) s v = kept.keeps_close s.transport v
  step-Keeps (Event.handshake_expires, env) s v =
      ground (arith, closing env "Secure pairing handshake timed out." false s v)
  step-Keeps (Event.keep_alive_fires, env) s v =
      ground (arith, keep_alive_tick-Keeps p Q kept env s v)
  step-Keeps (Event.recording_fires, env) s v = ground (arith, record_local-Keeps env s v)
  step-Keeps (Event.diagnostics_expire i, env) s v = expire_diagnostics-Keeps p Q kept env i s v
  step-Keeps (Event.transport_closes r, env) s v = handle_transport_closed-Keeps env r s v
  step-Keeps (Event.settles, env) s v = settle-Keeps p Q kept env s v
  step-Keeps (Event.settle_fails, env) s v = settle_failed-Keeps p Q kept env s v
  step-Keeps (Event.store_changes x, env) s v = v

  pub run-Keeps : (es : List (Event × Env)) (s : Session) → Keeps Q s → Keeps Q (run p es s)
  unfolding run
  run-Keeps [] s v = v
  run-Keeps (e ∷ es) s v = run-Keeps es (step p e s) (step-Keeps e s v)
