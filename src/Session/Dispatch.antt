-- ===== src/Session/Dispatch.antt =====
-- `handleWireMessage` and `handleSecureMessage`: each message of the peer finds its handler, and an
-- error of a handler closes the session.
use istream.Prelude.{
  none, some, true, false, not, ok, thrown, Attempt, lift, refuse_if, modify, ◌>>=◌, ◌>>◌,
}
use istream.Values.{Json}
use istream.Platform.{Platform}
use istream.Protocol as P
use istream.Protocol.Validator.{client_hello, server_hello, secure_envelope}
use istream.Cipher.{decrypt}
use istream.Session.State.{
  Session, Env, awaiting_client_hello, awaiting_server_hello, is_awaiting_ready,
  is_awaiting_acknowledgement,
}
use istream.Session.Closing.{send_secure, close_with_error}
use istream.Session.Reversal.{
  handle_ping, handle_pong, handle_reversal_request, handle_reversal_decision,
  handle_diagnostics_request, handle_diagnostics_batch, handle_media_signal,
}
use istream.Session.Consent.{handle_client_hello, handle_server_hello, enter_consent_phase}
use istream.Session.Establish.{handle_consent_decision}

module _ (p : Platform) (env : Env) where
  unfoldable pub handle_ready : Attempt Session (Unit {0})
  handle_ready = do
    λ s. refuse_if (not (is_awaiting_ready s.phase)) "Unexpected secure ready message." s
    send_secure p P.ready_acknowledged
    enter_consent_phase p env

  unfoldable pub handle_ready_acknowledged : Attempt Session (Unit {0})
  handle_ready_acknowledged = do
    λ s.
        refuse_if (not (is_awaiting_acknowledgement s.phase)) "Unexpected secure acknowledgement." s
    enter_consent_phase p env

  unfoldable pub handle_secure_message : P.SecureMessage → Attempt Session (Unit {0})
  unfolding handle_ready handle_ready_acknowledged
  handle_secure_message P.ready = handle_ready
  handle_secure_message P.ready_acknowledged = handle_ready_acknowledged
  handle_secure_message (P.consent_decision accepted) = handle_consent_decision p env accepted
  handle_secure_message (P.ping ping_id sent_at) = handle_ping p env ping_id
  handle_secure_message (P.pong ping_id) = modify (handle_pong p env ping_id)
  handle_secure_message (P.reversal_request request_id) = handle_reversal_request p env request_id
  handle_secure_message (P.reversal_decision request_id accepted) =
      handle_reversal_decision p env request_id accepted
  handle_secure_message (P.disconnect reason) = modify (close_with_error p env reason true)
  handle_secure_message (P.protocol_error reason) = modify (close_with_error p env reason false)
  handle_secure_message (P.diagnostics_request request_id limit) =
      handle_diagnostics_request p env request_id limit
  handle_secure_message (P.diagnostics_batch request_id records complete) =
      handle_diagnostics_batch p env request_id records complete
  handle_secure_message (P.media_signal signal) = handle_media_signal p env signal

  unfoldable pub decrypt_envelope : P.SecureEnvelope → Attempt Session P.SecureMessage
  decrypt_envelope e s = elim s.cipher [
    | none ↦ (thrown "Secure channel is not initialized.", s)
    | some c ↦
        let r = decrypt p e c in
        (r.0, record s { cipher = some r.1; last_secure_message_at = env.now })
  ]

  unfoldable pub read_secure : Json → Attempt Session (Unit {0})
  unfolding decrypt_envelope handle_secure_message
  read_secure value = do
    e ← lift (secure_envelope value)
    m ← decrypt_envelope e
    handle_secure_message m

  unfoldable pub receive_value : Json → Attempt Session (Unit {0})
  unfolding read_secure
  receive_value value s = elim s.phase [
    | awaiting_client_hello ↦ (lift (client_hello value) >>= handle_client_hello p env) s
    | awaiting_server_hello ↦ (lift (server_hello value) >>= handle_server_hello p env) s
    | _ ↦ read_secure value s
  ]

  -- `catch`: the error's message is the reason of the close.
  unfoldable pub closing_on_error : Attempt Session (Unit {0}) → Session → Session
  closing_on_error m s =
      let r = m s in elim r.0 [ ok _ ↦ r.1 | thrown e ↦ close_with_error p env e false r.1 ]

  unfoldable pub handle_wire_message : Json → Session → Session
  unfolding receive_value closing_on_error
  handle_wire_message value = closing_on_error (receive_value value)
