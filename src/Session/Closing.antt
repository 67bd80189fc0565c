-- ===== src/Session/Closing.antt =====
-- Sending, the timers, the diagnostic records and the end of a session:
-- `sendSecure`, `clearTimers`, `closeWithError`, `disconnect`, `dispose` and what they call.
use istream.Prelude.{
  ℕ, ◌+◌, ◌-◌, String, Bool, true, false, not, ◌&&◌, Option, none, some, List, [], ◌∷◌, length, leb,
  if◌then◌else◌, thrown, Attempt, continue, modify, ◌>>◌, is_none,
}
use istream.Contracts.Connectivity.{
  ConnectionState, LocalMediaRole, viewer, sharer, idle, connecting, pairing, failed,
}
use istream.Contracts.Diagnostics as D
use istream.Platform.{Platform}
use istream.Protocol.{SecureMessage, disconnect}
use istream.Protocol.Encoding.{envelope_to_json}
use istream.Values.{Json}
use istream.Cipher.{Cipher, encrypt}
use istream.Handshake.{device_id}
use istream.Transport as T
use istream.Session.State.{
  Session, Env, Effect, sent, recorded, rejected, PendingDiagnosticRequest, closed, is_closed,
  connection_state, emit, notify_changed,
}

-- `value ?? null` for a number of a record.
abbrev number_or_absent : Option ℕ → D.DiagnosticValue
number_or_absent none = D.absent
number_or_absent (some n) = D.number (D.int n)

abbrev state_text : ConnectionState → String
state_text idle = "idle"
state_text connecting = "connecting"
state_text pairing = "pairing"
state_text ConnectionState.connected = "connected"
state_text failed = "failed"

abbrev role_text : LocalMediaRole → String
role_text LocalMediaRole.none = "none"
role_text viewer = "viewer"
role_text sharer = "sharer"

abbrev transmitted : Option Cipher → ℕ
transmitted none = 0
transmitted (some c) = c.transmit_counter

abbrev received : Option Cipher → ℕ
received none = 0
received (some c) = c.receive_counter

-- `Date.now() - at`, below 0 if the clock was set back.
abbrev since : ℕ → Option ℕ → D.DiagnosticValue
since now none = D.absent
since now (some t) = D.number (if leb t now then D.int (now - t) else D.negative (t - now - 1))

reject_all : List (String × PendingDiagnosticRequest) → List Effect → List Effect
reject_all [] effects = effects
reject_all ((id, r) ∷ rest) effects =
    reject_all rest
      (rejected id "The peer connection closed before diagnostics completed." ∷ effects)

unfoldable pub clear_timers : Session → Session
unfolding reject_all
clear_timers s = record s {
  handshake_timer = false;
  keep_alive_timer = false;
  diagnostic_timer = false;
  pending_diagnostic_requests = [];
  effects = reject_all s.pending_diagnostic_requests s.effects;
}

module _ (p : Platform) where
  transmit : Json → Attempt Session (Unit {0})
  transmit message s = let r = T.send p message s.transport in (r.0, record s { transport = r.1 })

  -- The `sent` effect is noted only if neither the cipher nor the transport throws.
  unfoldable pub send_secure : SecureMessage → Attempt Session (Unit {0})
  unfolding transmit
  send_secure m s = elim s.cipher [
    | none ↦ (thrown "Secure channel is not initialized.", s)
    | some c ↦
        let r = encrypt p m c in
        continue r.0 (λ e. do transmit (envelope_to_json e); modify (emit (sent m)))
          (record s { cipher = some r.1 })
  ]

  unfoldable pub send_plain : Json → Attempt Session (Unit {0})
  unfolding transmit
  send_plain = transmit

  abbrev record_with :
      Env
      → Session
      → D.DiagnosticCategory
      → D.DiagnosticSeverity
      → String
      → List (String × D.DiagnosticValue)
      → D.DiagnosticRecord
  record_with env s category severity event values = record {
    schema_version = D.schema_version_default;
    sequence = s.diagnostic_sequence + 1;
    timestamp = D.int env.now;
    origin_device_id = device_id p s.identity;
    origin_display_name = s.identity.display_name;
    category = category;
    severity = severity;
    event = event;
    values = values;
  }

  publish : D.DiagnosticRecord → Session → Session
  publish r s = record s {
    diagnostic_sequence = s.diagnostic_sequence + 1;
    effects = recorded r ∷ s.effects;
  }

  sample_values : Env → Session → List (String × D.DiagnosticValue)
  unfolding connection_state
  sample_values env s =
      ("connectionState", D.text (state_text (connection_state s)))
      ∷ ("role", D.text (role_text s.role))
      ∷ ("initiator", D.flag s.initiator)
      ∷ ("remoteAddress", D.text s.remote_address)
      ∷ ("roundTripTimeMs", number_or_absent s.round_trip_time_ms)
      ∷ ("connectedForMs", since env.now s.connected_at)
      ∷ ("lastSecureMessageAgeMs", D.number (D.int (env.now - s.last_secure_message_at)))
      ∷ ("pendingHealthChecks", D.number (D.int (length s.pending_pings)))
      ∷ ("controlFramesSent", D.number (D.int s.transport.frames_sent))
      ∷ ("controlFramesReceived", D.number (D.int s.transport.frames_received))
      ∷ ("controlBytesSent", D.number (D.int s.transport.bytes_sent))
      ∷ ("controlBytesReceived", D.number (D.int s.transport.bytes_received))
      ∷ ("encryptedMessagesSent", D.number (D.int (transmitted s.cipher)))
      ∷ ("encryptedMessagesReceived", D.number (D.int (received s.cipher)))
      ∷ []

  unfoldable pub record_local_diagnostics : Env → Session → Session
  unfolding publish sample_values
  record_local_diagnostics env s =
      publish (record_with env s D.network D.information "connection.sample" (sample_values env s))
        s

  unfoldable pub record_closure_diagnostics : Env → String → Bool → Session → Session
  unfolding publish connection_state
  record_closure_diagnostics env reason expected s =
      publish
        (record_with env s (if expected then D.lifecycle else D.DiagnosticCategory.error)
          (if expected then D.information else D.DiagnosticSeverity.error) "connection.closed"
          (("reason", D.text reason)
            ∷ ("expected", D.flag expected)
            ∷ ("previousState", D.text (state_text (connection_state s)))
            ∷ ("remoteAddress", D.text s.remote_address)
            ∷ []))
        s

  abbrev shut : String → Bool → Session → Session
  shut reason expected s = notify_changed (record s {
    prompt = none;
    role = LocalMediaRole.none;
    phase = closed;
    error = if expected then none else some reason;
    transport = T.close s.transport;
  })

  unfoldable pub close_with_error : Env → String → Bool → Session → Session
  unfolding clear_timers record_closure_diagnostics T.close
  close_with_error env reason expected s =
      if is_closed s.phase
      then s
      else shut reason expected (
          clear_timers (
            record_closure_diagnostics env reason expected (record s { intentional_close = true })))

  unfoldable pub handle_transport_closed : Env → String → Session → Session
  handle_transport_closed env reason s =
      if not s.intentional_close && not (is_closed s.phase)
      then close_with_error env reason false s
      else s

  -- Whether the message of farewell can be sent or not, the session closes as expected.
  unfoldable pub disconnect_with : Env → String → Session → Session
  disconnect_with env reason s =
      if not (is_none s.cipher) && not (is_closed s.phase)
      then close_with_error env reason true (send_secure (disconnect reason) s).1
      else close_with_error env reason true s

unfoldable pub dispose : Session → Session
unfolding clear_timers T.close
dispose s =
    let cleared = clear_timers (record s { intentional_close = true }) in
    record cleared { transport = T.close cleared.transport; phase = closed }
