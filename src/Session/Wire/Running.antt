-- ===== src/Session/Wire/Running.antt =====
-- The operations of the running session on its transport.
use istream.Prelude.{
  ℕ, zero, suc, ltb, ◌-◌, take_last, continue-keeps, take, drop, length, leb, String, Bool, false,
  List, [], ◌∷◌, arith, Bool-cases, inl, inr,
}
use istream.Contracts.Connectivity.{ConnectionIntent}
use istream.Contracts.Media.{MediaSignal}
use istream.Contracts.Diagnostics.{DiagnosticRecord}
use istream.Platform.{Platform}
use istream.Protocol as P
use istream.Transport.{Transport}
use istream.Session.State.{Session, Env, Caller}
use istream.Session.Closing.{send_secure, record_local_diagnostics}
use istream.Session.Reversal.{
  handle_ping, handle_pong, handle_reversal_request, respond_to_reversal, handle_reversal_decision,
  request_reversal, send_batches, handle_diagnostics_request, handle_diagnostics_batch,
  request_diagnostics, expire_diagnostics, handle_media_signal, send_media_signal, keep_alive_tick,
  batches_of, timeout_ms, toggle_role,
}
use istream.Session.Consent.{start_keep_alive, start_diagnostics_recording}
use istream.Session.Establish.{
  try_establish_connection, establish, settle, settle_failed, handle_consent_decision,
  begin_establishing,
}
use istream.Session.Wire.{IsKept, Keeps, send_secure-Keeps, close_with_error-Keeps}

module _ (p : Platform) (Q : Transport → Type 0) (kept : IsKept p Q) (env : Env) where
  sending : (m : P.SecureMessage) (s : Session) → Keeps Q s → Keeps Q (send_secure p m s).1
  sending = send_secure-Keeps p Q kept

  pub handle_ping-Keeps :
      (i : String) (s : Session) → Keeps Q s → Keeps Q ((handle_ping p env i s).1)
  unfolding handle_ping
  handle_ping-Keeps i s v = ground (arith, sending (P.pong i) s v)

  pub handle_pong-Keeps : (i : String) (s : Session) → Keeps Q s → Keeps Q (handle_pong p env i s)
  unfolding handle_pong
  handle_pong-Keeps i s v = ground arith

  pub handle_reversal_request-Keeps :
      (i : String) (s : Session) → Keeps Q s → Keeps Q ((handle_reversal_request p env i s).1)
  unfolding handle_reversal_request
  handle_reversal_request-Keeps i s v = ground (arith, sending (P.reversal_decision i false) s v)

  pub handle_reversal_decision-Keeps :
      (i : String) (b : Bool) (s : Session)
      → Keeps Q s
      → Keeps Q ((handle_reversal_decision p env i b s).1)
  unfolding handle_reversal_decision toggle_role
  handle_reversal_decision-Keeps i b s v = ground arith

  pub respond_to_reversal-Keeps :
      (b : Bool) (s : Session) → Keeps Q s → Keeps Q ((respond_to_reversal p env b s).1)
  unfolding respond_to_reversal toggle_role
  respond_to_reversal-Keeps b s v = grind (arith, sending)

  pub request_reversal-Keeps : (s : Session) → Keeps Q s → Keeps Q ((request_reversal p env s).1)
  unfolding request_reversal
  request_reversal-Keeps s v = grind (arith, sending)

  pub handle_diagnostics_batch-Keeps :
      (i : String) (rs : List DiagnosticRecord) (b : Bool) (s : Session)
      → Keeps Q s
      → Keeps Q ((handle_diagnostics_batch p env i rs b s).1)
  unfolding handle_diagnostics_batch
  handle_diagnostics_batch-Keeps i rs b s v = ground arith

  pub request_diagnostics-Keeps :
      (n : ℕ) (s : Session) → Keeps Q s → Keeps Q (request_diagnostics p env n s)
  unfolding request_diagnostics
  request_diagnostics-Keeps n s v = grind (arith, sending)

  pub expire_diagnostics-Keeps :
      (i : String) (s : Session) → Keeps Q s → Keeps Q (expire_diagnostics p env i s)
  unfolding expire_diagnostics
  expire_diagnostics-Keeps i s v = ground arith

  pub handle_media_signal-Keeps :
      (m : MediaSignal) (s : Session) → Keeps Q s → Keeps Q ((handle_media_signal p env m s).1)
  unfolding handle_media_signal
  handle_media_signal-Keeps m s v = ground arith

  pub send_media_signal-Keeps :
      (m : MediaSignal) (s : Session) → Keeps Q s → Keeps Q ((send_media_signal p env m s).1)
  unfolding send_media_signal
  send_media_signal-Keeps m s v = ground (arith, sending (P.media_signal m) s v)

  pub keep_alive_tick-Keeps : (s : Session) → Keeps Q s → Keeps Q ((keep_alive_tick p env s).1)
  unfolding keep_alive_tick
  keep_alive_tick-Keeps s v =
      elim (Bool-cases (ltb (timeout_ms p env s) (env.now - s.last_secure_message_at))) [
        | inl late ↦ rw late (close_with_error-Keeps p Q kept env _ false s v)
        | inr fresh ↦ rw fresh (sending _ _ v)
      ]

  pub establish-Keeps :
      (i : ConnectionIntent) (s : Session) → Keeps Q s → Keeps Q (establish p env i s)
  unfolding establish start_keep_alive start_diagnostics_recording record_local_diagnostics
  establish-Keeps i s v = ground arith

  pub settle-Keeps : (s : Session) → Keeps Q s → Keeps Q (settle p env s)
  unfolding settle establish start_keep_alive start_diagnostics_recording record_local_diagnostics
  settle-Keeps s v = ground arith

  pub settle_failed-Keeps : (s : Session) → Keeps Q s → Keeps Q (settle_failed p env s)
  unfolding settle_failed
  settle_failed-Keeps s v = ground arith

  pub try_establish-Keeps :
      (c : Caller) (s : Session) → Keeps Q s → Keeps Q (try_establish_connection p env c s)
  unfolding try_establish_connection begin_establishing establish start_keep_alive
      start_diagnostics_recording record_local_diagnostics
  try_establish-Keeps c s v = ground (arith)

  pub handle_consent_decision-Keeps :
      (b : Bool) (s : Session) → Keeps Q s → Keeps Q ((handle_consent_decision p env b s).1)
  unfolding handle_consent_decision
  handle_consent_decision-Keeps b s v =
      grind (arith, try_establish-Keeps, close_with_error-Keeps p Q kept env)

  pub send_batches-Keeps :
      (f : ℕ) (i : String) (rs : List DiagnosticRecord) (s : Session)
      → Keeps Q s
      → Keeps Q (send_batches p env f i rs s).1
  unfolding send_batches
  send_batches-Keeps zero i rs s v = v
  send_batches-Keeps (suc f) i [] s v = v
  send_batches-Keeps (suc f) i (r ∷ rs) s v =
      let m = P.diagnostics_batch i (take 10 (r ∷ rs)) (leb (length (r ∷ rs)) 10) in
      let sent : Keeps Q (send_secure p m s).1 = sending m s v in
      continue-keeps (Keeps Q) (send_secure p m s).0 _ (send_secure p m s).1 sent
        (λ _. send_batches-Keeps f i (drop 10 (r ∷ rs)) (send_secure p m s).1 sent)

  pub batches_of-Keeps :
      (i : String) (rs : List DiagnosticRecord) (s : Session)
      → Keeps Q s
      → Keeps Q (batches_of p env i rs s).1
  unfolding batches_of
  batches_of-Keeps i [] s v = sending _ s v
  batches_of-Keeps i (r ∷ rs) s v = send_batches-Keeps _ i _ s v

  pub handle_diagnostics_request-Keeps :
      (i : String) (n : ℕ) (s : Session)
      → Keeps Q s
      → Keeps Q (handle_diagnostics_request p env i n s).1
  unfolding handle_diagnostics_request
  handle_diagnostics_request-Keeps i n s v =
      ground (arith, batches_of-Keeps i (take_last n (env.local_records n)) s v)
