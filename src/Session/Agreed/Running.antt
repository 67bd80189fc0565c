-- ===== src/Session/Agreed/Running.antt =====
-- The agreement of both sides and the operations of the running session.
use istream.Prelude.{
  ℕ, zero, suc, ltb, ◌-◌, take_last, Option-cases, continue-keeps, take, drop, length, leb, String,
  Bool, true, false, ◌&&◌, ◌||◌, none, some, ◌≡◌, List, [], ◌∷◌, arith, Bool-cases, inl, inr,
}
use istream.Contracts.Connectivity.{ConnectionIntent}
use istream.Contracts.Media.{MediaSignal}
use istream.Contracts.Diagnostics.{DiagnosticRecord}
use istream.Platform.{Platform}
use istream.Protocol as P
use istream.Session.State.{Session, Env, Caller, by_message}
use istream.Session.Closing.{send_secure, close_with_error, record_local_diagnostics}
use istream.Session.Reversal.{
  handle_ping, handle_pong, handle_reversal_request, respond_to_reversal, handle_reversal_decision,
  request_reversal, send_batches, handle_diagnostics_request, handle_diagnostics_batch,
  request_diagnostics, expire_diagnostics, handle_media_signal, send_media_signal, keep_alive_tick,
  batches_of, timeout_ms,
}
use istream.Session.Consent.{given}
use istream.Session.Establish.{
  try_establish_connection, establish, settle, settle_failed, handle_consent_decision,
  begin_establishing,
}
use istream.Session.Core.{send_secure-Same}
use istream.Session.Agreed.{Agreed, is_early, Same-Agreed}

module _ (p : Platform) (env : Env) where
  pub close_with_error-Agreed :
      (reason : String) (expected : Bool) (s : Session)
      → Agreed s
      → Agreed (close_with_error p env reason expected s)
  unfolding close_with_error
  close_with_error-Agreed reason expected s v = ground arith

  pub handle_ping-Agreed : (i : String) (s : Session) → Agreed s → Agreed (handle_ping p env i s).1
  unfolding handle_ping
  handle_ping-Agreed i s v = ground (arith, send_secure-Same p (P.pong i) s)

  pub handle_pong-Agreed : (i : String) (s : Session) → Agreed s → Agreed (handle_pong p env i s)
  unfolding handle_pong
  handle_pong-Agreed i s v = ground arith

  pub handle_reversal_request-Agreed :
      (i : String) (s : Session) → Agreed s → Agreed (handle_reversal_request p env i s).1
  unfolding handle_reversal_request
  handle_reversal_request-Agreed i s v =
      ground (arith, send_secure-Same p (P.reversal_decision i false) s)

  pub handle_reversal_decision-Agreed :
      (i : String) (b : Bool) (s : Session)
      → Agreed s
      → Agreed (handle_reversal_decision p env i b s).1
  unfolding handle_reversal_decision
  handle_reversal_decision-Agreed i b s v = ground arith

  pub respond_to_reversal-Agreed :
      (b : Bool) (s : Session) → Agreed s → Agreed (respond_to_reversal p env b s).1
  unfolding respond_to_reversal
  respond_to_reversal-Agreed b s v = elim (Option-cases s.pending_incoming_reversal_id) [
    | inl e ↦ rw (e, respond_to_reversal) v
    | inr (id, e) ↦
        let t : Session = record s { pending_incoming_reversal_id = none; prompt = none } in
        let w : Agreed t = ground arith in
        let m = P.reversal_decision id b in
        let sent : Agreed (send_secure p m t).1 = Same-Agreed (send_secure-Same p m t) w in
        rw (e, respond_to_reversal)
          (continue-keeps Agreed (send_secure p m t).0 _ (send_secure p m t).1 sent
            (λ _. ground arith))
  ]

  pub request_reversal-Agreed : (s : Session) → Agreed s → Agreed (request_reversal p env s).1
  unfolding request_reversal
  request_reversal-Agreed s v = grind (arith, send_secure-Same)

  pub handle_diagnostics_batch-Agreed :
      (i : String) (rs : List DiagnosticRecord) (b : Bool) (s : Session)
      → Agreed s
      → Agreed (handle_diagnostics_batch p env i rs b s).1
  unfolding handle_diagnostics_batch
  handle_diagnostics_batch-Agreed i rs b s v = ground arith

  pub request_diagnostics-Agreed :
      (n : ℕ) (s : Session) → Agreed s → Agreed (request_diagnostics p env n s)
  unfolding request_diagnostics
  request_diagnostics-Agreed n s v = grind (arith, send_secure-Same)

  pub expire_diagnostics-Agreed :
      (i : String) (s : Session) → Agreed s → Agreed (expire_diagnostics p env i s)
  unfolding expire_diagnostics
  expire_diagnostics-Agreed i s v = ground arith

  pub handle_media_signal-Agreed :
      (m : MediaSignal) (s : Session) → Agreed s → Agreed (handle_media_signal p env m s).1
  unfolding handle_media_signal
  handle_media_signal-Agreed m s v = ground arith

  pub send_media_signal-Agreed :
      (m : MediaSignal) (s : Session) → Agreed s → Agreed (send_media_signal p env m s).1
  unfolding send_media_signal
  send_media_signal-Agreed m s v = ground (arith, send_secure-Same p (P.media_signal m) s)

  pub keep_alive_tick-Agreed : (s : Session) → Agreed s → Agreed (keep_alive_tick p env s).1
  unfolding keep_alive_tick
  keep_alive_tick-Agreed s v =
      elim (Bool-cases (ltb (timeout_ms p env s) (env.now - s.last_secure_message_at))) [
        | inl late ↦ rw late (close_with_error-Agreed _ false s v)
        | inr fresh ↦ rw fresh (Same-Agreed (send_secure-Same p _ _) (ground arith))
      ]

  pub establish-Agreed :
      (i : ConnectionIntent) (s : Session)
      → Agreed s
      → (s.transport.closed || (given s.local_consent && given s.remote_consent)) ≡ true
      → Agreed (establish p env i s)
  unfolding establish record_local_diagnostics
  establish-Agreed i s v h = ground arith

  pub settle-Agreed : (s : Session) → Agreed s → Agreed (settle p env s)
  unfolding settle record_local_diagnostics
  settle-Agreed s v = ground arith

  pub settle_failed-Agreed : (s : Session) → Agreed s → Agreed (settle_failed p env s)
  unfolding settle_failed
  settle_failed-Agreed s v = ground arith

  pub try_establish-Agreed :
      (c : Caller) (s : Session)
      → Agreed s
      → is_early s.phase ≡ false
      → Agreed (try_establish_connection p env c s)
  unfolding try_establish_connection begin_establishing establish record_local_diagnostics
  try_establish-Agreed c s v e = ground arith

  pub handle_consent_decision-Agreed :
      (b : Bool) (s : Session) → Agreed s → Agreed (handle_consent_decision p env b s).1
  unfolding handle_consent_decision close_with_error
  handle_consent_decision-Agreed true s v =
      ground (arith, try_establish-Agreed by_message (record s { remote_consent = some true }))
  handle_consent_decision-Agreed false s v = ground arith

  pub send_batches-Agreed :
      (f : ℕ) (i : String) (rs : List DiagnosticRecord) (s : Session)
      → Agreed s
      → Agreed (send_batches p env f i rs s).1
  unfolding send_batches
  send_batches-Agreed zero i rs s v = v
  send_batches-Agreed (suc f) i [] s v = v
  send_batches-Agreed (suc f) i (r ∷ rs) s v =
      let m = P.diagnostics_batch i (take 10 (r ∷ rs)) (leb (length (r ∷ rs)) 10) in
      let sent : Agreed (send_secure p m s).1 = Same-Agreed (send_secure-Same p m s) v in
      continue-keeps Agreed (send_secure p m s).0 _ (send_secure p m s).1 sent
        (λ _. send_batches-Agreed f i (drop 10 (r ∷ rs)) (send_secure p m s).1 sent)

  pub batches_of-Agreed :
      (i : String) (rs : List DiagnosticRecord) (s : Session)
      → Agreed s
      → Agreed (batches_of p env i rs s).1
  unfolding batches_of
  batches_of-Agreed i [] s v = Same-Agreed (send_secure-Same p _ s) v
  batches_of-Agreed i (r ∷ rs) s v = send_batches-Agreed _ i _ s v

  pub handle_diagnostics_request-Agreed :
      (i : String) (n : ℕ) (s : Session)
      → Agreed s
      → Agreed (handle_diagnostics_request p env i n s).1
  unfolding handle_diagnostics_request
  handle_diagnostics_request-Agreed i n s v =
      ground (arith, batches_of-Agreed i (take_last n (env.local_records n)) s v)
