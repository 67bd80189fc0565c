-- ===== src/Session/Reversal.antt =====
-- The running session: health checks, the reversal of the direction, diagnostics and media signals.
-- `handlePing`, `handlePong`, `handleReversalRequest`, `respondToReversal`, `handleReversalDecision`,
-- `requestReversal`, `handleDiagnosticsRequest`, `handleDiagnosticsBatch`, `requestDiagnostics`,
-- `handleMediaSignal`, `sendMediaSignal` and `keepAliveTick`.
use istream.Prelude.{
  ℕ, zero, suc, ◌-◌, String, Bool, true, false, not, ◌&&◌, ◌||◌, none, some, List, [], ◌∷◌, ◌++◌,
  length, leb, ltb, min, max, take, drop, take_last, str_eq, if◌then◌else◌, ok, thrown, Attempt,
  pure, modify, refuse_if, ◌>>=◌, ◌>>◌, is_none,
}
use istream.Prelude.Maps.{lookup, insert, remove}
use istream.Contracts.Connectivity.{
  LocalMediaRole, viewer, sharer, reversal, decision, connection_timeout_ms,
  pairing_connection_timeout_ms,
}
use istream.Contracts.Diagnostics as D
use istream.Contracts.Media.{MediaSignal}
use istream.Platform.{Platform}
use istream.Protocol as P
use istream.Session.State.{
  Session, Env, resolved, rejected, signalled, is_connected, is_awaiting_consent, emit,
  notify_changed,
}
use istream.Session.Closing.{send_secure, close_with_error}

abbrev pub toggled : LocalMediaRole → LocalMediaRole
toggled viewer = sharer
toggled _ = viewer

unfoldable pub toggle_role : Session → Session
toggle_role s = record s { role = toggled s.role }

abbrev peer_name : Session → String
peer_name s = elim s.peer [ none ↦ "Peer" | some q ↦ q.display_name ]

-- `Math.max(1, Math.min(5000, limit))`
abbrev pub bounded_limit : ℕ → ℕ
bounded_limit limit = max 1 (min D.maximum_peer_records_per_request limit)

abbrev pub toggle_if : Bool → Session → Session
toggle_if accepted s = if accepted then toggle_role s else s

module _ (p : Platform) (env : Env) where
  unfoldable pub handle_ping : String → Attempt Session (Unit {0})
  handle_ping ping_id = do
    λ s.
        refuse_if (not (is_connected s.phase) && not (is_awaiting_consent s.phase))
          "Health check received before the secure consent phase." s
    send_secure p (P.pong ping_id)

  unfoldable pub handle_pong : String → Session → Session
  handle_pong ping_id s = elim (lookup ping_id s.pending_pings) [
    | none ↦ s
    | some sent_at ↦ notify_changed (record s {
      round_trip_time_ms = some (env.now - sent_at);
      pending_pings = remove ping_id s.pending_pings;
    })
  ]

  unfoldable pub handle_reversal_request : String → Attempt Session (Unit {0})
  handle_reversal_request request_id s =
      if not (is_connected s.phase) || not (is_none s.prompt)
      then send_secure p (P.reversal_decision request_id false) s
      else (
        ok tt,
        notify_changed (record s {
          pending_incoming_reversal_id = some request_id;
          prompt = some (record {
            prompt_id = env.uuid;
            kind = reversal;
            mode = decision;
            peer_name = peer_name s;
            verification_code = none;
            intent = none;
            known_peer = true;
          });
        }),
      )

  unfoldable pub respond_to_reversal : Bool → Attempt Session (Unit {0})
  unfolding toggle_role
  respond_to_reversal accepted s = elim s.pending_incoming_reversal_id [
    | none ↦ (thrown "The reversal request is no longer active.", s)
    | some request_id ↦
        (send_secure p (P.reversal_decision request_id accepted) >>= λ _.
        modify (λ t. notify_changed (toggle_if accepted t)))
          (record s { pending_incoming_reversal_id = none; prompt = none })
  ]

  unfoldable pub handle_reversal_decision : String → Bool → Attempt Session (Unit {0})
  unfolding toggle_role
  handle_reversal_decision request_id accepted s = elim s.pending_outgoing_reversal_id [
    | none ↦ (thrown "Unexpected direction reversal response.", s)
    | some expected ↦
        if str_eq request_id expected
        then (
          ok tt,
          notify_changed (toggle_if accepted (record s { pending_outgoing_reversal_id = none })),
        )
        else (thrown "Unexpected direction reversal response.", s)
  ]

  unfoldable pub request_reversal : Attempt Session (Unit {0})
  request_reversal = do
    λ s.
        refuse_if (not (is_connected s.phase) || not (is_none s.pending_outgoing_reversal_id))
          "Direction can only be reversed on an active, stable connection." s
    modify (λ s. record s { pending_outgoing_reversal_id = some env.uuid })
    send_secure p (P.reversal_request env.uuid)
    modify notify_changed

  -- One batch of ten from `records` on, and the rest of the loop; each round drops ten records, so
  -- that as many rounds as there are records are enough.
  unfoldable pub send_batches : ℕ → String → List D.DiagnosticRecord → Attempt Session (Unit {0})
  send_batches zero request_id records = pure tt
  send_batches (suc f) request_id [] = pure tt
  send_batches (suc f) request_id (r ∷ rs) = do
    send_secure p (
        P.diagnostics_batch request_id (take D.peer_batch_record_count (r ∷ rs))
          (leb (length (r ∷ rs)) D.peer_batch_record_count))
    send_batches f request_id (drop D.peer_batch_record_count (r ∷ rs))

  unfoldable pub batches_of : String → List D.DiagnosticRecord → Attempt Session (Unit {0})
  batches_of request_id [] = send_secure p (P.diagnostics_batch request_id [] true)
  batches_of request_id (r ∷ rs) = send_batches (length (r ∷ rs)) request_id (r ∷ rs)

  unfoldable pub handle_diagnostics_request : String → ℕ → Attempt Session (Unit {0})
  handle_diagnostics_request request_id limit = do
    λ s. refuse_if (not (is_connected s.phase)) "Diagnostics requested before connection consent." s
    batches_of request_id (take_last limit (env.local_records limit))

  unfoldable pub handle_diagnostics_batch :
      String → List D.DiagnosticRecord → Bool → Attempt Session (Unit {0})
  handle_diagnostics_batch request_id records complete s =
      elim (lookup request_id s.pending_diagnostic_requests) [
        | none ↦ (ok tt, s)
        | some pending ↦
            let all_records = pending.records ++ records in
            let grown : Session = record s {
              pending_diagnostic_requests =
                  insert request_id (record pending { records = all_records })
                    s.pending_diagnostic_requests;
            } in
            if ltb pending.limit (length all_records)
            then (thrown "The peer returned too many diagnostic records.", grown)
            else if complete
            then (
              ok tt,
              emit (resolved request_id all_records) (record grown {
                pending_diagnostic_requests = remove request_id grown.pending_diagnostic_requests;
              }),
            )
            else (ok tt, grown)
      ]

  -- The promise's rejection is an effect.
  unfoldable pub request_diagnostics : ℕ → Session → Session
  request_diagnostics limit s =
      if not (is_connected s.phase)
      then emit (rejected env.uuid "Remote diagnostics require an active peer connection.") s
      else let waiting : Session = record s {
        pending_diagnostic_requests =
            insert env.uuid (record { limit = bounded_limit limit; records = [] })
              s.pending_diagnostic_requests;
      } in
        let r = send_secure p (P.diagnostics_request env.uuid (bounded_limit limit)) waiting in
        elim r.0 [
          | ok _ ↦ r.1
          | thrown e ↦ emit (rejected env.uuid e) (record r.1 {
            pending_diagnostic_requests = remove env.uuid r.1.pending_diagnostic_requests;
          })
        ]

  -- The timer of one request fires.
  unfoldable pub expire_diagnostics : String → Session → Session
  expire_diagnostics request_id s = elim (lookup request_id s.pending_diagnostic_requests) [
    | none ↦ s
    | some pending ↦
        emit (rejected request_id "The peer did not return diagnostics in time.") (record s {
          pending_diagnostic_requests = remove request_id s.pending_diagnostic_requests;
        })
  ]

  unfoldable pub handle_media_signal : MediaSignal → Attempt Session (Unit {0})
  handle_media_signal signal = do
    λ s.
        refuse_if (not (is_connected s.phase))
          "Media negotiation arrived before connection consent." s
    modify (emit (signalled signal))

  unfoldable pub send_media_signal : MediaSignal → Attempt Session (Unit {0})
  send_media_signal signal = do
    λ s.
        refuse_if (not (is_connected s.phase))
          "Media negotiation requires an active peer connection." s
    send_secure p (P.media_signal signal)

  abbrev pub timeout_ms : Session → ℕ
  timeout_ms s =
      if is_connected s.phase then connection_timeout_ms else pairing_connection_timeout_ms

  unfoldable pub keep_alive_tick : Attempt Session (Unit {0})
  keep_alive_tick s =
      if ltb (timeout_ms s) (env.now - s.last_secure_message_at)
      then (ok tt, close_with_error p env "Connection health check timed out." false s)
      else send_secure p (P.ping env.uuid (D.int env.now))
          (record s { pending_pings = insert env.uuid env.now s.pending_pings })
