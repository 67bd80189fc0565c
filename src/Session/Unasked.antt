-- ===== src/Session/Unasked.antt =====
-- A session that was called by a computer without an unexpired trust record: what that computer sends.
use istream.Prelude.{
  ℕ, zero, suc, take_last, continue-keeps, take, drop, length, leb, Attempt, lift, Result-cases,
  >>=-keeps-each, refuse_if, not, String, Bool, true, false, Option, some, ◌≡◌, List, [], ◌∷◌,
  arith, inl, inr,
}
use istream.Contracts.Media.{MediaSignal}
use istream.Contracts.Diagnostics.{DiagnosticRecord}
use istream.Platform.{Platform}
use istream.Values.{Json}
use istream.Protocol as P
use istream.Protocol.Validator.{secure_envelope}
use istream.Session.State.{
  Session, Env, by_message, PeerSessionPhase, awaiting_client_hello, awaiting_server_hello,
  is_awaiting_ready, is_awaiting_acknowledgement,
}
use istream.Session.Closing.{send_secure, close_with_error, record_local_diagnostics}
use istream.Session.Reversal.{
  handle_ping, handle_pong, handle_reversal_request, handle_reversal_decision, send_batches,
  handle_diagnostics_request, handle_diagnostics_batch, handle_media_signal, batches_of,
}
use istream.Session.Consent.{unpaired, enter_consent_phase, ask_or_agree, agree_as_initiator}
use istream.Session.Establish.{
  try_establish_connection, establish, handle_consent_decision, begin_establishing,
}
use istream.Session.Dispatch.{
  handle_secure_message, receive_value, handle_wire_message, closing_on_error, read_secure,
  decrypt_envelope, handle_ready, handle_ready_acknowledged,
}
use istream.Session.Core.{Same, send_secure-Same}

abbrev pub greets : PeerSessionPhase → Bool
greets awaiting_client_hello = true
greets awaiting_server_hello = true
greets _ = false

-- The hellos are over, the other computer called and is not paired, and the user's consent is `given_`.
pub record Unasked (given_ : Option Bool) (s : Session) : Type 0 where
  pub consent : s.local_consent ≡ given_
  pub called : s.initiator ≡ false
  pub stranger : unpaired s.peer ≡ true
  pub greeted : greets s.phase ≡ false

Same-Unasked : (o : Option Bool) {s t : Session} → Same s t → Unasked o s → Unasked o t
Same-Unasked o e v = ground (arith, e.local_consent, e.initiator, e.peer, e.phase)

module _ (o : Option Bool) (p : Platform) (env : Env) where
  sending : (m : P.SecureMessage) (s : Session) → Unasked o s → Unasked o (send_secure p m s).1
  sending m s v = Same-Unasked o (send_secure-Same p m s) v

  closing-Unasked :
      (reason : String) (expected : Bool) (s : Session)
      → Unasked o s
      → Unasked o (close_with_error p env reason expected s)
  unfolding close_with_error
  closing-Unasked reason expected s v = ground arith

  handle_ping-Unasked :
      (i : String) (s : Session) → Unasked o s → Unasked o (handle_ping p env i s).1
  unfolding handle_ping
  handle_ping-Unasked i s v = ground (arith, sending (P.pong i) s v)

  handle_pong-Unasked : (i : String) (s : Session) → Unasked o s → Unasked o (handle_pong p env i s)
  unfolding handle_pong
  handle_pong-Unasked i s v = ground arith

  handle_reversal_request-Unasked :
      (i : String) (s : Session) → Unasked o s → Unasked o (handle_reversal_request p env i s).1
  unfolding handle_reversal_request
  handle_reversal_request-Unasked i s v = ground (arith, sending (P.reversal_decision i false) s v)

  handle_reversal_decision-Unasked :
      (i : String) (b : Bool) (s : Session)
      → Unasked o s
      → Unasked o (handle_reversal_decision p env i b s).1
  unfolding handle_reversal_decision
  handle_reversal_decision-Unasked i b s v = ground arith

  handle_batch-Unasked :
      (i : String) (rs : List DiagnosticRecord) (b : Bool) (s : Session)
      → Unasked o s
      → Unasked o (handle_diagnostics_batch p env i rs b s).1
  unfolding handle_diagnostics_batch
  handle_batch-Unasked i rs b s v = ground arith

  handle_media_signal-Unasked :
      (m : MediaSignal) (s : Session) → Unasked o s → Unasked o (handle_media_signal p env m s).1
  unfolding handle_media_signal
  handle_media_signal-Unasked m s v = ground arith

  try_establish-Unasked :
      (s : Session) → Unasked o s → Unasked o (try_establish_connection p env by_message s)
  unfolding try_establish_connection begin_establishing establish record_local_diagnostics
  try_establish-Unasked s v = ground arith

  handle_consent-Unasked :
      (b : Bool) (s : Session) → Unasked o s → Unasked o (handle_consent_decision p env b s).1
  unfolding handle_consent_decision
  handle_consent-Unasked b s v =
      let t : Session = record s { remote_consent = some b } in
      let w : Unasked o t = ground arith in
      ground (
        arith,
        try_establish-Unasked t w,
        closing-Unasked "The peer declined the connection." true t w,
      )

  send_batches-Unasked :
      (f : ℕ) (i : String) (rs : List DiagnosticRecord) (s : Session)
      → Unasked o s
      → Unasked o (send_batches p env f i rs s).1
  unfolding send_batches
  send_batches-Unasked zero i rs s v = v
  send_batches-Unasked (suc f) i [] s v = v
  send_batches-Unasked (suc f) i (r ∷ rs) s v =
      let m = P.diagnostics_batch i (take 10 (r ∷ rs)) (leb (length (r ∷ rs)) 10) in
      let sent : Unasked o (send_secure p m s).1 = sending m s v in
      continue-keeps (Unasked o) (send_secure p m s).0 _ (send_secure p m s).1 sent
        (λ _. send_batches-Unasked f i (drop 10 (r ∷ rs)) (send_secure p m s).1 sent)

  batches_of-Unasked :
      (i : String) (rs : List DiagnosticRecord) (s : Session)
      → Unasked o s
      → Unasked o (batches_of p env i rs s).1
  unfolding batches_of
  batches_of-Unasked i [] s v = sending _ s v
  batches_of-Unasked i (r ∷ rs) s v = send_batches-Unasked _ i _ s v

  handle_request-Unasked :
      (i : String) (n : ℕ) (s : Session)
      → Unasked o s
      → Unasked o (handle_diagnostics_request p env i n s).1
  unfolding handle_diagnostics_request
  handle_request-Unasked i n s v =
      ground (arith, batches_of-Unasked i (take_last n (env.local_records n)) s v)

  -- A computer that was called asks its user.
  enter_consent-Unasked : (s : Session) → Unasked o s → Unasked o (enter_consent_phase p env s).1
  unfolding enter_consent_phase ask_or_agree agree_as_initiator
  enter_consent-Unasked s v = ground arith

  handle_ready-Unasked : (s : Session) → Unasked o s → Unasked o (handle_ready p env s).1
  unfolding handle_ready
  handle_ready-Unasked =
      >>=-keeps-each (Unasked o)
        (λ s. refuse_if (not (is_awaiting_ready s.phase)) "Unexpected secure ready message." s) _
        (λ s v. ground arith)
        λ _.
          >>=-keeps-each (Unasked o) (send_secure p P.ready_acknowledged) _
            (sending P.ready_acknowledged) (λ _. enter_consent-Unasked)

  handle_acknowledged-Unasked :
      (s : Session) → Unasked o s → Unasked o (handle_ready_acknowledged p env s).1
  unfolding handle_ready_acknowledged
  handle_acknowledged-Unasked =
      >>=-keeps-each (Unasked o)
        (λ s.
          refuse_if (not (is_awaiting_acknowledgement s.phase)) "Unexpected secure acknowledgement."
            s)
        _ (λ s v. ground arith) (λ _. enter_consent-Unasked)

  handle_secure_message-Unasked :
      (m : P.SecureMessage) (s : Session)
      → Unasked o s
      → Unasked o (handle_secure_message p env m s).1
  unfolding handle_secure_message
  handle_secure_message-Unasked P.ready s v = handle_ready-Unasked s v
  handle_secure_message-Unasked P.ready_acknowledged s v = handle_acknowledged-Unasked s v
  handle_secure_message-Unasked (P.consent_decision b) s v = handle_consent-Unasked b s v
  handle_secure_message-Unasked (P.ping i t) s v = handle_ping-Unasked i s v
  handle_secure_message-Unasked (P.pong i) s v = handle_pong-Unasked i s v
  handle_secure_message-Unasked (P.reversal_request i) s v = handle_reversal_request-Unasked i s v
  handle_secure_message-Unasked (P.reversal_decision i b) s v =
      handle_reversal_decision-Unasked i b s v
  handle_secure_message-Unasked (P.disconnect r) s v = closing-Unasked r true s v
  handle_secure_message-Unasked (P.protocol_error r) s v = closing-Unasked r false s v
  handle_secure_message-Unasked (P.diagnostics_request i n) s v = handle_request-Unasked i n s v
  handle_secure_message-Unasked (P.diagnostics_batch i rs b) s v = handle_batch-Unasked i rs b s v
  handle_secure_message-Unasked (P.media_signal m) s v = handle_media_signal-Unasked m s v

  decrypt_envelope-Unasked :
      (e : P.SecureEnvelope) (s : Session) → Unasked o s → Unasked o (decrypt_envelope p env e s).1
  unfolding decrypt_envelope
  decrypt_envelope-Unasked e s v = ground arith

  read_secure-Unasked : (j : Json) (s : Session) → Unasked o s → Unasked o (read_secure p env j s).1
  unfolding read_secure
  read_secure-Unasked j =
      >>=-keeps-each (Unasked o) (lift (secure_envelope j)) _ (λ s v. v)
        λ e.
          >>=-keeps-each (Unasked o) (decrypt_envelope p env e) _ (decrypt_envelope-Unasked e)
            handle_secure_message-Unasked

  receive_value-Unasked :
      (j : Json) (s : Session) → Unasked o s → Unasked o (receive_value p env j s).1
  unfolding receive_value
  receive_value-Unasked j s v = ground (arith, read_secure-Unasked j s v, v.greeted)

  closing_on_error-Unasked :
      (m : Attempt Session (Unit {0})) (s : Session)
      → Unasked o (m s).1
      → Unasked o (closing_on_error p env m s)
  unfolding closing_on_error
  closing_on_error-Unasked m s v = elim (Result-cases (m s).0) [
    | inl (a, e) ↦ rw (e, closing_on_error) v
    | inr (x, e) ↦ rw (e, closing_on_error) (closing-Unasked x false (m s).1 v)
  ]

  handle_wire_message-Unasked :
      (j : Json) (s : Session) → Unasked o s → Unasked o (handle_wire_message p env j s)
  unfolding handle_wire_message
  handle_wire_message-Unasked j s v =
      closing_on_error-Unasked (receive_value p env j) s (receive_value-Unasked j s v)

-- The lines of the other computer, the first one first.
unfoldable pub receive_lines : Platform → List (Json × Env) → Session → Session
receive_lines p [] s = s
receive_lines p ((value, env) ∷ rest) s = receive_lines p rest (handle_wire_message p env value s)

-- When the hellos are over, a session that was called by a computer that is not paired keeps the
-- consent of its user as it is, whatever that computer sends: it does not agree by itself, neither to
-- the handshake's end nor to any other message, valid or not.
pub receive_lines-Unasked :
    (p : Platform) (o : Option Bool) (lines : List (Json × Env)) (s : Session)
    → Unasked o s
    → Unasked o (receive_lines p lines s)
unfolding receive_lines
receive_lines-Unasked p o [] s v = v
receive_lines-Unasked p o ((value, env) ∷ rest) s v =
    receive_lines-Unasked p o rest (handle_wire_message p env value s)
      (handle_wire_message-Unasked o p env value s v)
