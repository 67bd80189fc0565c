-- ===== src/Session/Agreed.antt =====
-- The agreement of both sides: an invariant of a session, which the children carry through its
-- operations.
pub mod Running
pub mod Consent
pub mod Hello
pub mod Run
use istream.Prelude.{
  ℕ, zero, suc, ltb, ◌-◌, take_last, Option-cases, continue-keeps, >>=-keeps-each, ap, ◌∙◌, take,
  drop, length, leb, String, Bool, true, false, not, ◌&&◌, ◌||◌, Option, none, some, ◌≡◌, refl,
  Result, ok, thrown, Attempt, modify, lift, Result-cases, refuse_if, ◌>>=◌, List, [], ◌∷◌, arith,
  is_none, Bool-cases, inl, inr, if◌then◌else◌,
}
use istream.Contracts.Connectivity.{
  LocalMediaRole, ConnectedPeerDescriptor, ConsentPromptDescriptor, ConnectionIntent, PromptKind,
  reversal,
}
use istream.Prelude.Maps.{insert}
use istream.Contracts.Media.{MediaSignal}
use istream.Contracts.Diagnostics.{DiagnosticRecord, int}
use istream.Platform.{Platform}
use istream.Protocol as P
use istream.Values.{Json}
use istream.Transport as T
use istream.Session.State.{
  Session, Env, PeerSessionPhase, Caller, by_message, by_prompt, awaiting_client_hello,
  awaiting_server_hello, awaiting_secure_ready, awaiting_secure_acknowledgement, is_closed,
  is_connected, awaiting_consent, notify_changed, is_awaiting_ready, is_awaiting_acknowledgement,
}
use istream.Handshake.{
  create_client_hello, create_server_hello, derive_shared_secret, verify_client_hello,
  verify_server_hello,
}
use istream.Protocol.Encoding.{client_to_json, server_to_json}
use istream.Session.Closing.{
  send_secure, send_plain, close_with_error, clear_timers, disconnect_with, dispose,
  handle_transport_closed, record_local_diagnostics, record_closure_diagnostics,
}
use istream.Session.Reversal.{
  handle_ping, handle_pong, handle_reversal_request, respond_to_reversal, handle_reversal_decision,
  request_reversal, send_batches, handle_diagnostics_request, handle_diagnostics_batch,
  request_diagnostics, expire_diagnostics, handle_media_signal, send_media_signal, keep_alive_tick,
  batches_of, timeout_ms,
}
use istream.Session.Consent.{
  given, start, handle_client_hello, handle_server_hello, enter_consent_phase, ask_or_agree,
  agree_as_initiator, start_keep_alive, prompt_for, accept_server_hello, create_cipher,
  refuse_unless, start_keep_alive, differs,
}
use istream.Session.Establish.{
  try_establish_connection, establish, settle, settle_failed, handle_consent_decision,
  respond_to_prompt, answer, give_consent, begin_establishing,
}
use istream.Session.Dispatch.{
  handle_secure_message, receive_value, handle_wire_message, closing_on_error, read_secure,
  decrypt_envelope, handle_ready, handle_ready_acknowledged,
}
use istream.Protocol.Validator.{client_hello, server_hello, secure_envelope}
use istream.Session.Events.{Event, step, run}
use istream.Session.Core.{Same, send_secure-Same, send_plain-Same}

abbrev pub is_empty {ℓ} : {A : Type ℓ} → List A → Bool
is_empty [] = true
is_empty (x ∷ xs) = false

-- The handshake is not over.
abbrev pub is_early : PeerSessionPhase → Bool
is_early awaiting_client_hello = true
is_early awaiting_server_hello = true
is_early awaiting_secure_ready = true
is_early awaiting_secure_acknowledgement = true
is_early _ = false

abbrev pub asks : Option ConsentPromptDescriptor → Bool
asks none = false
asks (some q) = elim q.kind [ reversal ↦ false | _ ↦ true ]

abbrev pub both_agreed : Session → Bool
both_agreed s = given s.local_consent && given s.remote_consent && not (asks s.prompt)

pub record Agreed (s : Session) : Type 0 where
  pub closing : (not (is_closed s.phase) || s.transport.closed) ≡ true
  pub agreed : (not (is_connected s.phase) || s.transport.closed || both_agreed s) ≡ true
  pub waiting : (is_empty s.establishing || s.transport.closed || both_agreed s) ≡ true
  pub early :
      (not (is_early s.phase)
        || (is_empty s.establishing && is_none s.prompt && is_none s.local_consent))
      ≡ true
  pub answered :
      (s.initiator || not (given s.local_consent) || not (asks s.prompt) || s.transport.closed)
      ≡ true

pub record Early (s : Session) : Type 0 where
  pub agreed : Agreed s
  pub early : is_early s.phase ≡ true

pub Same-Agreed : {s t : Session} → Same s t → Agreed s → Agreed t
Same-Agreed h v = ground arith

pub notify-Agreed : (s : Session) → Agreed s → Agreed (notify_changed s)
notify-Agreed s v = ground arith
