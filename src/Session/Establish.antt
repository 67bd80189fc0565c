-- ===== src/Session/Establish.antt =====
-- From the agreement of both users to the connection: `handleConsentDecision`, `respondToPrompt` and
-- `tryEstablishConnection`. The last waits for the trust store's file: `settle` is its second half.
use istream.Prelude.{
  String, Bool, true, false, not, ◌&&◌, Option, none, some, [], ◌∷◌, ◌++◌, str_eq, if◌then◌else◌,
  ok, thrown, Attempt, modify, ◌>>◌, is_none,
}
use istream.Prelude.Texts.{trim, matches_six_digits}
use istream.Contracts.Connectivity.{
  ConnectionIntent, ConnectedPeerDescriptor, PromptKind, reversal, ConsentPromptMode,
  waiting_for_peer, enter_verification_code, ConsentPromptDescriptor,
}
use istream.Platform.{Platform}
use istream.Protocol as P
use istream.Trust.{remember_inbound, InboundTrustCandidate}
use istream.Session.State.{
  Session, Env, Caller, by_prompt, by_message, connected, is_awaiting_consent, notify_changed,
}
use istream.Session.Closing.{send_secure, close_with_error}
use istream.Session.Reversal.{respond_to_reversal}
use istream.Session.Consent.{
  given, unpaired, start_keep_alive, start_diagnostics_recording, initial_role,
}

abbrev pub is_reversal : PromptKind → Bool
is_reversal reversal = true
is_reversal _ = false

abbrev pub is_waiting : ConsentPromptMode → Bool
is_waiting waiting_for_peer = true
is_waiting _ = false

abbrev pub is_entering : ConsentPromptMode → Bool
is_entering enter_verification_code = true
is_entering _ = false

-- The test of the entered code against the session's.
unfoldable pub code_matches : Option String → Option String → Bool
code_matches none entered = false
code_matches (some code) none = false
code_matches (some code) (some entered) =
    matches_six_digits (trim entered) && str_eq (trim entered) code

module _ (p : Platform) (env : Env) where
  -- The part of `tryEstablishConnection` behind the wait.
  unfoldable pub establish : ConnectionIntent → Session → Session
  unfolding start_keep_alive start_diagnostics_recording
  establish intent s = notify_changed (
      start_diagnostics_recording p env (
        start_keep_alive p env (record s {
          prompt = none;
          phase = connected;
          connected_at = some env.now;
          role = initial_role s.initiator intent;
        })))

  abbrev pub candidate :
      ConnectionIntent → ConnectedPeerDescriptor → String → Session → InboundTrustCandidate
  candidate intent peer public_key s = record {
    intent = intent;
    device_id = peer.device_id;
    display_name = peer.display_name;
    public_key_der = public_key;
    last_address = s.remote_address;
  }

  unfoldable pub begin_establishing :
      Caller → ConnectedPeerDescriptor → String → ConnectionIntent → Session → Session
  begin_establishing caller peer public_key intent s =
      if not s.initiator && not peer.paired
      then record s {
        store = remember_inbound env.now (candidate intent peer public_key s) s.store;
        establishing = s.establishing ++ caller ∷ [];
      }
      else establish intent s

  unfoldable pub try_establish_connection : Caller → Session → Session
  try_establish_connection caller s =
      if given s.local_consent && given s.remote_consent
      then (elim s.peer [
        | none ↦ s
        | some peer ↦ elim s.peer_public_key [
          | none ↦ s
          | some public_key ↦ elim s.intent [
            | none ↦ s
            | some intent ↦ begin_establishing caller peer public_key intent s
          ]
        ]
      ])
      else s

  -- Whether `tryEstablishConnection` stops at its `await`.
  abbrev pub waits : Session → Bool
  waits s =
      given s.local_consent
      && given s.remote_consent
      && not (is_none s.peer_public_key)
      && not (is_none s.intent)
      && not s.initiator
      && unpaired s.peer

  abbrev with_paired : Option ConnectedPeerDescriptor → Option ConnectedPeerDescriptor
  with_paired none = none
  with_paired (some q) = some (record q { paired = true })

  abbrev after_wait : Caller → Session → Session
  after_wait by_prompt s = notify_changed s
  after_wait by_message s = s

  -- The file of the trust store is written, and the call that waited longest goes on.
  unfoldable pub settle : Session → Session
  unfolding establish
  settle s = elim s.establishing [
    | [] ↦ s
    | caller ∷ rest ↦ elim s.intent [
      | none ↦ s
      | some intent ↦
          after_wait caller
            (establish intent (record s { establishing = rest; peer = with_paired s.peer }))
    ]
  ]

  -- The file could not be written: the call that waited longest ends there.
  unfoldable pub settle_failed : Session → Session
  settle_failed s = elim s.establishing [
    | [] ↦ s
    | caller ∷ rest ↦ record s { establishing = rest }
  ]

  unfoldable pub handle_consent_decision : Bool → Attempt Session (Unit {0})
  handle_consent_decision accepted s =
      if not (is_awaiting_consent s.phase)
      then (thrown "Unexpected consent response.", s)
      else let t : Session = record s { remote_consent = some accepted } in
        if accepted
        then (ok tt, notify_changed (try_establish_connection by_message t))
        else (ok tt, close_with_error p env "The peer declined the connection." true t)

  -- What `respondToPrompt` does behind its guards.
  unfoldable pub give_consent : Bool → Attempt Session (Unit {0})
  give_consent accepted = do
    modify λ s. record s { prompt = none; local_consent = some accepted }
    send_secure p (P.consent_decision accepted)
    modify λ s.
        if accepted
        then (if waits s
            then try_establish_connection by_prompt s
            else notify_changed (try_establish_connection by_prompt s))
        else close_with_error p env "Connection declined on this computer." true s

  unfoldable pub answer :
      ConsentPromptDescriptor → Bool → Option String → Attempt Session (Unit {0})
  answer prompt accepted entered s =
      if is_reversal prompt.kind
      then respond_to_reversal p env accepted s
      else if is_waiting prompt.mode && accepted
      then (thrown "The requesting computer is already approved and is waiting for the peer.", s)
      else if is_entering prompt.mode && accepted && not (code_matches s.verification_code entered)
      then (thrown "The verification code does not match the requesting computer.", s)
      else give_consent accepted s

  unfoldable pub respond_to_prompt : String → Bool → Option String → Attempt Session (Unit {0})
  respond_to_prompt prompt_id accepted entered s = elim s.prompt [
    | none ↦ (thrown "That consent request is no longer active.", s)
    | some prompt ↦
        if not (str_eq prompt.prompt_id prompt_id)
        then (thrown "That consent request is no longer active.", s)
        else answer prompt accepted entered s
  ]
