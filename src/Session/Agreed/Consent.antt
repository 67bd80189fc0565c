-- ===== src/Session/Agreed/Consent.antt =====
-- The agreement of both sides and the users' answers.
use istream.Prelude.{
  Option-cases, continue-keeps, String, Bool, true, false, Option, none, some, ◌≡◌, modify, ◌>>=◌,
  [], arith, inl, inr,
}
use istream.Contracts.Connectivity.{
  ConnectedPeerDescriptor, ConsentPromptDescriptor, ConnectionIntent,
}
use istream.Platform.{Platform}
use istream.Protocol as P
use istream.Session.State.{Session, Env, by_prompt, awaiting_consent, notify_changed}
use istream.Session.Closing.{send_secure}
use istream.Session.Consent.{
  enter_consent_phase, ask_or_agree, agree_as_initiator, start_keep_alive, prompt_for,
  start_keep_alive,
}
use istream.Session.Establish.{respond_to_prompt, answer, give_consent}
use istream.Session.Core.{send_secure-Same}
use istream.Session.Agreed.{Agreed, is_early, asks, Same-Agreed, notify-Agreed}
use istream.Session.Agreed.Running.{
  close_with_error-Agreed, respond_to_reversal-Agreed, try_establish-Agreed,
}

module _ (p : Platform) (env : Env) where
  pub give_consent-Agreed :
      (b : Bool) (s : Session)
      → Agreed s
      → is_early s.phase ≡ false
      → asks s.prompt ≡ true
      → Agreed (give_consent p env b s).1
  unfolding give_consent
  give_consent-Agreed true s v e a =
      let t : Session = record s { prompt = none; local_consent = some true } in
      let w : Agreed t = ground arith in
      let m = P.consent_decision true in
      let sent : Agreed (send_secure p m t).1 = Same-Agreed (send_secure-Same p m t) w in
      continue-keeps Agreed (send_secure p m t).0 _ (send_secure p m t).1 sent (λ _. ground (
        arith,
        try_establish-Agreed p env by_prompt (send_secure p m t).1 sent,
        send_secure-Same p m t,
      ))
  give_consent-Agreed false s v e a =
      let t : Session = record s { prompt = none; local_consent = some false } in
      let w : Agreed t = ground arith in
      let m = P.consent_decision false in
      let sent : Agreed (send_secure p m t).1 = Same-Agreed (send_secure-Same p m t) w in
      continue-keeps Agreed (send_secure p m t).0 _ (send_secure p m t).1 sent
        (λ _. close_with_error-Agreed p env _ true (send_secure p m t).1 sent)

  pub answer-Agreed :
      (q : ConsentPromptDescriptor) (b : Bool) (c : Option String) (s : Session)
      → s.prompt ≡ some q
      → Agreed s
      → Agreed (answer p env q b c s).1
  unfolding answer
  answer-Agreed q b c s e v =
      ground (arith, respond_to_reversal-Agreed p env b s v, give_consent-Agreed b s v)

  pub respond_to_prompt-Agreed :
      (i : String) (b : Bool) (c : Option String) (s : Session)
      → Agreed s
      → Agreed (respond_to_prompt p env i b c s).1
  unfolding respond_to_prompt
  respond_to_prompt-Agreed i b c s v = elim (Option-cases s.prompt) [
    | inl e ↦ rw (e, respond_to_prompt) v
    | inr (q, e) ↦ ground (arith, answer-Agreed q b c s e v)
  ]

  pub agree_as_initiator-Agreed :
      (s : Session) → Agreed s → is_early s.phase ≡ false → Agreed (agree_as_initiator p env s).1
  unfolding agree_as_initiator
  agree_as_initiator-Agreed s v e =
      ground (
        arith,
        send_secure-Same p (P.consent_decision true) (record s { local_consent = some true }),
      )

  pub ask_or_agree-Agreed :
      (q : ConnectedPeerDescriptor) (i : ConnectionIntent) (c : String) (s : Session)
      → Agreed s
      → s.phase ≡ awaiting_consent
      → s.establishing ≡ []
      → s.local_consent ≡ none
      → Agreed (ask_or_agree p env q i c s).1
  unfolding ask_or_agree prompt_for
  ask_or_agree-Agreed q i c s v e f g = ground (
    arith,
    send_secure-Same p (P.consent_decision true)
        (record s { prompt = none; local_consent = some true }),
  )

  pub ask_or_agree-phase :
      (q : ConnectedPeerDescriptor) (i : ConnectionIntent) (c : String) (s : Session)
      → (ask_or_agree p env q i c s).1.phase ≡ s.phase
  unfolding ask_or_agree
  ask_or_agree-phase q i c s = ground (
    arith,
    send_secure-Same p (P.consent_decision true)
        (record s { prompt = none; local_consent = some true }),
  )

  -- The last two parts of `enterConsentPhase`.
  pub consent_rest-Agreed :
      (q : ConnectedPeerDescriptor) (i : ConnectionIntent) (c : String) (s : Session)
      → Agreed s
      → s.phase ≡ awaiting_consent
      → s.establishing ≡ []
      → s.local_consent ≡ none
      → Agreed
          ((ask_or_agree p env q i c >>= λ _.
              agree_as_initiator p env >>= λ _. modify notify_changed)
            s).1
  consent_rest-Agreed q i c s v e f g =
      let first = ask_or_agree-Agreed q i c s v e f g in
      let at = ask_or_agree-phase q i c s in
      let t = (ask_or_agree p env q i c s).1 in
      continue-keeps Agreed (ask_or_agree p env q i c s).0 _ t first λ _.
        continue-keeps Agreed (agree_as_initiator p env t).0 _ (agree_as_initiator p env t).1
          (agree_as_initiator-Agreed t first (rw (at, e)))
          (λ _.
            notify-Agreed (agree_as_initiator p env t).1
              (agree_as_initiator-Agreed t first (rw (at, e))))

  pub enter_consent_phase-Agreed :
      (s : Session) → Agreed s → is_early s.phase ≡ true → Agreed (enter_consent_phase p env s).1
  unfolding enter_consent_phase start_keep_alive
  enter_consent_phase-Agreed s v e = elim (Option-cases s.peer) [
    | inl missing ↦ rw (missing, enter_consent_phase) (ground arith)
    | inr (peer, is_peer) ↦ elim (Option-cases s.intent) [
      | inl missing ↦ rw (is_peer, missing, enter_consent_phase) (ground arith)
      | inr (intent, is_intent) ↦ elim (Option-cases s.verification_code) [
        | inl missing ↦ rw (is_peer, is_intent, missing, enter_consent_phase) (ground arith)
        | inr (code, is_code) ↦
            rw (is_peer, is_intent, is_code, enter_consent_phase)
              (consent_rest-Agreed peer intent code _ (ground arith) (ground arith) (ground arith)
                (ground arith))
      ]
    ]
  ]
