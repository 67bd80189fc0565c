-- ===== src/Session/Wire/Opening.antt =====
-- The start, the hellos and the users' answers on the session's transport.
use istream.Prelude.{
  >>=-keeps-each, String, Bool, true, false, Option, none, some, Result, arith, modify, refuse_if,
  ◌>>=◌, Option-cases, inl, inr, continue-keeps,
}
use istream.Contracts.Connectivity.{
  ConnectionIntent, ConnectedPeerDescriptor, ConsentPromptDescriptor,
}
use istream.Platform.{Platform}
use istream.Protocol as P
use istream.Protocol.Encoding.{server_to_json}
use istream.Transport.{Transport}
use istream.Handshake.{create_server_hello, verify_client_hello, verify_server_hello}
use istream.Session.State.{Session, Env, notify_changed, by_prompt}
use istream.Session.Closing.{send_secure, send_plain}
use istream.Session.Consent.{
  start, handle_client_hello, handle_server_hello, accept_server_hello, create_cipher,
  refuse_unless, differs, enter_consent_phase, ask_or_agree, agree_as_initiator, start_keep_alive,
}
use istream.Session.Establish.{respond_to_prompt, answer, give_consent}
use istream.Session.Wire.{
  IsKept, Keeps, send_secure-Keeps, send_plain-Keeps, close_with_error-Keeps,
}
use istream.Session.Wire.Running.{respond_to_reversal-Keeps, try_establish-Keeps}

module _ (p : Platform) (Q : Transport → Type 0) (kept : IsKept p Q) (env : Env) where
  sending : (m : P.SecureMessage) (s : Session) → Keeps Q s → Keeps Q (send_secure p m s).1
  sending = send_secure-Keeps p Q kept

  notified : (s : Session) → Keeps Q s → Keeps Q (notify_changed s)
  notified s v = v

  pub start-Keeps :
      (i : Option ConnectionIntent) (s : Session) → Keeps Q s → Keeps Q (start p env i s).1
  unfolding start
  start-Keeps i s v = grind (arith, send_plain-Keeps p Q kept)

  refuse_unless-Keeps :
      (r : Result Bool) (e : String) (s : Session)
      → Keeps Q s
      → Keeps Q (refuse_unless p env r e s).1
  unfolding refuse_unless
  refuse_unless-Keeps r e s v = ground arith

  create_cipher-Keeps :
      (b : Bool) (c : P.ClientHello) (h : P.ServerHello) (s : Session)
      → Keeps Q s
      → Keeps Q (create_cipher p env b c h s).1
  unfolding create_cipher
  create_cipher-Keeps b c h s v = ground arith

  pub handle_client_hello-Keeps :
      (m : P.ClientHello) (s : Session) → Keeps Q s → Keeps Q (handle_client_hello p env m s).1
  unfolding handle_client_hello
  handle_client_hello-Keeps m =
      >>=-keeps-each (Keeps Q)
        (refuse_unless p env (verify_client_hello p m) "The remote identity signature is invalid.")
        _ (refuse_unless-Keeps _ _)
        λ _ s v.
          >>=-keeps-each (Keeps Q)
            (λ t.
              send_plain p
                (server_to_json (create_server_hello p t.identity m t.agreement env.random)) t)
            _ (λ t. send_plain-Keeps p Q kept _ t)
            (λ _.
              >>=-keeps-each (Keeps Q)
                (λ t.
                  create_cipher p env false m
                    (create_server_hello p t.identity m t.agreement env.random) t)
                _ (λ t. create_cipher-Keeps false m _ t) (λ _ t w. w))
            _ v

  accept_server_hello-Keeps :
      (c : P.ClientHello) (m : P.ServerHello) (s : Session)
      → Keeps Q s
      → Keeps Q (accept_server_hello p env c m s).1
  unfolding accept_server_hello
  accept_server_hello-Keeps c m =
      >>=-keeps-each (Keeps Q)
        (refuse_unless p env (verify_server_hello p m c)
          "The remote identity signature is invalid.")
        _ (refuse_unless-Keeps _ _)
        λ _.
          >>=-keeps-each (Keeps Q)
            (λ t.
              refuse_if (differs t.expected_device_id m.device_id)
                "The discovered peer identity changed before connection." t)
            _ (λ t v. ground arith)
            λ _ t v.
              >>=-keeps-each (Keeps Q) (create_cipher p env true c m) _
                (create_cipher-Keeps true c m)
                (λ _ t v.
                  >>=-keeps-each (Keeps Q) (send_secure p P.ready) _ (sending P.ready) (λ _ t v. v)
                    _ v)
                _ v

  pub handle_server_hello-Keeps :
      (m : P.ServerHello) (s : Session) → Keeps Q s → Keeps Q (handle_server_hello p env m s).1
  unfolding handle_server_hello
  handle_server_hello-Keeps m s v = grind (arith, accept_server_hello-Keeps)

  give_consent-Keeps : (b : Bool) (s : Session) → Keeps Q s → Keeps Q (give_consent p env b s).1
  unfolding give_consent
  give_consent-Keeps b s v =
      let t : Session = record s { prompt = none; local_consent = some b } in
      let m = P.consent_decision b in
      let sent : Keeps Q (send_secure p m t).1 = sending m t v in
      continue-keeps (Keeps Q) (send_secure p m t).0 _ (send_secure p m t).1 sent (λ _. ground (
        arith,
        try_establish-Keeps p Q kept env by_prompt (send_secure p m t).1 sent,
        close_with_error-Keeps p Q kept env "Connection declined on this computer." true
            (send_secure p m t).1 sent,
      ))

  answer-Keeps :
      (q : ConsentPromptDescriptor) (b : Bool) (c : Option String) (s : Session)
      → Keeps Q s
      → Keeps Q (answer p env q b c s).1
  unfolding answer
  answer-Keeps q b c s v =
      ground (arith, respond_to_reversal-Keeps p Q kept env b s v, give_consent-Keeps b s v)

  pub respond_to_prompt-Keeps :
      (i : String) (b : Bool) (c : Option String) (s : Session)
      → Keeps Q s
      → Keeps Q (respond_to_prompt p env i b c s).1
  unfolding respond_to_prompt
  respond_to_prompt-Keeps i b c s v = grind (arith, answer-Keeps)

  agree_as_initiator-Keeps : (s : Session) → Keeps Q s → Keeps Q (agree_as_initiator p env s).1
  unfolding agree_as_initiator
  agree_as_initiator-Keeps s v = grind (arith, sending)

  ask_or_agree-Keeps :
      (q : ConnectedPeerDescriptor) (i : ConnectionIntent) (c : String) (s : Session)
      → Keeps Q s
      → Keeps Q (ask_or_agree p env q i c s).1
  unfolding ask_or_agree
  ask_or_agree-Keeps q i c s v = grind (arith, sending)

  asking-Keeps :
      (q : ConnectedPeerDescriptor) (i : ConnectionIntent) (c : String) (s : Session)
      → Keeps Q s
      → Keeps Q
          ((ask_or_agree p env q i c >>= λ _.
              agree_as_initiator p env >>= λ _. modify notify_changed)
            s).1
  asking-Keeps q i c =
      >>=-keeps-each (Keeps Q) (ask_or_agree p env q i c) _ (ask_or_agree-Keeps q i c) λ _.
        >>=-keeps-each (Keeps Q) (agree_as_initiator p env) _ agree_as_initiator-Keeps
          (λ _. notified)

  pub enter_consent_phase-Keeps :
      (s : Session) → Keeps Q s → Keeps Q (enter_consent_phase p env s).1
  unfolding enter_consent_phase start_keep_alive
  enter_consent_phase-Keeps s v = elim (Option-cases s.peer) [
    | inl missing ↦ rw (missing, enter_consent_phase) v
    | inr (peer, is_peer) ↦ elim (Option-cases s.intent) [
      | inl missing ↦ rw (is_peer, missing, enter_consent_phase) v
      | inr (intent, is_intent) ↦ elim (Option-cases s.verification_code) [
        | inl missing ↦ rw (is_peer, is_intent, missing, enter_consent_phase) v
        | inr (code, is_code) ↦
            rw (is_peer, is_intent, is_code, enter_consent_phase)
              (asking-Keeps peer intent code _ (ground arith))
      ]
    ]
  ]
