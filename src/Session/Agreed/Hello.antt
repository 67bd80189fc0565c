-- ===== src/Session/Agreed/Hello.antt =====
-- The agreement of both sides, the start and the hellos.
use istream.Prelude.{
  continue-keeps, >>=-keeps-each, ap, ◌∙◌, String, Bool, true, false, Option, none, some, Result,
  modify, refuse_if, ◌>>=◌, arith,
}
use istream.Contracts.Connectivity.{ConnectionIntent}
use istream.Platform.{Platform}
use istream.Protocol as P
use istream.Values.{Json}
use istream.Session.State.{Session, Env, notify_changed}
use istream.Handshake.{
  create_client_hello, create_server_hello, verify_client_hello, verify_server_hello,
}
use istream.Protocol.Encoding.{client_to_json, server_to_json}
use istream.Session.Closing.{send_secure, send_plain}
use istream.Session.Consent.{
  start, handle_client_hello, handle_server_hello, accept_server_hello, create_cipher,
  refuse_unless, differs,
}
use istream.Session.Core.{send_secure-Same, send_plain-Same}
use istream.Session.Agreed.{Agreed, Early, is_early, Same-Agreed, notify-Agreed}

module _ (p : Platform) (env : Env) where
  pub send_plain-Agreed :
      (j : Json) (s : Session)
      → Agreed s
      → Agreed ((send_plain p j >>= λ _. modify notify_changed) s).1
  send_plain-Agreed j s v =
      let sent : Agreed (send_plain p j s).1 = Same-Agreed (send_plain-Same p j s) v in
      continue-keeps Agreed (send_plain p j s).0 _ (send_plain p j s).1 sent
        (λ _. notify-Agreed (send_plain p j s).1 sent)

  pub start-Agreed :
      (i : Option ConnectionIntent) (s : Session) → Agreed s → Agreed (start p env i s).1
  unfolding start
  start-Agreed none s v = ground arith
  start-Agreed (some i) s v =
      let hello = create_client_hello p s.identity env.uuid s.agreement i env.random in
      let t : Session = record s {
        handshake_timer = true;
        intent = some i;
        client_hello = some hello;
      } in
      let w : Agreed t = ground arith in
      ground (arith, send_plain-Agreed (client_to_json hello) t w)

  pub create_cipher-Early :
      (b : Bool) (c : P.ClientHello) (h : P.ServerHello) (s : Session)
      → Early s
      → Early (create_cipher p env b c h s).1
  unfolding create_cipher
  create_cipher-Early b c h s v = ground arith

  pub refuse_unless-Early :
      (r : Result Bool) (e : String) (s : Session) → Early s → Early (refuse_unless p env r e s).1
  unfolding refuse_unless
  refuse_unless-Early r e s v = ground arith

  pub send_plain-Early : (j : Json) (s : Session) → Early s → Early (send_plain p j s).1
  send_plain-Early j s v =
      let same = send_plain-Same p j s in
      record { agreed = Same-Agreed same v.agreed; early = ap is_early same.phase ∙ v.early }

  pub send_secure-Early :
      (m : P.SecureMessage) (s : Session) → Early s → Early (send_secure p m s).1
  send_secure-Early m s v =
      let same = send_secure-Same p m s in
      record { agreed = Same-Agreed same v.agreed; early = ap is_early same.phase ∙ v.early }

  pub handle_client_hello-Early :
      (m : P.ClientHello) (s : Session) → Early s → Early (handle_client_hello p env m s).1
  unfolding handle_client_hello
  handle_client_hello-Early m =
      >>=-keeps-each Early
        (refuse_unless p env (verify_client_hello p m) "The remote identity signature is invalid.")
        _ (refuse_unless-Early _ _)
        λ _ s v.
          >>=-keeps-each Early
            (λ t.
              send_plain p
                (server_to_json (create_server_hello p t.identity m t.agreement env.random)) t)
            _ (λ t. send_plain-Early _ t)
            (λ _.
              >>=-keeps-each Early
                (λ t.
                  create_cipher p env false m
                    (create_server_hello p t.identity m t.agreement env.random) t)
                _ (λ t. create_cipher-Early false m _ t) (λ _ t w. ground arith))
            _ (ground arith)

  pub accept_server_hello-Early :
      (c : P.ClientHello) (m : P.ServerHello) (s : Session)
      → Early s
      → Early (accept_server_hello p env c m s).1
  unfolding accept_server_hello
  accept_server_hello-Early c m =
      >>=-keeps-each Early
        (refuse_unless p env (verify_server_hello p m c)
          "The remote identity signature is invalid.")
        _ (refuse_unless-Early _ _)
        λ _.
          >>=-keeps-each Early
            (λ t.
              refuse_if (differs t.expected_device_id m.device_id)
                "The discovered peer identity changed before connection." t)
            _ (λ t v. ground arith)
            λ _ t v.
              >>=-keeps-each Early (create_cipher p env true c m) _ (create_cipher-Early true c m)
                (λ _ t v.
                  >>=-keeps-each Early (send_secure p P.ready) _ (send_secure-Early P.ready)
                    (λ _ t v. ground arith) _ (ground arith))
                _ (ground arith)

  pub handle_server_hello-Early :
      (m : P.ServerHello) (s : Session) → Early s → Early (handle_server_hello p env m s).1
  unfolding handle_server_hello
  handle_server_hello-Early m s v = grind (arith, accept_server_hello-Early)
