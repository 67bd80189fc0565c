-- ===== src/Session/Core.antt =====
-- The part of a session that sending leaves alone, and on which its agreements rest.
use istream.Prelude.{◌≡◌, arith}
use istream.Platform.{Platform}
use istream.Protocol.{SecureMessage}
use istream.Values.{Json}
use istream.Transport as T
use istream.Session.State.{Session}
use istream.Session.Closing.{send_secure, send_plain}

pub record Same (s t : Session) : Type 0 where
  pub phase : t.phase ≡ s.phase
  pub transport_closed : t.transport.closed ≡ s.transport.closed
  pub local_consent : t.local_consent ≡ s.local_consent
  pub remote_consent : t.remote_consent ≡ s.remote_consent
  pub establishing : t.establishing ≡ s.establishing
  pub prompt : t.prompt ≡ s.prompt
  pub role : t.role ≡ s.role
  pub initiator : t.initiator ≡ s.initiator
  pub intent : t.intent ≡ s.intent
  pub peer : t.peer ≡ s.peer

module _ (p : Platform) where
  closed-send : (v : Json) (t : T.Transport) → (T.send p v t).1.closed ≡ t.closed
  unfolding T.send
  closed-send v t = ground arith

  pub send_plain-Same : (v : Json) (s : Session) → Same s (send_plain p v s).1
  unfolding send_plain
  send_plain-Same v s = ground (arith, closed-send v s.transport)

  -- The envelope's way to the transport, for any outcome of the cipher.
  pub send_secure-Same : (m : SecureMessage) (s : Session) → Same s (send_secure p m s).1
  unfolding send_secure
  send_secure-Same m s = grind (arith, closed-send)
