-- ===== src/Session/Wire.antt =====
-- What a session does to its transport, for any property of transports that sending and closing
-- keep.
pub mod Running
pub mod Opening
pub mod Run
pub mod Written
use istream.Prelude.{arith, ◌>>=◌, modify, continue-keeps, >>=-keeps, String, Bool}
use istream.Platform.{Platform}
use istream.Protocol as P
use istream.Values.{Json}
use istream.Transport as T
use istream.Transport.{Transport}
use istream.Session.State.{Session, Env}
use istream.Session.Closing.{
  send_secure, send_plain, close_with_error, record_closure_diagnostics, clear_timers,
}
use istream.Protocol.Encoding.{envelope_to_json}

-- A property that sending and closing keep.
pub record IsKept (p : Platform) (Q : Transport → Type 0) : Type 0 where
  pub keeps_send : (v : Json) (t : Transport) → Q t → Q (T.send p v t).1
  pub keeps_close : (t : Transport) → Q t → Q (T.close t)

abbrev pub Keeps : (Transport → Type 0) → Session → Type 0
Keeps Q s = Q s.transport

module _ (p : Platform) (Q : Transport → Type 0) (kept : IsKept p Q) where
  pub send_plain-Keeps : (v : Json) (s : Session) → Keeps Q s → Keeps Q (send_plain p v s).1
  unfolding send_plain
  send_plain-Keeps v s h = kept.keeps_send v s.transport h

  pub send_secure-Keeps :
      (m : P.SecureMessage) (s : Session) → Keeps Q s → Keeps Q (send_secure p m s).1
  unfolding send_secure
  send_secure-Keeps m s h = grind (arith, kept.keeps_send)

  pub close_with_error-Keeps :
      (env : Env) (reason : String) (expected : Bool) (s : Session)
      → Keeps Q s
      → Keeps Q (close_with_error p env reason expected s)
  unfolding close_with_error clear_timers record_closure_diagnostics
  close_with_error-Keeps env reason expected s v = ground (arith, kept.keeps_close s.transport)
