-- ===== src/Manager/Displaced.antt =====
-- What the opening of a dialled socket does to the session of a `ConnectionManager`.
use istream.Prelude.{
  String, Bool, true, false, Option, none, some, [], ◌∷◌, ◌≡◌, refl, arith, Attempt, Option-cases,
  inl, inr, ◌∙◌,
}
use istream.Platform.{Platform}
use istream.Contracts.Connectivity.{ConnectionIntent}
use istream.Session as S
use istream.Session.{Session, Env, is_closed}
use istream.Manager.{
  Manager, Dial, enter, emptied, act, retire, install_session, begin, connect, dial_opened,
  accept_incoming, seen, notify_changed, is_available, leave,
}
use istream.Addressing.{is_private_ipv4}
use istream.Manager.Sound.{leave-Same, feed_all-Same}
use istream.Session.Consent.{start}
use istream.Session.Closing.{send_plain}

pub act-former :
    (env : Env) (f : Attempt Session (Unit {0})) (s : Session) (m : Manager)
    → (act env f s m).1.former ≡ m.former
unfolding act
act-former env f s m = (leave-Same env (f (enter m s)).1 m).1

retire-former :
    (env : Env) (m : Manager) (s : Session)
    → m.session ≡ some s
    → (retire env m).former ≡ emptied (S.dispose (enter m s)) ∷ m.former
unfolding retire
retire-former env m s e = rw (retire, e) refl

begin-former :
    (p : Platform) (env : Env) (agreement address : String) (out : Bool) (x : Option String)
    (intent : Option ConnectionIntent) (m : Manager)
    → (begin p env agreement address out x intent m).1.former ≡ (retire env m).former
unfolding begin install_session notify_changed
begin-former p env agreement address out x intent m =
    let s = S.new_session m.identity agreement address out x m.store env.now in
    let installed = install_session env s m in
    act-former env (S.start p (seen env installed) intent) s installed

act-session :
    (env : Env) (f : Attempt Session (Unit {0})) (s : Session) (m : Manager)
    → (act env f s m).1.session ≡ some (emptied (f (enter m s)).1)
unfolding act
act-session env f s m = refl

leave-dialling : (env : Env) (s : Session) (m : Manager) → (leave env s m).dialling ≡ m.dialling
unfolding leave
leave-dialling env s m = (feed_all-Same env.now s.effects (record m { store = s.store })).dialling

retire-dialling : (env : Env) (m : Manager) → (retire env m).dialling ≡ m.dialling
unfolding retire
retire-dialling env m = elim (Option-cases m.session) [
  | inl e ↦ rw (retire, e) refl
  | inr (s, e) ↦ rw (retire, e) (leave-dialling env (S.dispose (enter m s)) m)
]

begin-dialling :
    (p : Platform) (env : Env) (agreement address : String) (out : Bool) (x : Option String)
    (intent : Option ConnectionIntent) (m : Manager)
    → (begin p env agreement address out x intent m).1.dialling ≡ m.dialling
unfolding begin install_session notify_changed act
begin-dialling p env agreement address out x intent m =
    let s = S.new_session m.identity agreement address out x m.store env.now in
    let installed = install_session env s m in
    leave-dialling env (S.start p (seen env installed) intent (enter installed s)).1 installed
    ∙ retire-dialling env m

-- The side and the address of a session stay as its start finds them.
record Starts (s t : Session) : Type 0 where
  address : t.remote_address ≡ s.remote_address
  side : t.initiator ≡ s.initiator
  phase : is_closed t.phase ≡ is_closed s.phase

start-Starts :
    (p : Platform) (env : Env) (intent : Option ConnectionIntent) (s : Session)
    → Starts s (start p env intent s).1
unfolding start send_plain
start-Starts p env none s = ground arith
start-Starts p env (some i) s = ground arith

-- A session that has begun.
pub record Begun (address : String) (out : Bool) (o : Option Session) : Type 0 where
  pub session : Session
  pub is : o ≡ some session
  pub remote_address : session.remote_address ≡ address
  pub initiator : session.initiator ≡ out
  pub live : is_closed session.phase ≡ false

begin-Begun :
    (p : Platform) (env : Env) (agreement address : String) (out : Bool) (x : Option String)
    (intent : Option ConnectionIntent) (m : Manager)
    → Begun address out (begin p env agreement address out x intent m).1.session
unfolding begin install_session notify_changed S.new_session
begin-Begun p env agreement address out x intent m =
    let s = S.new_session m.identity agreement address out x m.store env.now in
    let installed = install_session env s m in
    let entered = enter installed s in
    let v = start-Starts p (seen env installed) intent entered in
    record {
      session = emptied (start p (seen env installed) intent entered).1;
      is = refl;
      remote_address = v.address;
      initiator = v.side;
      live = v.phase ∙ ground arith;
    }

-- What the opening of the first dialled socket does to a session that was accepted before.
abbrev pub Displaces : Platform → Env → String → String → Dial → Manager → Type 0
Displaces p env other address dial m =
    (b : Begun address false m.session) × (is_closed (S.dispose (enter m b.session)).phase ≡ true)
    × (Begun dial.endpoint.host true (dial_opened p env other 0 m).1.session)
    × ((dial_opened p env other 0 m).1.former ≡ emptied (S.dispose (enter m b.session)) ∷ m.former)

opened-Displaces :
    (p : Platform) (env : Env) (other address : String) (dial : Dial) (m : Manager)
    → Begun address false m.session
    → m.dialling ≡ dial ∷ []
    → Displaces p env other address dial m
unfolding S.dispose dial_opened begin
opened-Displaces p env other address dial m b d =
    let m' : Manager = record m { dialling = [] } in
    let host = dial.endpoint.host in
    (
      b,
      refl,
      rw (dial_opened, d)
          (begin-Begun p env other host true dial.expected_device_id (some dial.intent) m'),
      rw (dial_opened, d)
          (begin-former p env other host true dial.expected_device_id (some dial.intent) m'
            ∙ retire-former env m' b.session b.is),
    )

connect-available :
    (p : Platform) (dial : Dial) (m : Manager)
    → is_available m ≡ true
    → m.dialling ≡ []
    → (connect p dial m).1 ≡ record m { dialling = dial ∷ [] }
unfolding connect
connect-available p dial m free none_ = rw (connect, free, none_) refl

accept-available :
    (p : Platform) (env : Env) (agreement address : String) (m : Manager)
    → is_available m ≡ true
    → is_private_ipv4 address ≡ true
    → (accept_incoming p env agreement address m).1
      ≡ (begin p env agreement address false none none m).1
unfolding accept_incoming begin
accept-available p env agreement address m free near = rw (accept_incoming, free, near) refl

-- A manager that is free begins to connect. While the socket opens, it accepts a connection that comes
-- in, so that the accepted session is its own. Then the socket opens: the accepted session is closed
-- and joins the former ones, and a session for the dialled address is the manager's.
pub dial_opened-Displaces :
    (p : Platform) (env later : Env) (agreement other address : String) (dial : Dial) (m : Manager)
    → is_available m ≡ true
    → m.dialling ≡ []
    → is_private_ipv4 address ≡ true
    → Displaces p later other address dial
        (accept_incoming p env agreement address (connect p dial m).1).1
unfolding is_available
dial_opened-Displaces p env later agreement other address dial m free none_ near =
    let m' : Manager = record m { dialling = dial ∷ [] } in
    rw
      (connect-available p dial m free none_, accept-available p env agreement address m' free near)
      (opened-Displaces p later other address dial
        (begin p env agreement address false none none m').1
        (begin-Begun p env agreement address false none none m')
        (begin-dialling p env agreement address false none none m'))
