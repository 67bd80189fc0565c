-- ===== src/Manager/Sound.antt =====
-- The sessions of a manager, and what holds of them after each of its methods.
use istream.Prelude.{
  ℕ, zero, suc, String, Bool, true, Option, none, some, List, [], ◌∷◌, ◌≡◌, refl, subst, arith, All,
  Attempt, ok, Option-cases, inl, inr,
}
use istream.Platform.{Platform}
use istream.Contracts.Connectivity.{ConnectionIntent}
use istream.Values.{Json}
use istream.Transport.{Transport}
use istream.Transport as T
use istream.Session as S
use istream.Session.{Session, Env, Effect, changed, recorded, signalled, resolved, sent, rejected}
use istream.Session.Agreed.{Agreed}
use istream.Session.Agreed.Run.{step-Agreed, new_session-Agreed}
use istream.Session.Agreed.Hello.{start-Agreed}
use istream.Session.Wire.{IsKept}
use istream.Session.Wire.Run.{step-Keeps}
use istream.Manager.{
  Manager, feed, feed_all, leave, enter, act, retire, install_session, begin, with_session, seen,
  disconnect, notify_changed,
}
use istream.Manager.Events.{Incoming, event_of, step_at}

-- What the effects of a session leave alone.
pub record SameSessions (m t : Manager) : Type 0 where
  pub session : t.session ≡ m.session
  pub former : t.former ≡ m.former
  pub dialling : t.dialling ≡ m.dialling
  pub store : t.store ≡ m.store

feed-Same : (now : ℕ) (e : Effect) (m : Manager) → SameSessions m (feed now e m)
unfolding feed notify_changed
feed-Same now e m = ground arith

pub feed_all-Same : (now : ℕ) (es : List Effect) (m : Manager) → SameSessions m (feed_all now es m)
unfolding feed_all
feed_all-Same now [] m = ground arith
feed_all-Same now (e ∷ es) m =
    ground (arith, feed_all-Same now es m, feed-Same now e (feed_all now es m))

pub leave-Same :
    (env : Env) (s : Session) (m : Manager)
    → (leave env s m).session ≡ m.session × (leave env s m).former ≡ m.former
unfolding leave
leave-Same env s m = ground (arith, feed_all-Same env.now s.effects (record m { store = s.store }))

abbrev pub Every {ℓ} : (Session → Type ℓ) → Option Session → Type ℓ
Every P none = Unit
Every P (some s) = P s

abbrev pub Shut : Session → Type 0
Shut s = s.transport.closed ≡ true

pub record Sound (m : Manager) : Type 0 where
  pub current : Every Agreed m.session
  pub former : All Shut m.former

pub act-Sound :
    (env : Env) (f : Attempt Session (Unit {0})) (s : Session) (m : Manager)
    → ((t : Session) → Agreed t → Agreed (f t).1)
    → Agreed s
    → Sound m
    → Sound (act env f s m).1
unfolding act
act-Sound env f s m keeps v h =
    let entered : Agreed (enter m s) = ground arith in
    let after = keeps (enter m s) entered in
    ground (arith, leave-Same env (f (enter m s)).1 m, after)

dispose-Shut : (s : Session) → Shut (S.dispose s)
unfolding S.dispose T.close
dispose-Shut s = ground arith

pub retire-Sound : (env : Env) (m : Manager) → Sound m → Sound (retire env m)
unfolding retire
retire-Sound env m h = elim (Option-cases m.session) [
  | inl e ↦ rw (retire, e) h
  | inr (s, e) ↦
      let gone = S.dispose (enter m s) in
      rw (retire, e) (ground (arith, leave-Same env gone m, dispose-Shut (enter m s)))
]

pub begin-Sound :
    (p : Platform) (env : Env) (agreement address : String) (out : Bool) (x : Option String)
    (intent : Option ConnectionIntent) (m : Manager)
    → Sound m
    → Sound (begin p env agreement address out x intent m).1
unfolding begin install_session notify_changed
begin-Sound p env agreement address out x intent m h =
    let s = S.new_session m.identity agreement address out x m.store env.now in
    let installed = install_session env s m in
    let v = new_session-Agreed m.identity agreement address out x m.store env.now in
    act-Sound env (S.start p (seen env installed) intent) s installed
      (start-Agreed p (seen env installed) intent) v
      (record { current = v; former = (retire-Sound env m h).former })

pub current-Agreed : (m : Manager) (s : Session) → m.session ≡ some s → Sound m → Agreed s
current-Agreed m s e h = subst (Every Agreed) e h.current

pub with_session-Sound :
    (p : Platform) (message : String) (env : Env) (f : Env → Attempt Session (Unit {0}))
    (m : Manager)
    → ((e : Env) (t : Session) → Agreed t → Agreed (f e t).1)
    → Sound m
    → Sound (with_session p message env f m).1
unfolding with_session
with_session-Sound p message env f m keeps h = elim (Option-cases m.session) [
  | inl e ↦ rw (with_session, e) h
  | inr (s, e) ↦
      rw (with_session, e)
        (act-Sound env (f (seen env m)) s m (keeps (seen env m)) (current-Agreed m s e h) h)
]

pub disconnect-Sound :
    (p : Platform) (env : Env) (m : Manager) → Sound m → Sound (disconnect p env m)
unfolding disconnect notify_changed S.step
disconnect-Sound p env m h = elim (Option-cases m.session) [
  | inl e ↦ rw (disconnect, e) h
  | inr (s, e) ↦
      let farewell : Attempt Session (Unit {0}) =
        λ t. (ok tt, S.disconnect_with p (seen env m) "Disconnected by the user." t) in
      let after =
        act-Sound env farewell s m
          (λ t v. step-Agreed p (S.disconnects "Disconnected by the user.", seen env m) t v)
          (current-Agreed m s e h) h in
      rw (disconnect, e) (ground (arith, after, retire-Sound env m h))
]

closed-send :
    (p : Platform) (v : Json) (t : Transport) → t.closed ≡ true → (T.send p v t).1.closed ≡ true
unfolding T.send
closed-send p v t h = ground arith

closed-close : (t : Transport) → t.closed ≡ true → (T.close t).closed ≡ true
unfolding T.close
closed-close t h = ground arith

closed-IsKept : (p : Platform) → IsKept p (λ t. t.closed ≡ true)
closed-IsKept p = record { keeps_send = closed-send p; keeps_close = closed-close }

pub step_at-Shut :
    (p : Platform) (env : Env) (n : ℕ) (event : Incoming) (m : Manager) (ss : List Session)
    → All Shut ss
    → All Shut (step_at p env n event m ss).0
unfolding step_at
step_at-Shut p env n event m [] h = tt
step_at-Shut p env zero event m (s ∷ ss) (v, h) = (
  step-Keeps p (λ t. t.closed ≡ true) (closed-IsKept p) (event_of event, seen env m) (enter m s) v,
  h,
)
step_at-Shut p env (suc n) event m (s ∷ ss) (v, h) = (v, step_at-Shut p env n event m ss h)

pub step_at-session :
    (p : Platform) (env : Env) (n : ℕ) (event : Incoming) (m : Manager) (ss : List Session)
    → (step_at p env n event m ss).1.session ≡ m.session
unfolding step_at
step_at-session p env n event m [] = refl
step_at-session p env zero event m (s ∷ ss) = (leave-Same env _ m).0
step_at-session p env (suc n) event m (s ∷ ss) = step_at-session p env n event m ss
