-- ===== src/Manager/Stays.antt =====
-- The place of a session in its `ConnectionManager`.
use istream.Prelude.Lists.{take_out}
use istream.Prelude.{
  ℕ, zero, suc, String, Bool, true, false, some, List, [], ◌∷◌, ◌≡◌, refl, arith, Attempt,
  Option-cases, Bool-cases, inl, inr, ◌⊎◌, length, ◌∙◌, ap, ok,
}
use istream.Platform.{Platform}
use istream.Session as S
use istream.Session.{Session, Env, is_closed}
use istream.Manager.{
  Manager, Dial, enter, emptied, act, connect, dial_failed, accept_incoming, with_session, seen,
  disconnect, notify_changed, is_available, respond_to_prompt, request_reversal,
  request_remote_diagnostics, send_media_signal,
}
use istream.Addressing.{is_private_ipv4}
use istream.Manager.Sound.{step_at-session}
use istream.Manager.Events.{
  ManagerEvent, connects, dial_opens, dial_fails, accepts, responds, requests_reversal,
  requests_diagnostics, sends_signal, disconnects, disposes, to_session, to_former, store_changes,
  publishes, Incoming, event_of, session_step, former_step, step_at, step,
}
use istream.Manager.Displaced.{act-former}

-- The other events. A session that loses its place joins the former ones.
abbrev pub replaces : ManagerEvent → Bool
replaces (dial_opens n agreement) = true
replaces disposes = true
replaces _ = false

length-step_at :
    (p : Platform) (env : Env) (n : ℕ) (event : Incoming) (m : Manager) (ss : List Session)
    → length (step_at p env n event m ss).0 ≡ length ss
unfolding step_at
length-step_at p env n event m [] = refl
length-step_at p env zero event m (s ∷ ss) = refl
length-step_at p env (suc n) event m (s ∷ ss) = ap suc (length-step_at p env n event m ss)

with_session-former :
    (p : Platform) (message : String) (env : Env) (f : Env → Attempt Session (Unit {0}))
    (m : Manager)
    → (with_session p message env f m).1.former ≡ m.former
unfolding with_session
with_session-former p message env f m = elim (Option-cases m.session) [
  | inl e ↦ rw (with_session, e) refl
  | inr (s, e) ↦ rw (with_session, e) (act-former env (f (seen env m)) s m)
]

session_step-former :
    (p : Platform) (env : Env) (event : Incoming) (m : Manager)
    → (session_step p env event m).former ≡ m.former
unfolding session_step
session_step-former p env event m = elim (Option-cases m.session) [
  | inl e ↦ rw (session_step, e) refl
  | inr (s, e) ↦
      rw (session_step, e)
        (act-former env (λ t. (ok tt, S.step p (event_of event, seen env m) t)) s m)
]

disconnect-former :
    (p : Platform) (env : Env) (m : Manager)
    → is_available m ≡ false
    → (disconnect p env m).former ≡ m.former
unfolding disconnect is_available notify_changed
disconnect-former p env m busy = elim (Option-cases m.session) [
  | inl e ↦ rw (disconnect, e) refl
  | inr (s, e) ↦
      let live : is_closed s.phase ≡ false = ground (arith, e, busy) in
      let farewell : Attempt Session (Unit {0}) =
        λ t. (ok tt, S.disconnect_with p (seen env m) "Disconnected by the user." t) in
      rw (disconnect, e, live) (act-former env farewell s m)
]

-- The session stays as it is, or takes a step of its own in its place.
abbrev pub Stays : Platform → Manager → Session → Manager → Type 0
Stays p m s n =
    ((n.session ≡ some s)
      ⊎ ((x : S.Event) × (env : Env) × (n.session
            ≡ some (emptied (S.step p (x, env) (enter m s))))))
    × (length n.former ≡ length m.former)

with_session-Stays :
    (p : Platform) (message : String) (env : Env) (f : Env → Attempt Session (Unit {0}))
    (x : S.Event) (m : Manager) (s : Session)
    → ((e : Env) (t : Session) → (f e t).1 ≡ S.step p (x, e) t)
    → m.session ≡ some s
    → Stays p m s (with_session p message env f m).1
unfolding with_session
with_session-Stays p message env f x m s own e = (
  inr (
    x,
    seen env m,
    rw (with_session, e) (ap (λ t. some (emptied t)) (own (seen env m) (enter m s))),
  ),
  ap length (with_session-former p message env f m),
)

session_step-Stays :
    (p : Platform) (env : Env) (event : Incoming) (m : Manager) (s : Session)
    → m.session ≡ some s
    → Stays p m s (session_step p env event m)
unfolding session_step act
session_step-Stays p env event m s e = (
  inr (event_of event, seen env m, rw (session_step, e) refl),
  ap length (session_step-former p env event m),
)

disconnect-Stays :
    (p : Platform) (env : Env) (m : Manager) (s : Session)
    → m.session ≡ some s
    → is_closed s.phase ≡ false
    → Stays p m s (disconnect p env m)
unfolding S.step notify_changed is_available disconnect
disconnect-Stays p env m s e live = (
  inr (S.disconnects "Disconnected by the user.", seen env m, rw (disconnect, e, live) refl),
  ap length (disconnect-former p env m (ground (arith, e, live))),
)

busy_with :
    (m : Manager) (s : Session)
    → m.session ≡ some s
    → is_closed s.phase ≡ false
    → is_available m ≡ false
unfolding is_available
busy_with m s e live = ground (arith, e, live)

connect-busy :
    (p : Platform) (dial : Dial) (m : Manager) → is_available m ≡ false → (connect p dial m).1 ≡ m
unfolding connect
connect-busy p dial m busy = rw busy refl

accept-busy :
    (p : Platform) (env : Env) (agreement address : String) (m : Manager)
    → is_available m ≡ false
    → (accept_incoming p env agreement address m).1 ≡ m
unfolding accept_incoming
accept-busy p env agreement address m busy = elim (Bool-cases (is_private_ipv4 address)) [
  | inl e ↦ rw (busy, e) refl
  | inr e ↦ rw (busy, e) refl
]

dial_failed-Stays :
    (p : Platform) (n : ℕ) (m : Manager) (s : Session)
    → m.session ≡ some s
    → Stays p m s (dial_failed p n m)
unfolding dial_failed
dial_failed-Stays p n m s own = elim (Option-cases (take_out n m.dialling)) [
  | inl e ↦ rw (dial_failed, e) ((inl own, refl))
  | inr (d, e) ↦ rw (dial_failed, e) ((inl own, refl))
]

same-Stays :
    (p : Platform) (m n : Manager) (s : Session) → m.session ≡ some s → n ≡ m → Stays p m s n
same-Stays p m n s own same = (inl (ap (λ k. k.session) same ∙ own), ap (λ k. length k.former) same)

-- A session that is not closed keeps its place under every other event than the opening of a dialled
-- socket and the disposal of the manager: it stays the manager's session, as it is or after one of its
-- own events, and none joins the former ones.
pub step-Stays :
    (p : Platform) (e : ManagerEvent × Env) (m : Manager) (s : Session)
    → m.session ≡ some s
    → is_closed s.phase ≡ false
    → replaces e.0 ≡ false
    → Stays p m s (step p e m)
unfolding step respond_to_prompt request_reversal request_remote_diagnostics send_media_signal
    former_step S.step
step-Stays p (connects dial, env) m s own live h =
    same-Stays p m _ s own (connect-busy p dial m (busy_with m s own live))
step-Stays p (dial_opens n agreement, env) m s own live h = absurd (cc h)
step-Stays p (dial_fails n, env) m s own live h = dial_failed-Stays p n m s own
step-Stays p (accepts agreement address, env) m s own live h =
    same-Stays p m _ s own (accept-busy p env agreement address m (busy_with m s own live))
step-Stays p (responds id accepted code, env) m s own live h =
    with_session-Stays p _ env (λ e. S.respond_to_prompt p e id accepted code)
      (S.responds id accepted code) m s (λ e t. refl) own
step-Stays p (requests_reversal, env) m s own live h =
    with_session-Stays p _ env (λ e. S.request_reversal p e) S.requests_reversal m s (λ e t. refl)
      own
step-Stays p (requests_diagnostics limit, env) m s own live h =
    with_session-Stays p _ env (λ e t. (ok tt, S.request_diagnostics p e limit t))
      (S.requests_diagnostics limit) m s (λ e t. refl) own
step-Stays p (sends_signal signal, env) m s own live h =
    with_session-Stays p _ env (λ e. S.send_media_signal p e signal) (S.sends_signal signal) m s
      (λ e t. refl) own
step-Stays p (disconnects, env) m s own live h = disconnect-Stays p env m s own live
step-Stays p (disposes, env) m s own live h = absurd (cc h)
step-Stays p (to_session event, env) m s own live h = session_step-Stays p env event m s own
step-Stays p (to_former n event, env) m s own live h =
    (inl (step_at-session p env n event m m.former ∙ own), length-step_at p env n event m m.former)
step-Stays p (store_changes store, env) m s own live h = (inl own, refl)
step-Stays p (publishes r source, env) m s own live h = (inl own, refl)
