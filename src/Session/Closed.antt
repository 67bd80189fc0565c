-- ===== src/Session/Closed.antt =====
-- How a session ends, also while a call of `tryEstablishConnection` waits for the trust store's
-- file.
use istream.Prelude.{
  String, Bool, true, false, none, some, List, [], ◌∷◌, ◌≡◌, arith, refl, ap, ◌∙◌,
}
use istream.Contracts.Connectivity.{ConnectionIntent, ConnectedPeerDescriptor}
use istream.Platform.{Platform}
use istream.Protocol as P
use istream.Transport as T
use istream.Session.State.{Session, Env, is_closed, is_connected, Caller}
use istream.Session.Closing.{
  close_with_error, clear_timers, send_secure, disconnect_with, handle_transport_closed, dispose,
}
use istream.Session.Consent.{given, start_keep_alive, start_diagnostics_recording}
use istream.Session.Establish.{settle, establish, try_establish_connection, begin_establishing}
use istream.Session.Closing.{record_local_diagnostics, record_closure_diagnostics}
use istream.Session.Core.{send_secure-Same}

-- What the end of a session leaves of it. An interval whose handle was overwritten is not cleared.
pub record IsShut (before s : Session) : Type 0 where
  pub phase : is_closed s.phase ≡ true
  pub transport : s.transport.closed ≡ true
  pub handshake_timer : s.handshake_timer ≡ false
  pub keep_alive_timer : s.keep_alive_timer ≡ false
  pub diagnostic_timer : s.diagnostic_timer ≡ false
  pub stray_timers : s.stray_timers ≡ before.stray_timers
  pub requests : s.pending_diagnostic_requests ≡ []

close_with_error-IsShut :
    (p : Platform) (env : Env) (reason : String) (expected : Bool) (before s : Session)
    → is_closed s.phase ≡ false
    → s.stray_timers ≡ before.stray_timers
    → IsShut before (close_with_error p env reason expected s)
      × ((close_with_error p env reason expected s).prompt ≡ none)
unfolding close_with_error clear_timers record_closure_diagnostics T.close
close_with_error-IsShut p env reason expected before s h k = ground arith

stray-send_secure :
    (p : Platform) (m : P.SecureMessage) (s : Session)
    → (send_secure p m s).1.stray_timers ≡ s.stray_timers
unfolding send_secure
stray-send_secure p m s = grind arith

disconnect_with-IsShut :
    (p : Platform) (env : Env) (reason : String) (s : Session)
    → is_closed s.phase ≡ false
    → IsShut s (disconnect_with p env reason s) × ((disconnect_with p env reason s).prompt ≡ none)
unfolding disconnect_with
disconnect_with-IsShut p env reason s h =
    let t = (send_secure p (P.disconnect reason) s).1 in
    let same = send_secure-Same p (P.disconnect reason) s in
    ground (
      arith,
      close_with_error-IsShut p env reason true s s h refl,
      close_with_error-IsShut p env reason true s t (ap is_closed same.phase ∙ h)
          (stray-send_secure p (P.disconnect reason) s),
    )

dispose-IsShut : (s : Session) → IsShut s (dispose s)
unfolding dispose clear_timers T.close
dispose-IsShut s = ground arith

-- Every way to end a session that is neither closed nor closing shuts it: an error or an expected end,
-- the user's farewell (whether it could be sent or not), the loss of the transport, and the disposal.
-- Its phase and its transport are closed, the three timers whose handles it holds are cleared, and no
-- request is left; as many intervals as had lost their handles before go on. All but the disposal
-- take the prompt away, too.
pub close-IsShut :
    (p : Platform) (env : Env) (reason : String) (expected : Bool) (s : Session)
    → is_closed s.phase ≡ false
    → s.intentional_close ≡ false
    → (IsShut s (close_with_error p env reason expected s)
        × ((close_with_error p env reason expected s).prompt ≡ none))
      × (IsShut s (disconnect_with p env reason s)
          × ((disconnect_with p env reason s).prompt ≡ none))
      × (IsShut s (handle_transport_closed p env reason s)
          × ((handle_transport_closed p env reason s).prompt ≡ none))
      × IsShut s (dispose s)
unfolding handle_transport_closed
close-IsShut p env reason expected s h own = (
  close_with_error-IsShut p env reason expected s s h refl,
  disconnect_with-IsShut p env reason s h,
  ground (arith, close_with_error-IsShut p env reason false s s h refl),
  dispose-IsShut s,
)

-- A call that waits for the trust store's file goes on when the session has ended.
settle-waiting :
    (p : Platform) (env : Env) (c : Caller) (rest : List Caller) (intent : ConnectionIntent)
    (s : Session)
    → s.transport.closed ≡ true
    → s.establishing ≡ c ∷ rest
    → s.intent ≡ some intent
    → (is_connected (settle p env s).phase ≡ true)
      × ((settle p env s).transport.closed ≡ true)
      × ((settle p env s).keep_alive_timer ≡ true)
      × ((settle p env s).diagnostic_timer ≡ true)
unfolding settle establish start_keep_alive start_diagnostics_recording record_local_diagnostics
settle-waiting p env c rest intent s shut e i = ground arith

close_with_error-waiting :
    (p : Platform) (env : Env) (reason : String) (expected : Bool) (s : Session)
    → ((close_with_error p env reason expected s).establishing ≡ s.establishing)
      × ((close_with_error p env reason expected s).intent ≡ s.intent)
unfolding close_with_error clear_timers record_closure_diagnostics
close_with_error-waiting p env reason expected s = ground arith

disconnect_with-waiting :
    (p : Platform) (env : Env) (reason : String) (s : Session)
    → ((disconnect_with p env reason s).establishing ≡ s.establishing)
      × ((disconnect_with p env reason s).intent ≡ s.intent)
unfolding disconnect_with
disconnect_with-waiting p env reason s =
    let t = (send_secure p (P.disconnect reason) s).1 in
    let same = send_secure-Same p (P.disconnect reason) s in
    ground (
      arith,
      close_with_error-waiting p env reason true s,
      close_with_error-waiting p env reason true t,
      same.establishing,
      same.intent,
    )

-- Both users have agreed and the other computer is not paired yet.
pub record IsAgreed (s : Session) : Type 0 where
  pub peer : ConnectedPeerDescriptor
  pub public_key : String
  pub intent : ConnectionIntent
  pub peer_is : s.peer ≡ some peer
  pub unknown : peer.paired ≡ false
  pub key_is : s.peer_public_key ≡ some public_key
  pub intent_is : s.intent ≡ some intent
  pub incoming : s.initiator ≡ false
  pub here : given s.local_consent ≡ true
  pub there : given s.remote_consent ≡ true
  pub idle_ : s.establishing ≡ []
  pub live : is_closed s.phase ≡ false

establish-waits :
    (p : Platform) (env : Env) (c : Caller) (s : Session)
    → IsAgreed s
    → ((try_establish_connection p env c s).establishing ≡ c ∷ [])
      × ((try_establish_connection p env c s).intent ≡ s.intent)
      × (is_closed (try_establish_connection p env c s).phase ≡ false)
unfolding try_establish_connection begin_establishing
establish-waits p env c s a =
    rw (a.here, a.there, a.peer_is, a.key_is, a.intent_is, a.incoming, a.unknown, a.idle_)
      ((refl, a.intent_is, a.live))

-- When both users have agreed, a computer that is not paired is to be remembered, and the session waits
-- for the trust store's file. If the user disconnects during that wait, the session is shut; but the
-- write that ends connects it again and starts its timers, over a transport that stays closed.
pub settle-reopens :
    (p : Platform) (env during after : Env) (c : Caller) (reason : String) (s : Session)
    → IsAgreed s
    → let waiting = try_establish_connection p env c s in
      let ended = disconnect_with p during reason waiting in
      let late = settle p after ended in
      IsShut waiting ended
      × (is_connected late.phase ≡ true)
      × (late.transport.closed ≡ true)
      × (late.keep_alive_timer ≡ true)
      × (late.diagnostic_timer ≡ true)
settle-reopens p env during after c reason s a =
    let waiting = try_establish_connection p env c s in
    let ended = disconnect_with p during reason waiting in
    let (queue, intent, live) = establish-waits p env c s a in
    let (kept, kept_intent) = disconnect_with-waiting p during reason waiting in
    let shut = (disconnect_with-IsShut p during reason waiting live).0 in
    let (up, down, ticks, records_) =
      settle-waiting p after c [] a.intent ended shut.transport (kept ∙ queue)
        (kept_intent ∙ intent ∙ a.intent_is) in
    (shut, up, down, ticks, records_)
