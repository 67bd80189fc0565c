-- ===== src/Session/Roles.antt =====
-- The direction of the stream, on both sides of one connection: `initialRole`, `toggleRole` and the
-- exchange that reverses it.
use istream.Prelude.{
  String, Bool, true, false, not, none, some, ◌≡◌, if◌then◌else◌, Option-cases, inl, inr, ok, arith,
}
use istream.Contracts.Connectivity.{LocalMediaRole, viewer, sharer, ConnectionIntent}
use package.text.Mathlib.TextPositions.{eq_refl}
use istream.Platform.{Platform}
use istream.Protocol as P
use istream.Session.State.{Session, Env}
use istream.Session.Reversal.{toggled, toggle_role, respond_to_reversal, handle_reversal_decision}
use istream.Session.Consent.{initial_role, start_keep_alive, start_diagnostics_recording}
use istream.Session.Establish.{establish}
use istream.Session.Closing.{record_local_diagnostics}
use istream.Session.Core.{send_secure-Same}

-- One side shows its screen and the other sees it.
abbrev pub opposite : LocalMediaRole → LocalMediaRole → Bool
opposite viewer sharer = true
opposite sharer viewer = true
opposite _ _ = false

-- When two sessions, exactly one of them an initiator, are established for the same intent, one of
-- them shows its screen and the other sees it.
pub establish-opposite :
    (p q : Platform) (here there : Env) (intent : ConnectionIntent) (a b : Session)
    → a.initiator ≡ not b.initiator
    → opposite (establish p here intent a).role (establish q there intent b).role ≡ true
unfolding establish start_keep_alive start_diagnostics_recording record_local_diagnostics
    initial_role
establish-opposite p q here there intent a b h = ground arith

respond_to_reversal-role :
    (p : Platform) (env : Env) (accepted : Bool) (s : Session)
    → (respond_to_reversal p env accepted s).0 ≡ ok tt
    → (respond_to_reversal p env accepted s).1.role ≡ (if accepted then toggled s.role else s.role)
unfolding respond_to_reversal toggle_role
respond_to_reversal-role p env accepted s sent =
    elim (Option-cases s.pending_incoming_reversal_id) [
      | inl e ↦ ground arith
      | inr (id, e) ↦ ground (
        arith,
        e,
        send_secure-Same p (P.reversal_decision id accepted)
            (record s { pending_incoming_reversal_id = none; prompt = none }),
      )
    ]

-- When a session has sent its user's answer to a request to reverse the direction, and the session
-- that asked for it handles this answer, the two have opposite roles if they had before, whether the
-- request was accepted or not, and the request is settled.
pub reversal-opposite :
    (p q : Platform) (here there : Env) (id : String) (accepted : Bool) (a b : Session)
    → opposite a.role b.role ≡ true
    → a.pending_outgoing_reversal_id ≡ some id
    → (respond_to_reversal q there accepted b).0 ≡ ok tt
    → (opposite
          (handle_reversal_decision p here id accepted a).1.role
          (respond_to_reversal q there accepted b).1.role
        ≡ true)
      × ((handle_reversal_decision p here id accepted a).1.pending_outgoing_reversal_id ≡ none)
unfolding handle_reversal_decision toggle_role
reversal-opposite p q here there id accepted a b h e sent =
    ground (arith, respond_to_reversal-role q there accepted b sent, eq_refl id)
