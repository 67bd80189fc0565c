-- ===== src/WebRtc/Fresh.antt =====
-- The connections of the window's session, one after the other: what a new one takes over from the
-- one before, and what it sends.
use istream.Prelude.{true, false, not, ◌&&◌, ◌||◌, [], ◌≡◌, is_none}
use istream.Contracts.Connectivity.{viewer}
use istream.Contracts.Media.{offer}
use istream.WebRtc.State.{MediaSession}
use istream.WebRtc.Signals.{is_no_role, same_role, same_generation, is_connected_state}
use istream.WebRtc.Events.{MediaEvent, synchronizes, receives}

-- The events that make a connection: the session is told of a connection with a role that it does not
-- have, or a viewer gets an offer of a generation that it does not have.
unfoldable pub MakesConnection : MediaEvent → MediaSession → Type 0
MakesConnection (synchronizes c g) s =
    ((not (is_connected_state c.state) || is_no_role c.role) ≡ false)
    × ((same_role s.role c.role && not (is_none s.configuration)) ≡ false)
MakesConnection (receives m) s =
    (s.subscribed ≡ true)
    × (m.kind ≡ offer)
    × (s.role ≡ viewer)
    × (is_none m.sdp ≡ false)
    × (same_generation s.generation m.generation ≡ false)
MakesConnection _ s = ⊥

-- The session without what was queued and announced for its connection.
abbrev pub forget : MediaSession → MediaSession
forget s = record s { pending_local_signals = []; local_description_announced = false }

-- The session with an empty list of effects, so that only what follows is in it.
abbrev pub unlogged : MediaSession → MediaSession
unlogged s = record s { effects = [] }
