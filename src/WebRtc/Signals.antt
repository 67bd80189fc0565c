-- ===== src/WebRtc/Signals.antt =====
-- The methods of `WebRtcMediaSession` up to their first `await`, and those without one. All callers
-- of an asynchronous method catch its error with `fail`, so that an error ends in `fail` here.
use istream.Prelude.{
  ℕ, suc, String, Bool, true, false, not, ◌&&◌, ◌||◌, Option, none, some, List, [], ◌∷◌, ◌++◌,
  str_eq, is_none, ◌==◌, if◌then◌else◌,
}
use istream.Contracts.Connectivity.{
  LocalMediaRole, viewer, sharer, ConnectionState, ActiveConnectionDescriptor, connected,
}
use istream.Contracts.Media.{MediaSignal, offer, answer, ice_candidate, ice_complete}
use istream.Contracts.Streaming.{StreamingConfiguration}
use istream.WebRtc.State.{
  MediaSession, Task, choosing_screen, creating_offer, setting_remote_offer, setting_remote_answer,
  adding, Next, nothing, create_answer, configure_senders, Effect, closed, stopped, offering,
  candidate_added, creating_answer, idle, capturing, negotiating, other_error, emit, publish, fail,
}

abbrev pub wait : Task → MediaSession → MediaSession
wait t s = record s { tasks = s.tasks ++ t ∷ [] }

abbrev pub is_viewer : LocalMediaRole → Bool
is_viewer viewer = true
is_viewer _ = false

abbrev pub is_sharer : LocalMediaRole → Bool
is_sharer sharer = true
is_sharer _ = false

abbrev pub is_no_role : LocalMediaRole → Bool
is_no_role LocalMediaRole.none = true
is_no_role _ = false

abbrev pub same_role : LocalMediaRole → LocalMediaRole → Bool
same_role viewer viewer = true
same_role sharer sharer = true
same_role LocalMediaRole.none LocalMediaRole.none = true
same_role _ _ = false

abbrev pub same_generation : Option String → String → Bool
same_generation none g = false
same_generation (some h) g = str_eq h g

abbrev pub is_connected_state : ConnectionState → Bool
is_connected_state connected = true
is_connected_state _ = false

abbrev pub among : ℕ → List ℕ → Bool
among c [] = false
among c (d ∷ ds) = c == d || among c ds

-- The effect on the objects that a field gives up.
abbrev pub close_old : Option ℕ → List Effect → List Effect
close_old none es = es
close_old (some c) es = closed c ∷ es

abbrev pub stop_old : Option ℕ → List Effect → List Effect
stop_old none es = es
stop_old (some stream) es = stopped stream ∷ es

-- The new connection has the number `next_connection` of the state before.
unfoldable pub create_peer_connection : MediaSession → MediaSession
create_peer_connection s = record s {
  pending_local_signals = [];
  local_description_announced = false;
  peer_connection = some s.next_connection;
  next_connection = suc s.next_connection;
  effects = close_old s.peer_connection s.effects;
}

unfoldable pub require_connection : (ℕ → MediaSession → MediaSession) → MediaSession → MediaSession
require_connection f s = elim s.peer_connection [ none ↦ fail other_error s | some c ↦ f c s ]

unfoldable pub require_configuration :
    (StreamingConfiguration → MediaSession → MediaSession) → MediaSession → MediaSession
require_configuration f s = elim s.configuration [ none ↦ fail other_error s | some g ↦ f g s ]

-- `sendOffer` for the generation it has settled on.
unfoldable pub offer_for : ℕ → Bool → MediaSession → MediaSession
offer_for c ice_restart s = elim s.generation [
  | none ↦ s
  | some generation ↦ wait (creating_offer c generation) (
      emit (offering c ice_restart)
        (record s { local_description_announced = false; pending_local_signals = [] }))
]

-- `uuid` is the next random identifier.
unfoldable pub send_offer : Bool → String → MediaSession → MediaSession
unfolding offer_for require_connection
send_offer ice_restart uuid = require_connection λ c s.
    offer_for c ice_restart
      (if ice_restart then record s { generation = some uuid; pending_candidates = [] } else s)

unfoldable pub start_sharing : String → MediaSession → MediaSession
unfolding create_peer_connection
start_sharing uuid s = elim s.configuration [
  | none ↦ s
  | some _ ↦
      let shown = publish capturing "Starting screen and system-audio capture..." none true s in
      let made = create_peer_connection (record shown { generation = some uuid }) in
      wait (choosing_screen shown.next_connection) made
]

unfoldable pub stop_media_resources : MediaSession → MediaSession
stop_media_resources s = record s {
  restart_timer = false;
  metrics_timer = false;
  peer_connection = none;
  local_stream = none;
  remote_stream = none;
  pending_candidates = [];
  pending_local_signals = [];
  local_description_announced = false;
  effects = stop_old s.local_stream (close_old s.peer_connection s.effects);
}

unfoldable pub stop : MediaSession → MediaSession
unfolding stop_media_resources
stop s =
    if is_no_role s.role && is_none s.peer_connection
    then s
    else publish idle "Connect to another PC to begin streaming." none false
        (record (stop_media_resources s) {
          role = LocalMediaRole.none;
          configuration = none;
          generation = none;
          pending_signals = [];
          last_presentation = none;
        })

-- One candidate is handed to the connection; an absent one is skipped.
unfoldable pub add_candidates : ℕ → List MediaSignal → Next → MediaSession → MediaSession
add_candidates c [] nothing s = s
add_candidates c [] (create_answer d generation) s = wait (creating_answer d generation) s
add_candidates c [] (configure_senders d) s = s
add_candidates c (signal ∷ rest) next s = elim signal.candidate [
  | none ↦ add_candidates c rest next s
  | some _ ↦ wait (adding c rest next) (emit (candidate_added c signal) s)
]

unfoldable pub flush_pending_candidates : Next → MediaSession → MediaSession
unfolding add_candidates require_connection
flush_pending_candidates next =
    require_connection
      λ c s. add_candidates c s.pending_candidates next (record s { pending_candidates = [] })

abbrev pub renewed : String → MediaSession → MediaSession
renewed generation s =
    if same_generation s.generation generation
    then s
    else create_peer_connection (record s { generation = some generation; pending_candidates = [] })

unfoldable pub consume_signal : MediaSignal → MediaSession → MediaSession
unfolding create_peer_connection require_connection
consume_signal signal s = elim signal.kind [
  | offer ↦
      if not (is_viewer s.role) || is_none signal.sdp
      then s
      else require_connection (λ c t. wait (setting_remote_offer c signal.generation) t)
          (renewed signal.generation s)
  | answer ↦
      if not (same_generation s.generation signal.generation)
      then s
      else if is_sharer s.role && not (is_none signal.sdp)
      then require_connection (λ c t. wait (setting_remote_answer c) t) s
      else s
  | ice_candidate ↦
      if not (same_generation s.generation signal.generation)
      then s
      else require_connection
          (λ c t.
            if among c t.described
            then add_candidates c (signal ∷ []) nothing t
            else record t { pending_candidates = t.pending_candidates ++ signal ∷ [] })
          s
  | ice_complete ↦ s
]

unfoldable pub receive_signal : MediaSignal → MediaSession → MediaSession
unfolding consume_signal
receive_signal signal s =
    if is_no_role s.role
    then record s { pending_signals = s.pending_signals ++ signal ∷ [] }
    else consume_signal signal s

unfoldable pub receive_signals : List MediaSignal → MediaSession → MediaSession
unfolding receive_signal
receive_signals [] s = s
receive_signals (signal ∷ rest) s = receive_signals rest (receive_signal signal s)

unfoldable pub flush_pending_signals : MediaSession → MediaSession
unfolding receive_signals
flush_pending_signals s = receive_signals s.pending_signals (record s { pending_signals = [] })

unfoldable pub synchronize :
    String → ActiveConnectionDescriptor → StreamingConfiguration → MediaSession → MediaSession
unfolding stop stop_media_resources create_peer_connection flush_pending_signals start_sharing
synchronize uuid connection configuration s =
    let begun : MediaSession = record (stop_media_resources s) {
      last_presentation = none;
      role = connection.role;
      configuration = some configuration;
    } in
    if not (is_connected_state connection.state) || is_no_role connection.role
    then stop s
    else if same_role s.role connection.role && not (is_none s.configuration)
    then record s { configuration = some configuration }
    else if is_viewer connection.role
    then flush_pending_signals (
        publish negotiating "Waiting for the shared screen..." none false
          (create_peer_connection begun))
    else start_sharing uuid begun

unfoldable pub install : MediaSession → MediaSession
install s = record s { subscribed = true }

unfoldable pub dispose : MediaSession → MediaSession
unfolding stop
dispose s = stop (record s { subscribed = false })
