-- ===== src/WebRtc/Connection.antt =====
-- What the browser's connection reports to `WebRtcMediaSession` in
-- src/renderer/src/media/WebRtcMediaSession.ts: candidates, tracks and the states of the connection.
use istream.Prelude.{
  ℕ, true, false, not, ◌&&◌, ◌||◌, Option, none, some, [], ◌∷◌, ◌++◌, is_none, if◌then◌else◌,
}
use istream.Contracts.Media.{
  MediaSignal, IceCandidateDescriptor, ice_candidate_signal, ice_complete_signal,
}
use istream.WebRtc.State.{
  MediaSession, sending_local, collecting, sent, streaming, reconnecting, emit, publish,
}
use istream.WebRtc.Signals.{wait, is_no_role, is_sharer}

unfoldable pub send_or_queue_local_signal : MediaSignal → MediaSession → MediaSession
send_or_queue_local_signal signal s =
    if not s.local_description_announced
    then record s { pending_local_signals = s.pending_local_signals ++ signal ∷ [] }
    else wait sending_local (emit (sent signal) s)

-- The browser finds a candidate of a connection, or has no more.
unfoldable pub on_ice_candidate : Option IceCandidateDescriptor → MediaSession → MediaSession
unfolding send_or_queue_local_signal ice_candidate_signal ice_complete_signal
on_ice_candidate candidate s = elim s.generation [
  | none ↦ s
  | some generation ↦
      send_or_queue_local_signal
        (elim candidate [
          | none ↦ ice_complete_signal generation
          | some c ↦ ice_candidate_signal generation c
        ])
        s
]

unfoldable pub on_track : Option ℕ → MediaSession → MediaSession
on_track none s = s
on_track (some stream) s =
    publish streaming "Receiving HD video and system audio." (some stream) false
      (record s { remote_stream = some stream })

-- The states of a connection that the session looks at.
pub data RtcPeerConnectionState : Type 0 where
  is_up is_disconnected is_failed is_other : RtcPeerConnectionState

-- `collectMetrics` up to its `await`, for a connection that is not closed.
unfoldable pub collect_metrics : MediaSession → MediaSession
collect_metrics s = if is_none s.peer_connection || is_no_role s.role then s else wait collecting s

unfoldable pub start_metrics_collection : MediaSession → MediaSession
unfolding collect_metrics
start_metrics_collection s =
    if s.metrics_timer then s else record (collect_metrics s) { metrics_timer = true }

abbrev interrupted : MediaSession → MediaSession
interrupted s =
    let shown =
      publish reconnecting "The media path was interrupted. Reconnecting..." s.remote_stream false
        s in
    if is_sharer s.role && not s.restart_timer then record shown { restart_timer = true } else shown

unfoldable pub handle_connection_state : RtcPeerConnectionState → MediaSession → MediaSession
unfolding start_metrics_collection
handle_connection_state is_up s = start_metrics_collection (
    publish streaming "HD video and system audio are connected."
      (if is_sharer s.role then s.local_stream else s.remote_stream) (is_sharer s.role) s)
handle_connection_state is_disconnected s = interrupted s
handle_connection_state is_failed s = interrupted s
handle_connection_state is_other s = s
