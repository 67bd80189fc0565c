-- ===== src/WebRtc/Events.antt =====
-- All that can happen to `WebRtcMediaSession`.
use istream.Prelude.Lists.{take_out}
use istream.Prelude.{ℕ, String, true, false, Option, none, some, List, [], ◌∷◌, if◌then◌else◌}
use istream.Contracts.Connectivity.{ActiveConnectionDescriptor}
use istream.Contracts.Media.{MediaSignal, IceCandidateDescriptor}
use istream.Contracts.Streaming.{StreamingConfiguration}
use istream.WebRtc.State.{MediaSession}
use istream.WebRtc.Signals.{install, synchronize, dispose, receive_signal, send_offer}
use istream.WebRtc.Connection.{
  on_ice_candidate, on_track, RtcPeerConnectionState, handle_connection_state, collect_metrics,
}
use istream.WebRtc.Tasks.{Outcome, proceed}

pub data MediaEvent : Type 0 where
  installs : MediaEvent
  synchronizes : ActiveConnectionDescriptor → StreamingConfiguration → MediaEvent
  disposes : MediaEvent
  receives : MediaSignal → MediaEvent
  finds_candidate : Option IceCandidateDescriptor → MediaEvent
  gets_track : (stream : Option ℕ) → MediaEvent
  changes_state : RtcPeerConnectionState → MediaEvent
  restart_fires metrics_fire : MediaEvent
  -- The wait of the `n`th task ends.
  resumes : (n : ℕ) → Outcome → MediaEvent

-- Each event comes with the next random identifier; a timer fires only while it is set.
unfoldable pub step : MediaEvent × String → MediaSession → MediaSession
step (installs, uuid) s = install s
step (synchronizes connection configuration, uuid) s = synchronize uuid connection configuration s
step (disposes, uuid) s = dispose s
step (receives signal, uuid) s = if s.subscribed then receive_signal signal s else s
step (finds_candidate candidate, uuid) s = on_ice_candidate candidate s
step (gets_track stream, uuid) s = on_track stream s
step (changes_state state, uuid) s = handle_connection_state state s
step (restart_fires, uuid) s =
    if s.restart_timer then send_offer true uuid (record s { restart_timer = false }) else s
step (metrics_fire, uuid) s = if s.metrics_timer then collect_metrics s else s
step (resumes n outcome, uuid) s = elim (take_out n s.tasks) [
  | none ↦ s
  | some (task, rest) ↦ proceed task outcome (record s { tasks = rest })
]

-- The first event first.
unfoldable pub run : List (MediaEvent × String) → MediaSession → MediaSession
unfolding step
run [] s = s
run (e ∷ es) s = run es (step e s)
