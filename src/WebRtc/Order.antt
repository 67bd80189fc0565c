-- ===== src/WebRtc/Order.antt =====
-- The order of what is sent, under every event and in every run.
use istream.Prelude.Lists.{take_out}
use istream.Prelude.{
  String, true, false, Option, none, some, List, [], ◌∷◌, refl, arith, Option-cases, inl, inr,
}
use istream.Contracts.Connectivity.{ActiveConnectionDescriptor}
use istream.Contracts.Media.{MediaSignal, IceCandidateDescriptor}
use istream.Contracts.Streaming.{StreamingConfiguration}
use istream.WebRtc.State.{MediaSession, sending_local, collecting, publish, negotiating}
use istream.WebRtc.Signals.{
  create_peer_connection, flush_pending_signals, synchronize, dispose, install,
  stop_media_resources,
}
use istream.WebRtc.Connection.{
  send_or_queue_local_signal, on_ice_candidate, on_track, collect_metrics, start_metrics_collection,
  handle_connection_state, RtcPeerConnectionState, is_up, is_disconnected, is_failed, is_other,
}
use istream.WebRtc.Events.{
  MediaEvent, installs, synchronizes, disposes, receives, finds_candidate, gets_track,
  changes_state, restart_fires, metrics_fire, resumes, step, run,
}
use istream.WebRtc.Described.{
  Announced, any_late-append, any_late-take_out, wait-Announced, publish-Announced,
  create-Announced, send_offer-Announced, start_sharing-Announced, stop_media-Announced,
  stop-Announced,
}
use istream.WebRtc.Announced.{
  proceed-Announced, receive_signal-Announced, receive_signals-Announced,
}

begun-Announced :
    (connection : ActiveConnectionDescriptor) (g : StreamingConfiguration) (s : MediaSession)
    → Announced s
    → Announced (record (stop_media_resources s) {
      last_presentation = none;
      role = connection.role;
      configuration = some g;
    })
begun-Announced connection g s v = ground (arith, stop_media-Announced s v)

taken-Announced : (s : MediaSession) → Announced s → Announced (record s { pending_signals = [] })
taken-Announced s v = ground arith

synchronize-Announced :
    (uuid : String) (connection : ActiveConnectionDescriptor) (g : StreamingConfiguration)
    (s : MediaSession)
    → Announced s
    → Announced (synchronize uuid connection g s)
unfolding synchronize flush_pending_signals
synchronize-Announced uuid connection g s v =
    let begun : MediaSession = record (stop_media_resources s) {
      last_presentation = none;
      role = connection.role;
      configuration = some g;
    } in
    let b : Announced begun = begun-Announced connection g s v in
    let shown =
      publish negotiating "Waiting for the shared screen..." none false
        (create_peer_connection begun) in
    let w : Announced shown = publish-Announced _ _ _ _ _ (create-Announced begun b) in
    ground (
      arith,
      stop-Announced s v,
      start_sharing-Announced uuid begun b,
      receive_signals-Announced shown.pending_signals (record shown { pending_signals = [] })
          (taken-Announced shown w),
    )

send_or_queue-Announced :
    (m : MediaSignal) (s : MediaSession) → Announced s → Announced (send_or_queue_local_signal m s)
unfolding send_or_queue_local_signal
send_or_queue-Announced m s v = ground (arith, any_late-append s.tasks sending_local)

on_ice_candidate-Announced :
    (c : Option IceCandidateDescriptor) (s : MediaSession)
    → Announced s
    → Announced (on_ice_candidate c s)
unfolding on_ice_candidate
on_ice_candidate-Announced c s v = grind (arith, send_or_queue-Announced)

collect_metrics-Announced : (s : MediaSession) → Announced s → Announced (collect_metrics s)
unfolding collect_metrics
collect_metrics-Announced s v = ground (arith, wait-Announced collecting s refl v)

handle_state-Announced :
    (x : RtcPeerConnectionState) (s : MediaSession)
    → Announced s
    → Announced (handle_connection_state x s)
unfolding handle_connection_state start_metrics_collection collect_metrics publish
handle_state-Announced is_up s v = ground (arith, any_late-append s.tasks collecting)
handle_state-Announced is_disconnected s v = ground arith
handle_state-Announced is_failed s v = ground arith
handle_state-Announced is_other s v = v

pub step-Announced :
    (e : MediaEvent × String) (s : MediaSession) → Announced s → Announced (step e s)
unfolding step install dispose on_track
step-Announced (installs, uuid) s v = ground arith
step-Announced (synchronizes connection g, uuid) s v = synchronize-Announced uuid connection g s v
step-Announced (disposes, uuid) s v =
    let t : MediaSession = record s { subscribed = false } in stop-Announced t (ground arith)
step-Announced (receives m, uuid) s v = ground (arith, receive_signal-Announced m s v)
step-Announced (finds_candidate c, uuid) s v = on_ice_candidate-Announced c s v
step-Announced (gets_track none, uuid) s v = v
step-Announced (gets_track (some stream), uuid) s v = publish-Announced _ _ _ _ _ (ground arith)
step-Announced (changes_state x, uuid) s v = handle_state-Announced x s v
step-Announced (restart_fires, uuid) s v =
    let t : MediaSession = record s { restart_timer = false } in
    ground (arith, send_offer-Announced true uuid t (ground arith))
step-Announced (metrics_fire, uuid) s v = ground (arith, collect_metrics-Announced s v)
step-Announced (resumes n o, uuid) s v = elim (Option-cases (take_out n s.tasks)) [
  | inl e ↦ rw (step, e) v
  | inr ((t, rest), e) ↦
      let ready = any_late-take_out n s.tasks t rest e in
      rw (step, e)
        (proceed-Announced t o (record s { tasks = rest }) (ground (arith, ready, v.ready))
          (ground (arith, ready, v.ready, v.ordered)))
]

pub run-Announced :
    (es : List (MediaEvent × String)) (s : MediaSession) → Announced s → Announced (run es s)
unfolding run
run-Announced [] s v = v
run-Announced (e ∷ es) s v = run-Announced es (step e s) (step-Announced e s v)
