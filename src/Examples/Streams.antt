-- ===== src/Examples/Streams.antt =====
-- The window's media session at work, and what the theorems on it state.
use istream.Prelude.Lists.{take_out}
use istream.Prelude.{String, true, none, some, List, [], ◌∷◌, ◌≡◌, refl}
use istream.Contracts.Connectivity.{
  ActiveConnectionDescriptor, LocalMediaRole, sharer, connected, idle,
}
use istream.Contracts.Streaming.{stable_gaming}
use istream.WebRtc.State.{MediaSession, dom_exception, new_media_session, publish}
use istream.WebRtc.Signals.{
  is_no_role, synchronize, start_sharing, create_peer_connection, stop_media_resources,
}
use istream.WebRtc.Tasks.{chosen, described_as, done}
use istream.WebRtc.Events.{
  MediaEvent, installs, synchronizes, disposes, resumes, finds_candidate, step,
}
use istream.Contracts.Media.{ice_complete_signal}
use istream.WebRtc.Capture.{stop-keeps_stream}

abbrev connection_in : ActiveConnectionDescriptor
connection_in = record {
  state = connected;
  peer = none;
  role = sharer;
  round_trip_time_ms = none;
  connected_at = some 1000;
  error = none;
}

abbrev no_connection : ActiveConnectionDescriptor
no_connection = record connection_in {
  state = idle;
  role = LocalMediaRole.none;
  connected_at = none;
}

-- The user shares the screen; the browser finds a candidate before the offer is sent, and another
-- one after.
abbrev sharing_run : List (MediaEvent × String)
sharing_run =
    (installs, "u0")
    ∷ (synchronizes connection_in stable_gaming, "g1")
    ∷ (resumes 0 (chosen 7 none), "u2")
    ∷ (resumes 0 (described_as "sdp"), "u3")
    ∷ (
      finds_candidate (some (record { candidate = "c1"; sdp_mid = none; sdp_m_line_index = none })),
      "u4",
    )
    ∷ (resumes 0 (described_as "sdp"), "u5")
    ∷ (resumes 0 done, "u6")
    ∷ (finds_candidate none, "u7")
    ∷ []

-- A session that had a connection before, with an announced description and a queued candidate.
abbrev announced_before : MediaSession
announced_before = record new_media_session {
  subscribed = true;
  local_description_announced = true;
  pending_local_signals = ice_complete_signal "g0" ∷ [];
  next_connection = 1;
}

-- The session waits for the user to choose a screen.
choosing : MediaSession
unfolding synchronize start_sharing create_peer_connection stop_media_resources publish
    new_media_session stable_gaming
choosing = synchronize "g1" connection_in stable_gaming new_media_session

stop-keeps_stream_example :
    let ended = step (synchronizes no_connection stable_gaming, "u1") choosing in
    let captured =
      step (resumes 0 (chosen 7 (some (dom_exception "InvalidStateError"))), "u1") ended in
    (captured.local_stream ≡ some 7)
    × (is_no_role captured.role ≡ true)
    × (step (synchronizes no_connection stable_gaming, "u1") captured ≡ captured)
    × ((step (disposes, "u1") captured).local_stream ≡ some 7)
unfolding choosing take_out
stop-keeps_stream_example =
    stop-keeps_stream 0 7 0 [] "u1" (dom_exception "InvalidStateError") no_connection stable_gaming
      choosing refl refl refl
