-- ===== src/WebRtc/Capture.antt =====
-- The capture of the screen when the connection ends before the user has chosen a screen.
use istream.Prelude.Lists.{take_out}
use istream.Prelude.{ℕ, String, true, false, some, List, ◌≡◌, arith}
use istream.Contracts.Connectivity.{ActiveConnectionDescriptor}
use istream.Contracts.Streaming.{StreamingConfiguration}
use istream.WebRtc.State.{MediaSession, Task, choosing_screen, MediaError, publish, fail}
use istream.WebRtc.Signals.{
  is_no_role, is_connected_state, synchronize, stop, stop_media_resources, dispose,
}
use istream.WebRtc.Tasks.{share_screen, proceed, succeed, chosen}
use istream.WebRtc.Events.{synchronizes, resumes, disposes, step}

-- If the connection ends while a session waits for the user to choose a screen, and the user then
-- chooses one, whose tracks the closed connection refuses, the session holds the captured stream
-- without a role and without a connection; and neither a further end of the connection nor the
-- disposal of the session stops the stream.
pub stop-keeps_stream :
    (c stream n : ℕ) (rest : List Task) (uuid : String) (error : MediaError)
    (connection : ActiveConnectionDescriptor) (configuration : StreamingConfiguration)
    (s : MediaSession)
    → is_no_role s.role ≡ false
    → is_connected_state connection.state ≡ false
    → take_out n s.tasks ≡ some (choosing_screen c, rest)
    → let ended = step (synchronizes connection configuration, uuid) s in
      let captured = step (resumes n (chosen stream (some error)), uuid) ended in
      (captured.local_stream ≡ some stream)
      × (is_no_role captured.role ≡ true)
      × (step (synchronizes connection configuration, uuid) captured ≡ captured)
      × ((step (disposes, uuid) captured).local_stream ≡ some stream)
unfolding step synchronize stop stop_media_resources dispose proceed succeed share_screen fail
    publish
stop-keeps_stream c stream n rest uuid error connection configuration s live off waits =
    ground (arith, live, off, waits)
