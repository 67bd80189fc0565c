-- ===== src/WebRtc/State.antt =====
-- The fields of `WebRtcMediaSession`, the tasks that wait for the browser, and what the session does
-- to the objects around it as a list of effects, latest first.
use istream.Prelude.{
  ℕ, String, Bool, false, Option, none, some, List, [], ◌∷◌, str_eq, if◌then◌else◌, ◌||◌,
}
use istream.Contracts.Connectivity.{LocalMediaRole}
use istream.Contracts.Media.{MediaSignal, MediaMetricSample}
use istream.Contracts.Streaming.{StreamingConfiguration, VideoCodec}

pub data RendererMediaState : Type 0 where
  idle capturing negotiating streaming reconnecting failed : RendererMediaState

-- A stream of the browser is known by its number.
pub record RendererMediaPresentation : Type 0 where
  pub state : RendererMediaState
  pub detail : String
  pub stream : Option ℕ
  pub muted : Bool
  pub metrics : Option MediaMetricSample

-- What follows when all candidates are added, and when all local signals are sent.
pub data Next : Type 0 where
  create_answer : (connection : ℕ) (generation : String) → Next
  configure_senders : (connection : ℕ) → Next
  nothing : Next

-- An asynchronous method at one of its waits: for the user's screen, for a call on a connection, or
-- for a signal to be handed over.
pub data Task : Type 0 where
  choosing_screen : (connection : ℕ) → Task
  creating_offer setting_offer : (connection : ℕ) (generation : String) → Task
  sending_offer : (connection : ℕ) → Task
  setting_remote_offer : (connection : ℕ) (generation : String) → Task
  setting_remote_answer : (connection : ℕ) → Task
  adding : (connection : ℕ) → List MediaSignal → Next → Task
  creating_answer setting_answer : (connection : ℕ) (generation : String) → Task
  sending_answer : Task
  flushing : List MediaSignal → Next → Task
  sending_local : Task
  collecting : Task

-- `offering` is the flag `iceRestart` of `createOffer`; `stopped` stops all tracks of a stream.
pub data Effect : Type 0 where
  sent : MediaSignal → Effect
  shown : RendererMediaPresentation → Effect
  closed : (connection : ℕ) → Effect
  stopped : (stream : ℕ) → Effect
  tracks_added : (connection stream : ℕ) → Effect
  codec_preferred : (connection : ℕ) → VideoCodec → Effect
  candidate_added : (connection : ℕ) → MediaSignal → Effect
  offering : (connection : ℕ) (ice_restart : Bool) → Effect
  senders_configured : (connection : ℕ) → StreamingConfiguration → Effect
  reported : MediaMetricSample → Effect

pub record MediaSession : Type 0 where
  pub pending_signals : List MediaSignal
  pub pending_candidates : List MediaSignal
  pub pending_local_signals : List MediaSignal
  pub peer_connection : Option ℕ
  pub local_stream : Option ℕ
  pub remote_stream : Option ℕ
  pub role : LocalMediaRole
  pub generation : Option String
  pub configuration : Option StreamingConfiguration
  pub subscribed : Bool
  pub restart_timer : Bool
  pub local_description_announced : Bool
  pub metrics_timer : Bool
  pub last_presentation : Option RendererMediaPresentation
  -- The number of the next connection, and those with a remote description.
  pub next_connection : ℕ
  pub described : List ℕ
  -- The tasks that wait, the earliest first.
  pub tasks : List Task
  pub effects : List Effect

unfoldable pub new_media_session : MediaSession
new_media_session = record {
  pending_signals = [];
  pending_candidates = [];
  pending_local_signals = [];
  peer_connection = none;
  local_stream = none;
  remote_stream = none;
  role = LocalMediaRole.none;
  generation = none;
  configuration = none;
  subscribed = false;
  restart_timer = false;
  local_description_announced = false;
  metrics_timer = false;
  last_presentation = none;
  next_connection = 0;
  described = [];
  tasks = [];
  effects = [];
}

-- What a rejected promise of the browser is rejected with.
pub data MediaError : Type 0 where
  type_error : MediaError
  dom_exception : (name : String) → MediaError
  other_error : MediaError

unfoldable pub failure_detail : MediaError → String
failure_detail type_error =
    "The saved video settings could not be applied. Restore the Gaming preset and reconnect."
failure_detail (dom_exception name) =
    if str_eq name "NotAllowedError"
    then "Screen capture was not allowed. Disconnect and reconnect to try again."
    else if str_eq name "NotFoundError" || str_eq name "NotReadableError"
    then "Windows could not capture the selected screen or system audio. Close other capture software and reconnect."
    else if str_eq name "InvalidStateError"
    then "Screen capture could not start automatically. Disconnect, then connect again from this window."
    else if str_eq name "OperationError"
    then "The PCs could not negotiate a compatible video encoder. Select H.264 on both PCs and reconnect."
    else "The media path could not start. Install the same latest IStream version on both PCs and reconnect."
failure_detail other_error =
    "The media path could not start. Install the same latest IStream version on both PCs and reconnect."

abbrev pub emit : Effect → MediaSession → MediaSession
emit e s = record s { effects = e ∷ s.effects }

abbrev metrics_of : Option RendererMediaPresentation → Option MediaMetricSample
metrics_of none = none
metrics_of (some shown_last) = shown_last.metrics

unfoldable pub publish : RendererMediaState → String → Option ℕ → Bool → MediaSession → MediaSession
publish state detail stream muted s =
    let presentation : RendererMediaPresentation = record {
      state = state;
      detail = detail;
      stream = stream;
      muted = muted;
      metrics = metrics_of s.last_presentation;
    } in
    record s { last_presentation = some presentation; effects = shown presentation ∷ s.effects }

-- `fail`, but for the line on the console.
unfoldable pub fail : MediaError → MediaSession → MediaSession
unfolding publish failure_detail
fail error s = publish failed (failure_detail error) s.remote_stream false s
