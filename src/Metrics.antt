-- ===== src/Metrics.antt =====
-- `MediaMetricSampleValidator` of src/main/media/MediaMetricSampleValidator.ts, and the values of the
-- diagnostic record that `ConnectivityFacade.reportMediaMetrics` makes of a sample.
use istream.Prelude.{
  ℕ, ◌+◌, ◌-◌, String, Bool, not, ◌||◌, Option, none, some, List, [], ◌∷◌, if◌then◌else◌, Result,
  ok, thrown, str_eq,
}
use istream.Contracts.Connectivity.{LocalMediaRole, viewer, sharer}
use istream.Contracts.Diagnostics as D
use istream.Contracts.Diagnostics.{Number, DiagnosticValue}
use istream.Contracts.Media.{MediaMetricSample}
use istream.Values.{
  Json, Fields, get, record_or_throw, as_text, as_number, is_null, is_finite, number_below,
  number_above, max_safe_integer, fits,
}

-- A row of readings, of which the first that throws makes the whole throw.
infixl 5 ◌>>=◌
abbrev ◌>>=◌ {ℓ κ} : {A : Type ℓ} {B : Type κ} → Result A → (A → Result B) → Result B
ok a >>= f = f a
thrown e >>= f = thrown e

abbrev out_of : ℕ → ℕ → Number → Bool
out_of minimum maximum n = not (is_finite n) || number_below n minimum || number_above n maximum

unfoldable pub number_within : ℕ → ℕ → Option Json → Result Number
number_within minimum maximum v = elim (as_number v) [
  | none ↦ thrown "Invalid numeric media metric."
  | some n ↦ if out_of minimum maximum n then thrown "Invalid numeric media metric." else ok n
]

abbrev optional {ℓ} : {A : Type ℓ} → Result A → Result (Option A)
optional (ok a) = ok (some a)
optional (thrown e) = thrown e

unfoldable pub nullable_number : ℕ → ℕ → Option Json → Result (Option Number)
unfolding number_within
nullable_number minimum maximum v =
    if is_null v then ok none else optional (number_within minimum maximum v)

unfoldable pub text_within : ℕ → Option Json → Result String
text_within most v = elim (as_text v) [
  | none ↦ thrown "Invalid text media metric."
  | some s ↦ if fits most s then ok s else thrown "Invalid text media metric."
]

unfoldable pub nullable_text : ℕ → Option Json → Result (Option String)
unfolding text_within
nullable_text most v = if is_null v then ok none else optional (text_within most v)

unfoldable pub media_role : Option Json → Result LocalMediaRole
media_role v = elim (as_text v) [
  | none ↦ thrown "Invalid media metric role."
  | some s ↦
      if str_eq s "viewer"
      then ok viewer
      else if str_eq s "sharer"
      then ok sharer
      else thrown "Invalid media metric role."
]

-- `now` is the clock's reading, later than a minute after the clock's start.
unfoldable pub sample_of : ℕ → Fields → Result MediaMetricSample
unfolding number_within nullable_number text_within nullable_text media_role
sample_of now c = do
  timestamp ← number_within (now - 60000) (now + 60000) (get "timestamp" c)
  role ← media_role (get "role" c)
  connection_state ← text_within 32 (get "connectionState" c)
  video_width ← nullable_number 0 16384 (get "videoWidth" c)
  video_height ← nullable_number 0 16384 (get "videoHeight" c)
  frames_per_second ← nullable_number 0 1000 (get "framesPerSecond" c)
  video_bitrate_mbps ← nullable_number 0 10000 (get "videoBitrateMbps" c)
  audio_bitrate_kbps ← nullable_number 0 100000 (get "audioBitrateKbps" c)
  packet_loss_percent ← nullable_number 0 100 (get "packetLossPercent" c)
  packets_lost ← nullable_number 0 max_safe_integer (get "packetsLost" c)
  jitter_ms ← nullable_number 0 60000 (get "jitterMs" c)
  jitter_buffer_delay_ms ← nullable_number 0 60000 (get "jitterBufferDelayMs" c)
  media_round_trip_time_ms ← nullable_number 0 60000 (get "mediaRoundTripTimeMs" c)
  encode_time_ms_per_frame ← nullable_number 0 60000 (get "encodeTimeMsPerFrame" c)
  decode_time_ms_per_frame ← nullable_number 0 60000 (get "decodeTimeMsPerFrame" c)
  estimated_image_delay_ms ← nullable_number 0 120000 (get "estimatedImageDelayMs" c)
  frames_dropped ← nullable_number 0 max_safe_integer (get "framesDropped" c)
  freeze_count ← nullable_number 0 max_safe_integer (get "freezeCount" c)
  codec ← nullable_text 128 (get "codec" c)
  encoder_implementation ← nullable_text 128 (get "encoderImplementation" c)
  decoder_implementation ← nullable_text 128 (get "decoderImplementation" c)
  quality_limitation_reason ← nullable_text 64 (get "qualityLimitationReason" c)
  ok (record {
    timestamp = timestamp;
    role = role;
    connection_state = connection_state;
    video_width = video_width;
    video_height = video_height;
    frames_per_second = frames_per_second;
    video_bitrate_mbps = video_bitrate_mbps;
    audio_bitrate_kbps = audio_bitrate_kbps;
    packet_loss_percent = packet_loss_percent;
    packets_lost = packets_lost;
    jitter_ms = jitter_ms;
    jitter_buffer_delay_ms = jitter_buffer_delay_ms;
    media_round_trip_time_ms = media_round_trip_time_ms;
    encode_time_ms_per_frame = encode_time_ms_per_frame;
    decode_time_ms_per_frame = decode_time_ms_per_frame;
    estimated_image_delay_ms = estimated_image_delay_ms;
    frames_dropped = frames_dropped;
    freeze_count = freeze_count;
    codec = codec;
    encoder_implementation = encoder_implementation;
    decoder_implementation = decoder_implementation;
    quality_limitation_reason = quality_limitation_reason;
  })

-- `MediaMetricSampleValidator.validate`
unfoldable pub validate : ℕ → Json → Result MediaMetricSample
unfolding sample_of record_or_throw
validate now value = do c ← record_or_throw "Invalid media metric sample." value; sample_of now c

abbrev role_value : LocalMediaRole → DiagnosticValue
role_value viewer = D.text "viewer"
role_value sharer = D.text "sharer"
role_value LocalMediaRole.none = D.text "none"

abbrev number_value : Option Number → DiagnosticValue
number_value none = D.absent
number_value (some n) = D.number n

abbrev text_value : Option String → DiagnosticValue
text_value none = D.absent
text_value (some s) = D.text s

-- `{ ...sample }`
unfoldable pub values_of : MediaMetricSample → List (String × DiagnosticValue)
values_of m =
    ("timestamp", D.number m.timestamp)
    ∷ ("role", role_value m.role)
    ∷ ("connectionState", D.text m.connection_state)
    ∷ ("videoWidth", number_value m.video_width)
    ∷ ("videoHeight", number_value m.video_height)
    ∷ ("framesPerSecond", number_value m.frames_per_second)
    ∷ ("videoBitrateMbps", number_value m.video_bitrate_mbps)
    ∷ ("audioBitrateKbps", number_value m.audio_bitrate_kbps)
    ∷ ("packetLossPercent", number_value m.packet_loss_percent)
    ∷ ("packetsLost", number_value m.packets_lost)
    ∷ ("jitterMs", number_value m.jitter_ms)
    ∷ ("jitterBufferDelayMs", number_value m.jitter_buffer_delay_ms)
    ∷ ("mediaRoundTripTimeMs", number_value m.media_round_trip_time_ms)
    ∷ ("encodeTimeMsPerFrame", number_value m.encode_time_ms_per_frame)
    ∷ ("decodeTimeMsPerFrame", number_value m.decode_time_ms_per_frame)
    ∷ ("estimatedImageDelayMs", number_value m.estimated_image_delay_ms)
    ∷ ("framesDropped", number_value m.frames_dropped)
    ∷ ("freezeCount", number_value m.freeze_count)
    ∷ ("codec", text_value m.codec)
    ∷ ("encoderImplementation", text_value m.encoder_implementation)
    ∷ ("decoderImplementation", text_value m.decoder_implementation)
    ∷ ("qualityLimitationReason", text_value m.quality_limitation_reason)
    ∷ []
