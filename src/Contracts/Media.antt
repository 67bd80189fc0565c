-- ===== src/Contracts/Media.antt =====
-- src/shared/MediaContracts.ts: the signals that set up the video stream, and their factory.
use istream.Prelude.{ℕ, String, Option, none, some}
use istream.Contracts.Connectivity.{LocalMediaRole}
use istream.Contracts.Diagnostics.{Number}

pub data MediaSignalKind : Type 0 where
  offer answer ice_candidate ice_complete : MediaSignalKind

pub record MediaSignal : Type 0 where
  pub generation : String
  pub kind : MediaSignalKind
  pub sdp : Option String
  pub candidate : Option String
  pub sdp_mid : Option String
  pub sdp_m_line_index : Option ℕ

pub record IceCandidateDescriptor : Type 0 where
  pub candidate : String
  pub sdp_mid : Option String
  pub sdp_m_line_index : Option ℕ

-- Numbers that the browser measures; an absent one is `null`.
pub record MediaMetricSample : Type 0 where
  pub timestamp : Number
  pub role : LocalMediaRole
  pub connection_state : String
  pub video_width : Option Number
  pub video_height : Option Number
  pub frames_per_second : Option Number
  pub video_bitrate_mbps : Option Number
  pub audio_bitrate_kbps : Option Number
  pub packet_loss_percent : Option Number
  pub packets_lost : Option Number
  pub jitter_ms : Option Number
  pub jitter_buffer_delay_ms : Option Number
  pub media_round_trip_time_ms : Option Number
  pub encode_time_ms_per_frame : Option Number
  pub decode_time_ms_per_frame : Option Number
  pub estimated_image_delay_ms : Option Number
  pub frames_dropped : Option Number
  pub freeze_count : Option Number
  pub codec : Option String
  pub encoder_implementation : Option String
  pub decoder_implementation : Option String
  pub quality_limitation_reason : Option String

unfoldable pub session_description : String → MediaSignalKind → String → MediaSignal
session_description generation kind sdp = record {
  generation = generation;
  kind = kind;
  sdp = some sdp;
  candidate = none;
  sdp_mid = none;
  sdp_m_line_index = none;
}

unfoldable pub ice_candidate_signal : String → IceCandidateDescriptor → MediaSignal
ice_candidate_signal generation c = record {
  generation = generation;
  kind = ice_candidate;
  sdp = none;
  candidate = some c.candidate;
  sdp_mid = c.sdp_mid;
  sdp_m_line_index = c.sdp_m_line_index;
}

unfoldable pub ice_complete_signal : String → MediaSignal
ice_complete_signal generation = record {
  generation = generation;
  kind = ice_complete;
  sdp = none;
  candidate = none;
  sdp_mid = none;
  sdp_m_line_index = none;
}
