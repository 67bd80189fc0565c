-- ===== src/Contracts/Streaming.antt =====
-- src/shared/StreamingConfigurationContracts.ts: the settings of a stream and their defaults.
use istream.Prelude.{ℕ, String, Bool, true, false, List, [], ◌∷◌}
use istream.Contracts.Diagnostics.{Number, int}

pub data StreamingPreset : Type 0 where
  gaming desktop : StreamingPreset

pub data VideoCodec : Type 0 where
  h264 hevc : VideoCodec

pub data HdrMode : Type 0 where
  off automatic : HdrMode

pub data CapacityFloorMode : Type 0 where
  freeze_and_reconnect_at_hd allow_below_hd : CapacityFloorMode

pub record StreamingConfiguration : Type 0 where
  pub preset : StreamingPreset
  pub codec : VideoCodec
  pub target_width : ℕ
  pub target_height : ℕ
  pub target_frames_per_second : ℕ
  pub minimum_frames_per_second : ℕ
  pub maximum_bitrate_mbps : Number
  pub hdr_mode : HdrMode
  pub capacity_floor_mode : CapacityFloorMode
  pub input_enabled : Bool
  pub application_safety_lock_enabled : Bool
  pub protected_applications : List String

unfoldable pub stable_gaming : StreamingConfiguration
stable_gaming = record {
  preset = gaming;
  codec = h264;
  target_width = 1920;
  target_height = 1080;
  target_frames_per_second = 60;
  minimum_frames_per_second = 30;
  maximum_bitrate_mbps = int 35;
  hdr_mode = off;
  capacity_floor_mode = freeze_and_reconnect_at_hd;
  input_enabled = false;
  application_safety_lock_enabled = true;
  protected_applications = "League of Legends.exe" ∷ "LeagueClientUx.exe" ∷ [];
}
