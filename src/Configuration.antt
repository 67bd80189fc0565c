-- ===== src/Configuration.antt =====
-- `StreamConfigurationService` of src/main/configuration/StreamConfigurationService.ts: the settings
-- of the streams in memory and in their file, and the events that change them. The validator and its
-- laws are in the children.
use istream.Prelude.{
  ℕ, String, Bool, true, false, Option, none, some, List, [], ◌∷◌, Result, ok, thrown,
}
use istream.Contracts.Diagnostics.{Number, int}
use istream.Contracts.Streaming.{
  StreamingConfiguration, StreamingPreset, gaming, desktop, VideoCodec, h264, hevc, HdrMode, off,
  automatic, CapacityFloorMode, freeze_and_reconnect_at_hd, allow_below_hd, stable_gaming,
}
use istream.Values.{Json, flag, number, text, array, object, Fields, end, field}
pub mod Cleaned
pub mod Validator
pub mod Replaced
pub mod Changed
pub mod Accepted
pub mod Kept
use Validator.{validate, of_texts}

abbrev preset_text : StreamingPreset → String
preset_text gaming = "gaming"
preset_text desktop = "desktop"

abbrev codec_text : VideoCodec → String
codec_text h264 = "h264"
codec_text hevc = "hevc"

abbrev hdr_text : HdrMode → String
hdr_text off = "off"
hdr_text automatic = "automatic"

abbrev floor_text : CapacityFloorMode → String
floor_text freeze_and_reconnect_at_hd = "freeze-and-reconnect-at-hd"
floor_text allow_below_hd = "allow-below-hd"

-- A configuration as an object.
unfoldable pub to_fields : StreamingConfiguration → Fields
to_fields c = field "preset" (text (preset_text c.preset)) (
    field "codec" (text (codec_text c.codec)) (
      field "targetWidth" (number (int c.target_width)) (
        field "targetHeight" (number (int c.target_height)) (
          field "targetFramesPerSecond" (number (int c.target_frames_per_second)) (
            field "minimumFramesPerSecond" (number (int c.minimum_frames_per_second)) (
              field "maximumBitrateMbps" (number c.maximum_bitrate_mbps) (
                field "hdrMode" (text (hdr_text c.hdr_mode)) (
                  field "capacityFloorMode" (text (floor_text c.capacity_floor_mode)) (
                    field "inputEnabled" (flag c.input_enabled) (
                      field "applicationSafetyLockEnabled" (flag c.application_safety_lock_enabled)
                        (field "protectedApplications" (array (of_texts c.protected_applications))
                          end)))))))))))

unfoldable pub defaults : Fields
unfolding to_fields stable_gaming
defaults = to_fields stable_gaming

-- The service and the text of its file, if there is one.
pub record ConfigurationService : Type 0 where
  pub configuration : Fields
  pub file : Option String

unfoldable pub new_service : Option String → ConfigurationService
unfolding defaults
new_service file = record { configuration = defaults; file = file }

-- What the engine does: the text of a number, whether a fraction is rounded up, `JSON.stringify` and
-- `JSON.parse`.
pub record Engine : Type 0 where
  pub print : Number → String
  pub half_up : ℕ → ℕ → Bool
  pub stringify : Json → String
  pub parse : String → Result Json

-- The uses of a service. Another program may write the file, too.
pub data Use : Type 0 where
  loading : Use
  updating : Bool → Json → Use
  overwritten : Option String → Use

-- `load` behind the validator.
unfoldable pub settle : Result Fields → ConfigurationService → ConfigurationService
unfolding defaults
settle (ok c) s = record s { configuration = c }
settle (thrown x) s = record s { configuration = defaults }

module _ (e : Engine) where
  -- What `load` makes of the file's value. The value `null` counts as no file.
  unfoldable pub adopt : Json → ConfigurationService → ConfigurationService
  unfolding settle
  adopt Json.null s = s
  adopt v s = settle (validate e.print e.half_up v) s

  -- What `load` makes of the file's text, if there is a file; it throws if the text is no JSON.
  unfoldable pub load_text :
      Option String → ConfigurationService → Result (Unit {0}) × ConfigurationService
  unfolding adopt
  load_text none s = (ok tt, s)
  load_text (some content) s = elim (e.parse content) [
    | thrown x ↦ (thrown x, s)
    | ok v ↦ (ok tt, adopt v s)
  ]

  unfoldable pub load : ConfigurationService → Result (Unit {0}) × ConfigurationService
  unfolding load_text
  load s = load_text s.file s

  -- `update` behind the validator. `written` tells whether the file system takes the file.
  unfoldable pub hold :
      Bool → Result Fields → ConfigurationService → Result Fields × ConfigurationService
  hold written (thrown x) s = (thrown x, s)
  hold true (ok c) s = (ok c, record { configuration = c; file = some (e.stringify (object c)) })
  hold false (ok c) s = (thrown "The file was not written.", record s { configuration = c })

  unfoldable pub update : Bool → Json → ConfigurationService → Result Fields × ConfigurationService
  unfolding hold
  update written v s = hold written (validate e.print e.half_up v) s

  unfoldable pub step : Use → ConfigurationService → ConfigurationService
  unfolding load update
  step loading s = (load s).1
  step (updating written v) s = (update written v s).1
  step (overwritten file) s = record s { file = file }

  unfoldable pub run : List Use → ConfigurationService → ConfigurationService
  unfolding step
  run [] s = s
  run (u ∷ us) s = run us (step u s)
