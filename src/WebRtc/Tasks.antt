-- ===== src/WebRtc/Tasks.antt =====
-- What follows each `await` of `WebRtcMediaSession`: the rest of `startSharing`, of `sendOffer`, of
-- `consumeSignal` and of what they call.
use istream.Prelude.{ℕ, String, Bool, true, false, Option, none, some, List, [], ◌∷◌, if◌then◌else◌}
use istream.Contracts.Media.{MediaSignal, MediaMetricSample, offer, answer, session_description}
use istream.WebRtc.State.{
  MediaSession, Task, choosing_screen, creating_offer, setting_offer, sending_offer,
  setting_remote_offer, setting_remote_answer, adding, creating_answer, setting_answer,
  sending_answer, flushing, sending_local, collecting, Next, create_answer, configure_senders,
  nothing, sent, shown, tracks_added, codec_preferred, senders_configured, reported, negotiating,
  MediaError, emit, publish, fail, RendererMediaPresentation,
}
use istream.WebRtc.Signals.{
  wait, send_offer, add_candidates, flush_pending_candidates, require_configuration,
}

-- How a wait ends: the stream of the chosen screen and the error of the calls that use it, if there
-- is one; the text of a description; the metrics; nothing of interest; or an error.
pub data Outcome : Type 0 where
  chosen : (stream : ℕ) (error : Option MediaError) → Outcome
  described_as : (sdp : String) → Outcome
  measured : MediaMetricSample → Outcome
  done : Outcome
  rejected : MediaError → Outcome

abbrev pub sdp_of : Outcome → String
sdp_of (described_as sdp) = sdp
sdp_of _ = ""

-- Behind `getDisplayMedia`.
unfoldable pub share_screen : ℕ → ℕ → Option MediaError → MediaSession → MediaSession
share_screen c stream error s =
    let held : MediaSession = record s { local_stream = some stream } in
    elim error [
      | some e ↦ fail e held
      | none ↦
          require_configuration
            (λ configuration t. send_offer false "" (
              publish negotiating "Connecting the video and audio stream..." t.local_stream true
                (emit (codec_preferred c configuration.codec) (emit (tracks_added c stream) t))))
            held
    ]

-- The signals are sent one by one, and then comes what is next.
unfoldable pub flush_signals : List MediaSignal → Next → MediaSession → MediaSession
flush_signals (signal ∷ rest) next s = wait (flushing rest next) (emit (sent signal) s)
flush_signals [] nothing s = s
flush_signals [] (create_answer c generation) s = s
flush_signals [] (configure_senders c) s =
    require_configuration (λ configuration. emit (senders_configured c configuration)) s

-- The description has been handed over.
unfoldable pub announce : Next → MediaSession → MediaSession
unfolding flush_signals
announce next s =
    flush_signals s.pending_local_signals next
      (record s { local_description_announced = true; pending_local_signals = [] })

abbrev with_metrics :
    MediaMetricSample → Option RendererMediaPresentation → MediaSession → MediaSession
with_metrics metrics none s = s
with_metrics metrics (some last) s =
    let presentation : RendererMediaPresentation = record last { metrics = some metrics } in
    record s { last_presentation = some presentation; effects = shown presentation ∷ s.effects }

-- The rest of `collectMetrics`, whose errors only reach the console.
unfoldable pub show_metrics : MediaMetricSample → MediaSession → MediaSession
show_metrics metrics s = emit (reported metrics) (with_metrics metrics s.last_presentation s)

-- The task goes on with what it waited for.
unfoldable pub succeed : Task → Outcome → MediaSession → MediaSession
unfolding share_screen announce show_metrics flush_signals
succeed collecting (measured metrics) s = show_metrics metrics s
succeed collecting _ s = s
succeed (choosing_screen c) (chosen stream error) s = share_screen c stream error s
succeed (choosing_screen c) _ s = s
succeed (creating_offer c generation) _ s = wait (setting_offer c generation) s
succeed (setting_offer c generation) o s =
    wait (sending_offer c) (emit (sent (session_description generation offer (sdp_of o))) s)
succeed (sending_offer c) _ s = announce (configure_senders c) s
succeed (setting_remote_offer c generation) _ s =
    require_configuration
      (λ configuration t.
        flush_pending_candidates (create_answer c generation)
          (emit (codec_preferred c configuration.codec) t))
      (record s { described = c ∷ s.described })
succeed (setting_remote_answer c) _ s =
    flush_pending_candidates nothing (record s { described = c ∷ s.described })
succeed (adding c rest next) _ s = add_candidates c rest next s
succeed (creating_answer c generation) _ s = wait (setting_answer c generation) s
succeed (setting_answer c generation) o s =
    wait sending_answer (emit (sent (session_description generation answer (sdp_of o))) s)
succeed sending_answer _ s = announce nothing s
succeed (flushing rest next) _ s = flush_signals rest next s
succeed sending_local _ s = s

abbrev pub is_collecting : Task → Bool
is_collecting collecting = true
is_collecting _ = false

unfoldable pub proceed : Task → Outcome → MediaSession → MediaSession
unfolding succeed
proceed t (rejected e) s = if is_collecting t then s else fail e s
proceed t o s = succeed t o s
