-- ===== src/WebRtc/Announced.antt =====
-- The signals that come, the tasks that go on, and the order of what is sent.
use istream.Prelude.{
  ℕ, String, true, false, not, ◌||◌, Option, none, some, List, [], ◌∷◌, ◌++◌, ◌≡◌, refl, arith,
  if◌then◌else◌,
}
use istream.Contracts.Media.{MediaSignal, session_description, MediaMetricSample}
use istream.WebRtc.State.{
  MediaSession, Task, choosing_screen, creating_offer, setting_offer, sending_offer,
  setting_remote_offer, setting_remote_answer, adding, creating_answer, setting_answer,
  sending_answer, flushing, sending_local, collecting, Next, create_answer, configure_senders,
  nothing, publish, emit, MediaError, tracks_added, codec_preferred, negotiating, sent,
  senders_configured,
}
use istream.WebRtc.Signals.{
  wait, send_offer, add_candidates, flush_pending_candidates, consume_signal, receive_signal,
  receive_signals, renewed, among,
}
use istream.WebRtc.Tasks.{
  Outcome, chosen, described_as, measured, done, rejected, share_screen, flush_signals, announce,
  show_metrics, succeed, proceed,
}
use istream.WebRtc.Described.{
  Announced, is_late, has_description, wait-Announced, publish-Announced, fail-Announced,
  create-Announced, require_connection-Announced, require_configuration-Announced,
  send_offer-Announced,
}

add_candidates-Announced :
    (c : ℕ) (ms : List MediaSignal) (next : Next) (s : MediaSession)
    → Announced s
    → Announced (add_candidates c ms next s)
unfolding add_candidates
add_candidates-Announced c [] nothing s v = v
add_candidates-Announced c [] (create_answer d g) s v =
    wait-Announced (creating_answer d g) s refl v
add_candidates-Announced c [] (configure_senders d) s v = v
add_candidates-Announced c (m ∷ ms) next s v =
    grind (arith, add_candidates-Announced c ms next s v, wait-Announced)

cleared-Announced :
    (t : MediaSession) → Announced t → Announced (record t { pending_candidates = [] })
cleared-Announced t v = ground arith

flush_candidates-Announced :
    (next : Next) (s : MediaSession) → Announced s → Announced (flush_pending_candidates next s)
unfolding flush_pending_candidates
flush_candidates-Announced next s v =
    require_connection-Announced
      (λ c t. add_candidates c t.pending_candidates next (record t { pending_candidates = [] })) s
      (λ c t w. add_candidates-Announced c t.pending_candidates next _ (cleared-Announced t w)) v

renewed-Announced : (g : String) (s : MediaSession) → Announced s → Announced (renewed g s)
renewed-Announced g s v =
    let t : MediaSession = record s { generation = some g; pending_candidates = [] } in
    ground (arith, create-Announced t (ground arith))

-- A candidate is handed to a connection with a remote description, and waits otherwise.
abbrev take_candidate : MediaSignal → ℕ → MediaSession → MediaSession
take_candidate m c t =
    if among c t.described
    then add_candidates c (m ∷ []) nothing t
    else record t { pending_candidates = t.pending_candidates ++ m ∷ [] }

take_candidate-Announced :
    (m : MediaSignal) (c : ℕ) (t : MediaSession) → Announced t → Announced (take_candidate m c t)
take_candidate-Announced m c t v = ground (arith, add_candidates-Announced c (m ∷ []) nothing t v)

consume_signal-Announced :
    (m : MediaSignal) (s : MediaSession) → Announced s → Announced (consume_signal m s)
unfolding consume_signal
consume_signal-Announced m s v = ground (
  arith,
  require_connection-Announced (λ c t. wait (setting_remote_offer c m.generation) t)
      (renewed m.generation s)
      (λ c t w. wait-Announced (setting_remote_offer c m.generation) t refl w)
      (renewed-Announced m.generation s v),
  require_connection-Announced (λ c t. wait (setting_remote_answer c) t) s
      (λ c t w. wait-Announced (setting_remote_answer c) t refl w) v,
  require_connection-Announced (take_candidate m) s (take_candidate-Announced m) v,
)

pub receive_signal-Announced :
    (m : MediaSignal) (s : MediaSession) → Announced s → Announced (receive_signal m s)
unfolding receive_signal
receive_signal-Announced m s v = ground (arith, consume_signal-Announced m s v)

pub receive_signals-Announced :
    (ms : List MediaSignal) (s : MediaSession) → Announced s → Announced (receive_signals ms s)
unfolding receive_signals
receive_signals-Announced [] s v = v
receive_signals-Announced (m ∷ ms) s v =
    receive_signals-Announced ms (receive_signal m s) (receive_signal-Announced m s v)

flush_signals-Announced :
    (ms : List MediaSignal) (next : Next) (s : MediaSession)
    → has_description s.effects ≡ true
    → Announced s
    → Announced (flush_signals ms next s)
unfolding flush_signals
flush_signals-Announced (m ∷ ms) next s h v =
    wait-Announced (flushing ms next) (emit (sent m) s) (ground arith) (ground arith)
flush_signals-Announced [] nothing s h v = v
flush_signals-Announced [] (create_answer c g) s h v = v
flush_signals-Announced [] (configure_senders c) s h v =
    require_configuration-Announced (λ g. emit (senders_configured c g)) s (λ g t w. ground arith) v

announce-Announced :
    (next : Next) (s : MediaSession)
    → has_description s.effects ≡ true
    → Announced s
    → Announced (announce next s)
unfolding announce
announce-Announced next s h v =
    flush_signals-Announced s.pending_local_signals next _ h (ground arith)

held-Announced :
    (stream : ℕ) (s : MediaSession)
    → Announced s
    → Announced (record s { local_stream = some stream })
held-Announced stream s v = ground arith

described-Announced :
    (c : ℕ) (s : MediaSession) → Announced s → Announced (record s { described = c ∷ s.described })
described-Announced c s v = ground arith

share_screen-Announced :
    (c stream : ℕ) (e : Option MediaError) (s : MediaSession)
    → Announced s
    → Announced (share_screen c stream e s)
unfolding share_screen
share_screen-Announced c stream (some e) s v = fail-Announced e _ (held-Announced stream s v)
share_screen-Announced c stream none s v =
    require_configuration-Announced
      (λ configuration t. send_offer false "" (
        publish negotiating "Connecting the video and audio stream..." t.local_stream true
          (emit (codec_preferred c configuration.codec) (emit (tracks_added c stream) t))))
      _ (λ g t w. send_offer-Announced false "" _ (publish-Announced _ _ _ _ _ (ground arith)))
      (held-Announced stream s v)

show_metrics-Announced :
    (m : MediaMetricSample) (s : MediaSession) → Announced s → Announced (show_metrics m s)
unfolding show_metrics
show_metrics-Announced m s v = ground arith

-- A task goes on from a state in which it no longer waits.
succeed-Announced :
    (t : Task) (o : Outcome) (s : MediaSession)
    → (not (is_late t) || has_description s.effects) ≡ true
    → Announced s
    → Announced (succeed t o s)
unfolding succeed session_description
succeed-Announced collecting o s h v = grind (arith, show_metrics-Announced)
succeed-Announced (choosing_screen c) o s h v = grind (arith, share_screen-Announced)
succeed-Announced (creating_offer c g) o s h v = wait-Announced (setting_offer c g) s refl v
succeed-Announced (setting_offer c g) o s h v =
    wait-Announced (sending_offer c) _ refl (ground arith)
succeed-Announced (sending_offer c) o s h v = announce-Announced (configure_senders c) s h v
succeed-Announced (setting_remote_offer c g) o s h v =
    require_configuration-Announced
      (λ configuration t.
        flush_pending_candidates (create_answer c g)
          (emit (codec_preferred c configuration.codec) t))
      _ (λ configuration t w. flush_candidates-Announced (create_answer c g) _ (ground arith))
      (described-Announced c s v)
succeed-Announced (setting_remote_answer c) o s h v =
    flush_candidates-Announced nothing _ (described-Announced c s v)
succeed-Announced (adding c rest next) o s h v = add_candidates-Announced c rest next s v
succeed-Announced (creating_answer c g) o s h v = wait-Announced (setting_answer c g) s refl v
succeed-Announced (setting_answer c g) o s h v = wait-Announced sending_answer _ refl (ground arith)
succeed-Announced sending_answer o s h v = announce-Announced nothing s h v
succeed-Announced (flushing rest next) o s h v = flush_signals-Announced rest next s h v
succeed-Announced sending_local o s h v = v

pub proceed-Announced :
    (t : Task) (o : Outcome) (s : MediaSession)
    → (not (is_late t) || has_description s.effects) ≡ true
    → Announced s
    → Announced (proceed t o s)
unfolding proceed
proceed-Announced t (rejected e) s h v = ground (arith, fail-Announced e s v)
proceed-Announced t (chosen stream e) s h v = succeed-Announced t (chosen stream e) s h v
proceed-Announced t (described_as sdp) s h v = succeed-Announced t (described_as sdp) s h v
proceed-Announced t (measured m) s h v = succeed-Announced t (measured m) s h v
proceed-Announced t done s h v = succeed-Announced t done s h v
