-- ===== src/WebRtc/Described.antt =====
-- The order of descriptions and candidates in what a session sends to the other computer.
use istream.Prelude.Lists.{take_out}
use istream.Prelude.{
  ℕ, zero, suc, String, Bool, true, false, not, ◌&&◌, ◌||◌, Option, some, List, [], ◌∷◌, ◌++◌, ◌≡◌,
  arith, Option-cases, inl, inr, if◌then◌else◌,
}
use istream.Contracts.Media.{MediaSignalKind, offer, answer}
use istream.Contracts.Streaming.{StreamingConfiguration}
use istream.WebRtc.State.{
  MediaSession, Task, sending_offer, sending_answer, flushing, Effect, sent, publish, fail,
  RendererMediaState, MediaError,
}
use istream.WebRtc.Signals.{
  wait, create_peer_connection, require_connection, require_configuration, offer_for, send_offer,
  start_sharing, stop_media_resources, stop,
}

abbrev pub is_description : MediaSignalKind → Bool
is_description offer = true
is_description answer = true
is_description _ = false

abbrev pub has_description : List Effect → Bool
has_description [] = false
has_description (sent m ∷ earlier) = is_description m.kind || has_description earlier
has_description (_ ∷ earlier) = has_description earlier

-- Every signal that is sent is a description or has one before it.
abbrev pub described_first : List Effect → Bool
described_first [] = true
described_first (sent m ∷ earlier) =
    (is_description m.kind || has_description earlier) && described_first earlier
described_first (_ ∷ earlier) = described_first earlier

-- The tasks that wait for a signal to be handed over once the description was sent.
abbrev pub is_late : Task → Bool
is_late (sending_offer c) = true
is_late sending_answer = true
is_late (flushing rest next) = true
is_late _ = false

abbrev pub any_late : List Task → Bool
any_late [] = false
any_late (t ∷ ts) = is_late t || any_late ts

pub any_late-append :
    (ts : List Task) (t : Task) → any_late (ts ++ t ∷ []) ≡ (any_late ts || is_late t)
any_late-append [] t = ground arith
any_late-append (u ∷ ts) t = ground (arith, any_late-append ts t)

pub any_late-take_out :
    (n : ℕ) (ts : List Task) (t : Task) (rest : List Task)
    → take_out n ts ≡ some (t, rest)
    → any_late ts ≡ (is_late t || any_late rest)
unfolding take_out
any_late-take_out n [] t rest h = absurd (cc h)
any_late-take_out zero (u ∷ ts) t rest h = ground arith
any_late-take_out (suc n) (u ∷ ts) t rest h = elim (Option-cases (take_out n ts)) [
  | inl e ↦ ground (arith, e)
  | inr ((v, others), e) ↦ ground (arith, e, any_late-take_out n ts v others e)
]

pub record Announced (s : MediaSession) : Type 0 where
  pub ordered : described_first s.effects ≡ true
  pub ready :
      (not (s.local_description_announced || any_late s.tasks) || has_description s.effects) ≡ true

pub wait-Announced :
    (t : Task) (s : MediaSession)
    → (not (is_late t) || has_description s.effects) ≡ true
    → Announced s
    → Announced (wait t s)
wait-Announced t s h v = ground (arith, any_late-append s.tasks t)

pub publish-Announced :
    (state : RendererMediaState) (detail : String) (stream : Option ℕ) (muted : Bool)
    (s : MediaSession)
    → Announced s
    → Announced (publish state detail stream muted s)
unfolding publish
publish-Announced state detail stream muted s v = ground arith

pub fail-Announced : (e : MediaError) (s : MediaSession) → Announced s → Announced (fail e s)
unfolding fail
fail-Announced e s v = publish-Announced _ _ _ _ s v

pub create-Announced : (s : MediaSession) → Announced s → Announced (create_peer_connection s)
unfolding create_peer_connection
create-Announced s v = ground arith

pub require_connection-Announced :
    (f : ℕ → MediaSession → MediaSession) (s : MediaSession)
    → ((c : ℕ) (t : MediaSession) → Announced t → Announced (f c t))
    → Announced s
    → Announced (require_connection f s)
unfolding require_connection
require_connection-Announced f s keeps v = elim (Option-cases s.peer_connection) [
  | inl e ↦ rw (require_connection, e) (fail-Announced _ s v)
  | inr (c, e) ↦ rw (require_connection, e) (keeps c s v)
]

pub require_configuration-Announced :
    (f : StreamingConfiguration → MediaSession → MediaSession) (s : MediaSession)
    → ((g : StreamingConfiguration) (t : MediaSession) → Announced t → Announced (f g t))
    → Announced s
    → Announced (require_configuration f s)
unfolding require_configuration
require_configuration-Announced f s keeps v = elim (Option-cases s.configuration) [
  | inl e ↦ rw (require_configuration, e) (fail-Announced _ s v)
  | inr (g, e) ↦ rw (require_configuration, e) (keeps g s v)
]

pub offer_for-Announced :
    (c : ℕ) (b : Bool) (s : MediaSession) → Announced s → Announced (offer_for c b s)
unfolding offer_for
offer_for-Announced c b s v = grind (arith, wait-Announced)

renewed-Announced :
    (b : Bool) (uuid : String) (t : MediaSession)
    → Announced t
    → Announced (if b then record t { generation = some uuid; pending_candidates = [] } else t)
renewed-Announced b uuid t w = ground arith

pub send_offer-Announced :
    (b : Bool) (uuid : String) (s : MediaSession) → Announced s → Announced (send_offer b uuid s)
unfolding send_offer
send_offer-Announced b uuid s v =
    require_connection-Announced
      (λ c t.
        offer_for c b
          (if b then record t { generation = some uuid; pending_candidates = [] } else t))
      s (λ c t w. offer_for-Announced c b _ (renewed-Announced b uuid t w)) v

pub start_sharing-Announced :
    (uuid : String) (s : MediaSession) → Announced s → Announced (start_sharing uuid s)
unfolding start_sharing create_peer_connection publish
start_sharing-Announced uuid s v = grind (arith, wait-Announced)

pub stop_media-Announced : (s : MediaSession) → Announced s → Announced (stop_media_resources s)
unfolding stop_media_resources
stop_media-Announced s v = ground arith

pub stop-Announced : (s : MediaSession) → Announced s → Announced (stop s)
unfolding stop stop_media_resources publish
stop-Announced s v = ground arith
