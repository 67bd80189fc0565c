-- ===== src/Discovery/Peers.antt =====
-- The peers that discovery keeps, after any run of events.
use istream.Prelude.{
  ℕ, String, Bool, true, false, not, ◌&&◌, none, some, List, [], ◌∷◌, ◌≡◌, refl, arith, leb, str_eq,
  All, Option-cases, inl, inr,
}
use istream.Prelude.Maps.{Table, All-insert}
use istream.Contracts.Connectivity.{DiscoveredPeerDescriptor}
use istream.Values.{Fields, integer_within, text}
use package.text.Mathlib.TextPositions.{eq_refl}
use istream.Platform.{Platform}
use istream.Handshake.{DeviceIdentity, device_id}
use istream.Trust.{Store}
use istream.Discovery.{
  Discovery, DiscoveryBeacon, DiscoveryPacket, beacon, probe, decode, decode_value, decode_beacon,
  decode_probe, has_length_32, fits_name, new_discovery, handle_message, accept, describe, stop,
  start, refresh, send_beacon, notify_listeners, expire_peers, drop_expired, sender,
}
use istream.Discovery.Events.{
  DiscoveryEvent, starts, stops, refreshes, fails, receives, beacon_fires, expiry_fires, step, run,
}

abbrev pub valid_port : ℕ → Bool
valid_port n = leb 1024 n && leb n 65535

abbrev valid_beacon : DiscoveryBeacon → Bool
valid_beacon b = has_length_32 b.device_id && fits_name b.display_name && valid_port b.control_port

abbrev valid_packet : DiscoveryPacket → Bool
valid_packet (beacon b) = valid_beacon b
valid_packet (probe q) = has_length_32 q.device_id

decode_beacon-valid :
    (c : Fields) (q : DiscoveryPacket) → decode_beacon c ≡ some q → valid_packet q ≡ true
unfolding decode_beacon integer_within
decode_beacon-valid c q h = ground arith

decode_probe-valid :
    (c : Fields) (q : DiscoveryPacket) → decode_probe c ≡ some q → valid_packet q ≡ true
unfolding decode_probe
decode_probe-valid c q h = ground arith

decode-valid :
    (p : Platform) (message : String) (q : DiscoveryPacket)
    → decode p message ≡ some q
    → valid_packet q ≡ true
unfolding decode decode_value
decode-valid p message q h = grind (arith, decode_beacon-valid, decode_probe-valid)

-- What a kept peer is: it stands under its own identifier, which is not this computer's and has 32
-- characters, and has a name of 1 to 64 and a port from 1024 to 65535.
abbrev pub is_known : String → String × DiscoveredPeerDescriptor → Bool
is_known own (id, d) =
    str_eq d.device_id id
    && not (str_eq id own)
    && has_length_32 id
    && fits_name d.display_name
    && (elim d.control_port [ none ↦ false | some port ↦ valid_port port ])

abbrev AllKnown : String → Table DiscoveredPeerDescriptor → Type 0
AllKnown own peers = All (λ e. is_known own e ≡ true) peers

module _ (p : Platform) (order : String → String → Bool) (identity : DeviceIdentity) where
  -- The service is this computer's, and keeps such peers only.
  record Keeping (s : Discovery) : Type 0 where
    own : s.identity ≡ identity
    known : AllKnown (device_id p identity) s.peers

  describe-known :
      (now : ℕ) (store : Store) (address : String) (b : DiscoveryBeacon)
      → valid_beacon b ≡ true
      → str_eq b.device_id (device_id p identity) ≡ false
      → is_known (device_id p identity) (b.device_id, describe p order now store address b) ≡ true
  unfolding describe
  describe-known now store address b h other = ground (arith, eq_refl b.device_id, h, other)

  drop_expired-known :
      (now : ℕ) (ps : Table DiscoveredPeerDescriptor)
      → AllKnown (device_id p identity) ps
      → AllKnown (device_id p identity) (drop_expired p order now ps).0
  unfolding drop_expired
  drop_expired-known now [] h = tt
  drop_expired-known now ((id, d) ∷ ps) (h, hs) = ground (arith, h, drop_expired-known now ps hs)

  accept-Keeping :
      (now : ℕ) (store : Store) (address : String) (q : DiscoveryPacket) (s : Discovery)
      → valid_packet q ≡ true
      → str_eq (sender q) (device_id p identity) ≡ false
      → Keeping s
      → Keeping (accept p order now store address q s)
  unfolding accept notify_listeners send_beacon
  accept-Keeping now store address (probe q) s h other k = ground arith
  accept-Keeping now store address (beacon b) s h other k = record {
    own = k.own;
    known =
        All-insert (λ e. is_known (device_id p identity) e ≡ true) b.device_id
          (describe p order now store address b) s.peers k.known
          (describe-known now store address b h other);
  }

  handle_message-Keeping :
      (now : ℕ) (store : Store) (address message : String) (s : Discovery)
      → Keeping s
      → Keeping (handle_message p order now store address message s)
  unfolding handle_message
  handle_message-Keeping now store address message s k = elim (Option-cases (decode p message)) [
    | inl e ↦ rw (handle_message, e) k
    | inr (q, e) ↦
        rw (handle_message, e)
          (ground (arith, k.own, accept-Keeping now store address q s (decode-valid p message q e)))
  ]

  step-Keeping : (e : DiscoveryEvent × ℕ) (s : Discovery) → Keeping s → Keeping (step p order e s)
  unfolding step start stop refresh send_beacon notify_listeners expire_peers
  step-Keeping (starts bind_error port, now) s k = ground arith
  step-Keeping (stops, now) s k = record { own = k.own; known = tt }
  step-Keeping (refreshes, now) s k = ground arith
  step-Keeping (fails, now) s k = ground arith
  step-Keeping (receives store address message, now) s k =
      ground (arith, handle_message-Keeping now store address message s k)
  step-Keeping (beacon_fires, now) s k = ground arith
  step-Keeping (expiry_fires, now) s k = ground (arith, drop_expired-known now s.peers k.known)

  run-Keeping :
      (es : List (DiscoveryEvent × ℕ)) (s : Discovery) → Keeping s → Keeping (run p order es s)
  unfolding run
  run-Keeping [] s k = k
  run-Keeping (e ∷ es) s k = run-Keeping es (step p order e s) (step-Keeping e s k)

-- Whatever packets a new discovery service receives, and whatever else happens to it, every peer that
-- it keeps stands under its own identifier of 32 characters, which is not this computer's, and has a
-- name of 1 to 64 characters and a control port from 1024 to 65535.
pub run-is_known :
    (p : Platform) (order : String → String → Bool) (identity : DeviceIdentity)
    (es : List (DiscoveryEvent × ℕ))
    → All
        (λ e. is_known (device_id p identity) e ≡ true)
        (run p order es (new_discovery identity)).peers
unfolding new_discovery
run-is_known p order identity es =
    (run-Keeping p order identity es (new_discovery identity)
      (record { own = refl; known = tt })).known
