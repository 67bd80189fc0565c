-- ===== src/Discovery/Probes.antt =====
-- How often the service answers the probes of others.
use istream.Prelude.{ℕ, ◌+◌, ◌*◌, ◌≤◌, String, Bool, List, [], ◌∷◌, arith, length, All}
use istream.Platform.{Platform}
use istream.Trust.{Store}
use istream.Discovery.{
  Discovery, DiscoveryPacket, beacon, probe, handle_message, accept, send_beacon, notify_listeners,
}

-- A packet as it arrives: the clock's reading, the trust store's state, the sender's address and the
-- text.
pub record Arrival : Type 0 where
  pub now : ℕ
  pub store : Store
  pub address : String
  pub message : String

module _ (p : Platform) (order : String → String → Bool) where
  pub receive_all : List Arrival → Discovery → Discovery
  receive_all [] s = s
  receive_all (a ∷ rest) s =
      receive_all rest (handle_message p order a.now a.store a.address a.message s)

  -- What was sent by the time `until` costs half a second each, and the last answer is not later.
  record Paced (until : ℕ) (s t : Discovery) : Type 0 where
    cost :
        500 * length t.sent + s.last_probe_response_at
        ≤ 500 * length s.sent + t.last_probe_response_at
    last : t.last_probe_response_at ≤ until

  accept-Paced :
      (until now : ℕ) (store : Store) (address : String) (q : DiscoveryPacket) (s : Discovery)
      → now ≤ until
      → s.last_probe_response_at ≤ until
      → Paced until s (accept p order now store address q s)
  unfolding accept send_beacon notify_listeners
  accept-Paced until now store address (probe q) s h last = ground arith
  accept-Paced until now store address (beacon b) s h last = ground arith

  handle_message-Paced :
      (until now : ℕ) (store : Store) (address message : String) (s : Discovery)
      → now ≤ until
      → s.last_probe_response_at ≤ until
      → Paced until s (handle_message p order now store address message s)
  unfolding handle_message
  handle_message-Paced until now store address message s h last =
      grind (arith, accept-Paced until now store address)

  receive_all-Paced :
      (until : ℕ) (arrived : List Arrival) (s : Discovery)
      → All (λ a. a.now ≤ until) arrived
      → s.last_probe_response_at ≤ until
      → Paced until s (receive_all arrived s)
  unfolding receive_all
  receive_all-Paced until [] s h last = ground arith
  receive_all-Paced until (a ∷ rest) s (h, hs) last =
      let first = handle_message-Paced until a.now a.store a.address a.message s h last in
      let t = handle_message p order a.now a.store a.address a.message s in
      ground (arith, first.cost, first.last, receive_all-Paced until rest t hs first.last)

-- However many packets of whatever kind arrive until a time, the service sends at most one answer for
-- every half second between its last answer before them and this time.
pub receive_all-length :
    (p : Platform) (order : String → String → Bool) (until : ℕ) (arrived : List Arrival)
    (s : Discovery)
    → All (λ a. a.now ≤ until) arrived
    → s.last_probe_response_at ≤ until
    → 500 * length (receive_all p order arrived s).sent + s.last_probe_response_at
      ≤ 500 * length s.sent + until
receive_all-length p order until arrived s h last =
    let paced = receive_all-Paced p order until arrived s h last in
    omega (arith, paced.cost, paced.last)
