-- ===== src/Discovery/Events.antt =====
-- The discovery service as a state machine: its calls, its intervals and the packets that arrive.
use istream.Prelude.{ℕ, String, Bool, Option, List, [], ◌∷◌, if◌then◌else◌}
use istream.Platform.{Platform}
use istream.Trust.{Store}
use istream.Discovery.{Discovery, handle_message, stop, start, refresh, send_beacon, expire_peers}

pub data DiscoveryEvent : Type 0 where
  starts : (bind_error : Option String) (control_port : ℕ) → DiscoveryEvent
  stops refreshes : DiscoveryEvent
  -- The socket fails.
  fails : DiscoveryEvent
  -- A packet arrives, at a state of the trust store.
  receives : Store → (address message : String) → DiscoveryEvent
  beacon_fires expiry_fires : DiscoveryEvent

module _ (p : Platform) (before_or_same : String → String → Bool) where
  unfoldable pub step : DiscoveryEvent × ℕ → Discovery → Discovery
  step (starts bind_error port, now) s = (start p before_or_same now bind_error port s).1
  step (stops, now) s = stop p before_or_same s
  step (refreshes, now) s = (refresh p before_or_same now s).1
  step (fails, now) s = if s.socket then stop p before_or_same s else s
  step (receives store address message, now) s =
      if s.socket then handle_message p before_or_same now store address message s else s
  step (beacon_fires, now) s = if s.beacon_timer then send_beacon p before_or_same now s else s
  step (expiry_fires, now) s = if s.expiry_timer then expire_peers p before_or_same now s else s

  -- Each event with the clock's reading, the first event first.
  unfoldable pub run : List (DiscoveryEvent × ℕ) → Discovery → Discovery
  unfolding step
  run [] s = s
  run (e ∷ es) s = run es (step e s)
