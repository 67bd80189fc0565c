-- ===== src/Discovery.antt =====
-- src/main/connectivity/DiscoveryService.ts: how the computers of a network find one another.
-- `DiscoveryBeaconCodec` writes and reads the packets, `DiscoveryService` keeps the peers it hears of.
-- The trust store is shared with others, so each message comes with its state. What is sent to the
-- multicast group is the list `sent`, latest first.
pub mod Events
pub mod Codec
pub mod Peers
pub mod Probes
use istream.Prelude.{
  ℕ, ◌+◌, ◌-◌, String, Bool, true, false, not, ◌&&◌, ◌||◌, Option, none, some, List, [], ◌∷◌, map,
  keep, leb, ltb, ◌==◌, str_eq, is_none, if◌then◌else◌, ok, thrown, Attempt,
}
use istream.Prelude.Texts.{text_length}
use istream.Prelude.Maps.{Table, insert, values}
use istream.Contracts.Connectivity.{
  ConnectionIntent, DiscoveredPeerDescriptor, protocol_version, peer_expiry_ms,
}
use istream.Contracts.Diagnostics.{Number, int}
use istream.Values.{
  Json, text, number, object, field, end, Fields, get, as_text, as_number, is_text, keep_if, check,
  integer_within, ◌>>=◌,
}
use istream.Platform.{Platform}
use istream.Handshake.{DeviceIdentity, device_id}
use istream.Trust.{Store, PairedPeerRecord, get_any, records}

pub record DiscoveryBeacon : Type 0 where
  pub device_id : String
  pub display_name : String
  pub control_port : ℕ
  pub sent_at : Number

pub record DiscoveryProbe : Type 0 where
  pub device_id : String
  pub sent_at : Number

pub data DiscoveryPacket : Type 0 where
  beacon : DiscoveryBeacon → DiscoveryPacket
  probe : DiscoveryProbe → DiscoveryPacket

abbrev pub sender : DiscoveryPacket → String
sender (beacon b) = b.device_id
sender (probe q) = q.device_id

module _ (p : Platform) where
  unfoldable pub encode : DeviceIdentity → ℕ → ℕ → String
  encode identity control_port now = p.stringify (
      object (
        field "kind" (text "istream-beacon") (
          field "protocolVersion" (number (int protocol_version)) (
            field "deviceId" (text (device_id p identity)) (
              field "displayName" (text identity.display_name) (
                field "controlPort" (number (int control_port))
                  (field "sentAt" (number (int now)) end)))))))

  unfoldable pub encode_probe : DeviceIdentity → ℕ → String
  encode_probe identity now = p.stringify (
      object (
        field "kind" (text "istream-discovery-probe") (
          field "protocolVersion" (number (int protocol_version)) (
            field "deviceId" (text (device_id p identity))
              (field "sentAt" (number (int now)) end)))))

-- `value === number` for a constant natural number.
abbrev pub is_number : ℕ → Option Json → Bool
is_number n (some (number (int m))) = m == n
is_number n _ = false

abbrev pub has_length_32 : String → Bool
has_length_32 s = text_length s == 32

unfoldable pub decode_probe : Fields → Option DiscoveryPacket
decode_probe c = do
  _ ← check (is_text "istream-discovery-probe" (get "kind" c))
  _ ← check (is_number protocol_version (get "protocolVersion" c))
  id ← keep_if has_length_32 (as_text (get "deviceId" c))
  sent_at ← as_number (get "sentAt" c)
  some (probe (record { device_id = id; sent_at = sent_at }))

abbrev pub fits_name : String → Bool
fits_name s = not (ltb (text_length s) 1) && not (ltb 64 (text_length s))

unfoldable pub decode_beacon : Fields → Option DiscoveryPacket
decode_beacon c = do
  _ ← check (is_text "istream-beacon" (get "kind" c))
  _ ← check (is_number protocol_version (get "protocolVersion" c))
  id ← keep_if has_length_32 (as_text (get "deviceId" c))
  name ← keep_if fits_name (as_text (get "displayName" c))
  port ← integer_within 1024 65535 (get "controlPort" c)
  sent_at ← as_number (get "sentAt" c)
  some (
      beacon
        (record { device_id = id; display_name = name; control_port = port; sent_at = sent_at }))

-- Only an object has the properties that are asked for; the error for `null` is caught.
unfoldable pub decode_value : Option Json → Option DiscoveryPacket
unfolding decode_probe decode_beacon
decode_value (some (object c)) = elim (decode_probe c) [ none ↦ decode_beacon c | some q ↦ some q ]
decode_value _ = none

unfoldable pub decode : Platform → String → Option DiscoveryPacket
unfolding decode_value
decode p message = decode_value (p.parse message)

pub record Discovery : Type 0 where
  pub identity : DeviceIdentity
  pub peers : Table DiscoveredPeerDescriptor
  -- Whether there is a socket, and the two intervals.
  pub socket : Bool
  pub beacon_timer : Bool
  pub expiry_timer : Bool
  pub control_port : ℕ
  pub last_probe_response_at : ℕ
  pub sent : List String
  -- What the listeners were told, latest first.
  pub notified : List (List DiscoveredPeerDescriptor)

unfoldable pub new_discovery : DeviceIdentity → Discovery
new_discovery identity = record {
  identity = identity;
  peers = [];
  socket = false;
  beacon_timer = false;
  expiry_timer = false;
  control_port = 0;
  last_probe_response_at = 0;
  sent = [];
  notified = [];
}

-- The language's `sort` puts the list in the order of `localeCompare`, of which `before_or_same` is
-- the part at most 0.
module _ (p : Platform) (before_or_same : String → String → Bool) where
  unfoldable pub place :
      DiscoveredPeerDescriptor → List DiscoveredPeerDescriptor → List DiscoveredPeerDescriptor
  place d [] = d ∷ []
  place d (e ∷ es) =
      let rest = place d es in
      if before_or_same d.display_name e.display_name then d ∷ e ∷ es else e ∷ rest

  unfoldable pub sorted : List DiscoveredPeerDescriptor → List DiscoveredPeerDescriptor
  unfolding place
  sorted [] = []
  sorted (d ∷ ds) = place d (sorted ds)

  unfoldable pub peers : Discovery → List DiscoveredPeerDescriptor
  unfolding sorted
  peers s = sorted (values s.peers)

  unfoldable pub notify_listeners : Discovery → Discovery
  unfolding peers
  notify_listeners s = record s { notified = peers s ∷ s.notified }

  unfoldable pub send_beacon : ℕ → Discovery → Discovery
  send_beacon now s =
      if s.socket then record s { sent = encode p s.identity s.control_port now ∷ s.sent } else s

  unfoldable pub stop : Discovery → Discovery
  unfolding notify_listeners
  stop s =
      notify_listeners
        (record s { beacon_timer = false; expiry_timer = false; socket = false; peers = [] })

  -- `bind_error` is the message if the socket cannot be bound; that error also stops the service.
  unfoldable pub start : ℕ → (bind_error : Option String) → ℕ → Attempt Discovery (Unit {0})
  unfolding stop send_beacon
  start now bind_error control_port s =
      let opened : Discovery = record s { control_port = control_port; socket = true } in
      if s.socket then (ok tt, s) else (elim bind_error [
        | none ↦
            (ok tt, record (send_beacon now opened) { beacon_timer = true; expiry_timer = true })
        | some e ↦ (thrown e, stop opened)
      ])

  unfoldable pub refresh : ℕ → Attempt Discovery (Unit {0})
  unfolding notify_listeners send_beacon
  refresh now s =
      if not s.socket
      then (thrown "LAN discovery is not running.", s)
      else let beaten = send_beacon now (notify_listeners (record s { peers = [] })) in
        (ok tt, record beaten { sent = encode_probe p beaten.identity now ∷ beaten.sent })

  abbrev pub intents_of : List PairedPeerRecord → List ConnectionIntent
  intents_of [] = []
  intents_of (r ∷ rs) = r.intent ∷ intents_of rs

  abbrev expiry_of : Option PairedPeerRecord → Option ℕ
  expiry_of none = none
  expiry_of (some r) = some r.expires_at

  unfoldable pub describe : ℕ → Store → String → DiscoveryBeacon → DiscoveredPeerDescriptor
  describe now store address b = record {
    device_id = b.device_id;
    display_name = b.display_name;
    address = address;
    control_port = some b.control_port;
    paired = not (is_none (get_any now b.device_id store));
    online = true;
    trust_expires_at = expiry_of (get_any now b.device_id store);
    trusted_intents = intents_of (keep (λ r. str_eq r.device_id b.device_id) (records now store));
    last_seen_at = now;
  }

  -- What `handleMessage` does with a packet of another computer.
  unfoldable pub accept : ℕ → Store → String → DiscoveryPacket → Discovery → Discovery
  unfolding notify_listeners send_beacon describe
  accept now store address (probe q) s =
      if leb (s.last_probe_response_at + 500) now
      then send_beacon now (record s { last_probe_response_at = now })
      else s
  accept now store address (beacon b) s =
      notify_listeners
        (record s { peers = insert b.device_id (describe now store address b) s.peers })

  unfoldable pub handle_message : ℕ → Store → String → String → Discovery → Discovery
  unfolding accept
  handle_message now store address message s = elim (decode p message) [
    | none ↦ s
    | some packet ↦
        if str_eq (sender packet) (device_id p s.identity)
        then s
        else accept now store address packet s
  ]

  abbrev pub is_expired : ℕ → DiscoveredPeerDescriptor → Bool
  is_expired now d = ltb (d.last_seen_at + peer_expiry_ms) now

  -- The loop of `expirePeers`: the peers left, and whether one was dropped.
  unfoldable pub drop_expired :
      ℕ → Table DiscoveredPeerDescriptor → Table DiscoveredPeerDescriptor × Bool
  drop_expired now [] = ([], false)
  drop_expired now ((id, d) ∷ rest) =
      let r = drop_expired now rest in
      if is_expired now d then (r.0, true) else ((id, d) ∷ r.0, r.1)

  unfoldable pub expire_peers : ℕ → Discovery → Discovery
  unfolding drop_expired notify_listeners
  expire_peers now s =
      let r = drop_expired now s.peers in
      let left : Discovery = record s { peers = r.0 } in if r.1 then notify_listeners left else left
