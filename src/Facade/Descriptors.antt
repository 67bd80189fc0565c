-- ===== src/Facade/Descriptors.antt =====
-- `peerDescriptors` of src/main/connectivity/ConnectivityFacade.ts: the computers that the window
-- lists, those that discovery hears and those that are trusted.
use istream.Prelude.{
  ℕ, String, Bool, true, false, not, ◌&&◌, Option, none, some, List, [], ◌∷◌, keep, leb, str_eq,
  is_none, if◌then◌else◌,
}
use istream.Prelude.Maps.{Table, insert, lookup, values}
use istream.Contracts.Connectivity.{
  ConnectionState, connected, ConnectionIntent, ActiveConnectionDescriptor, ConnectedPeerDescriptor,
  DiscoveredPeerDescriptor,
}
use istream.Trust.{Store, PairedPeerRecord, get_any, records}

abbrev of_device : String → PairedPeerRecord → Bool
of_device id r = str_eq r.device_id id

abbrev pub intents : List PairedPeerRecord → List ConnectionIntent
intents [] = []
intents (r ∷ rs) = r.intent ∷ intents rs

abbrev expiry : Option PairedPeerRecord → Option ℕ
expiry none = none
expiry (some r) = some r.expires_at

abbrev pub trust_of : ℕ → String → Option Store → Option PairedPeerRecord
trust_of now id none = none
trust_of now id (some store) = get_any now id store

abbrev pub trusted_records : ℕ → Option Store → List PairedPeerRecord
trusted_records now none = []
trusted_records now (some store) = records now store

unfoldable pub describe_live :
    ℕ → Option Store → DiscoveredPeerDescriptor → DiscoveredPeerDescriptor
describe_live now store d = record d {
  paired = not (is_none (trust_of now d.device_id store));
  online = true;
  trust_expires_at = expiry (trust_of now d.device_id store);
  trusted_intents = intents (keep (of_device d.device_id) (trusted_records now store));
}

-- The first loop.
unfoldable pub add_live :
    ℕ
    → Option Store
    → List DiscoveredPeerDescriptor
    → Table DiscoveredPeerDescriptor
    → Table DiscoveredPeerDescriptor
unfolding describe_live
add_live now store [] table = table
add_live now store (d ∷ ds) table =
    add_live now store ds (insert d.device_id (describe_live now store d) table)

-- The stable sort by falling expiry.
unfoldable pub place_record : PairedPeerRecord → List PairedPeerRecord → List PairedPeerRecord
place_record r [] = r ∷ []
place_record r (q ∷ qs) =
    let rest = place_record r qs in if leb q.expires_at r.expires_at then r ∷ q ∷ qs else q ∷ rest

unfoldable pub by_expiry : List PairedPeerRecord → List PairedPeerRecord
unfolding place_record
by_expiry [] = []
by_expiry (r ∷ rs) = place_record r (by_expiry rs)

abbrev is_connected_state : ConnectionState → Bool
is_connected_state connected = true
is_connected_state _ = false

-- Whether the connection is one with this device.
abbrev is_active : ActiveConnectionDescriptor → String → Bool
is_active c id = elim c.peer [
  | none ↦ false
  | some q ↦ str_eq q.device_id id && is_connected_state c.state
]

abbrev address_of : Option ConnectedPeerDescriptor → String → String
address_of none last = last
address_of (some q) last = q.address

unfoldable pub describe_trusted :
    ℕ
    → ActiveConnectionDescriptor
    → List PairedPeerRecord
    → PairedPeerRecord
    → DiscoveredPeerDescriptor
describe_trusted now c retained r = record {
  device_id = r.device_id;
  display_name = r.display_name;
  address = if is_active c r.device_id then address_of c.peer r.last_address else r.last_address;
  control_port = none;
  paired = true;
  online = is_active c r.device_id;
  trust_expires_at = some r.expires_at;
  trusted_intents = intents (keep (of_device r.device_id) retained);
  last_seen_at = if is_active c r.device_id then now else r.trusted_at;
}

-- The second loop: a device that stands in the table already is left as it is.
unfoldable pub add_trusted :
    ℕ
    → ActiveConnectionDescriptor
    → (retained rest : List PairedPeerRecord) → Table DiscoveredPeerDescriptor
    → Table DiscoveredPeerDescriptor
unfolding describe_trusted
add_trusted now c retained [] table = table
add_trusted now c retained (r ∷ rs) table = add_trusted now c retained rs (
    if is_none (lookup r.device_id table)
    then insert r.device_id (describe_trusted now c retained r) table
    else table)

module _ (order : String → String → Bool) where
  -- Those online come first, and then the names count.
  abbrev goes_first : DiscoveredPeerDescriptor → DiscoveredPeerDescriptor → Bool
  goes_first d e =
      if d.online
      then (if e.online then order d.display_name e.display_name else true)
      else if e.online
      then false
      else order d.display_name e.display_name

  unfoldable pub place_peer :
      DiscoveredPeerDescriptor → List DiscoveredPeerDescriptor → List DiscoveredPeerDescriptor
  place_peer d [] = d ∷ []
  place_peer d (e ∷ es) =
      let rest = place_peer d es in if goes_first d e then d ∷ e ∷ es else e ∷ rest

  unfoldable pub arranged : List DiscoveredPeerDescriptor → List DiscoveredPeerDescriptor
  unfolding place_peer
  arranged [] = []
  arranged (d ∷ ds) = place_peer d (arranged ds)

  -- The table behind both loops.
  unfoldable pub descriptor_table :
      ℕ
      → ActiveConnectionDescriptor
      → List DiscoveredPeerDescriptor
      → Option Store
      → Table DiscoveredPeerDescriptor
  unfolding add_live add_trusted by_expiry
  descriptor_table now c live store =
      let retained = by_expiry (trusted_records now store) in
      add_trusted now c retained retained (add_live now store live [])

  unfoldable pub peer_descriptors :
      ℕ
      → ActiveConnectionDescriptor
      → List DiscoveredPeerDescriptor
      → Option Store
      → List DiscoveredPeerDescriptor
  unfolding arranged descriptor_table
  peer_descriptors now c live store = arranged (values (descriptor_table now c live store))
