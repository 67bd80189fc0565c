-- ===== src/Trust.antt =====
-- `PairedPeerStore` of src/main/connectivity/PairedPeerStore.ts: which computers may connect again
-- without a verification code. The clock's reading `now` is an argument of each method; the file is
-- the list `written` of what `persist` handed to src/main/storage/AtomicJsonStore.ts, latest first.
pub mod Keys
pub mod Laws
pub mod History
pub mod Latest
use istream.Prelude.{
  ℕ, ◌+◌, String, text_append, Bool, true, false, ◌&&◌, Option, none, some, List, [], ◌∷◌, map, ltb,
  leb, ◌==◌, str_eq, length, keep, not, if◌then◌else◌,
}
use istream.Prelude.Texts.{matches_device_id, matches_base64, text_length}
use istream.Prelude.Maps.{lookup, insert, remove, values}
use istream.Contracts.Connectivity.{ConnectionIntent, view_remote, share_local, trust_duration_ms}
use istream.Values.{
  Json, array, object, Fields, get, items, as_text, is_text, keep_if, identifier, fits,
  integer_within, max_safe_integer, ◌>>=◌, check,
}
use istream.Protocol.Validator.{intent_of}

-- Its `direction` is always 'inbound'.
pub record PairedPeerRecord : Type 0 where
  pub intent : ConnectionIntent
  pub device_id : String
  pub display_name : String
  pub public_key_der : String
  pub last_address : String
  pub trusted_at : ℕ
  pub expires_at : ℕ

pub record InboundTrustCandidate : Type 0 where
  pub intent : ConnectionIntent
  pub device_id : String
  pub display_name : String
  pub public_key_der : String
  pub last_address : String

pub record Store : Type 0 where
  pub peers : List (String × PairedPeerRecord)
  pub written : List (List PairedPeerRecord)

abbrev intent_suffix : ConnectionIntent → String
intent_suffix view_remote = ":view-remote"
intent_suffix share_local = ":share-local"

unfoldable pub key : String → ConnectionIntent → String
key device_id intent = text_append device_id (intent_suffix intent)

unfoldable pub persist : Store → Store
persist s = record s { written = values s.peers ∷ s.written }

-- A stored time below 0 is refused here, and in the source by the expiry test of `load`, at any
-- clock later than thirty days after its start.
unfoldable pub validate_record : ℕ → Json → Option PairedPeerRecord
validate_record now (object c) = do
  _ ← check (is_text "inbound" (get "direction" c))
  intent_text ← as_text (get "intent" c)
  intent ← intent_of intent_text
  device_id ← keep_if matches_device_id (as_text (get "deviceId" c))
  display_name ← identifier 64 (get "displayName" c)
  public_key ←
      keep_if (λ s. matches_base64 s && leb (text_length s) 4096) (as_text (get "publicKeyDer" c))
  last_address ← identifier 64 (get "lastAddress" c)
  trusted_at ← integer_within 0 max_safe_integer (get "trustedAt" c)
  expires_at ← integer_within 0 max_safe_integer (get "expiresAt" c)
  _ ← check (leb trusted_at now)
  _ ← check (expires_at == trusted_at + trust_duration_ms)
  some (record {
    intent = intent;
    device_id = device_id;
    display_name = display_name;
    public_key_der = public_key;
    last_address = last_address;
    trusted_at = trusted_at;
    expires_at = expires_at;
  })
validate_record now _ = none

abbrev unexpired : ℕ → PairedPeerRecord → Bool
unexpired now r = ltb now r.expires_at

abbrev add_valid : ℕ → Option PairedPeerRecord → List PairedPeerRecord → List PairedPeerRecord
add_valid now none rest = rest
add_valid now (some r) rest = if unexpired now r then r ∷ rest else rest

valid_records : ℕ → List Json → List PairedPeerRecord
valid_records now [] = []
valid_records now (v ∷ vs) = add_valid now (validate_record now v) (valid_records now vs)

-- `new Map(records.map((peer) => [key, peer]))`
index : List (String × PairedPeerRecord) → List PairedPeerRecord → List (String × PairedPeerRecord)
index m [] = m
index m (r ∷ rs) = index (insert (key r.device_id r.intent) r m) rs

-- `Array.isArray(stored?.peers) ? stored.peers : []`
abbrev pub stored_records : Option Json → List Json
stored_records (some (object c)) = elim (get "peers" c) [
  | some v ↦ elim v [ array vs ↦ items vs | _ ↦ [] ]
  | none ↦ []
]
stored_records _ = []

unfoldable pub load : ℕ → Option Json → Store → Store
unfolding valid_records index persist
load now stored s =
    let valid = valid_records now (stored_records stored) in
    let loaded : Store = record s { peers = index [] valid } in
    if length (stored_records stored) == length valid then loaded else persist loaded

-- `get`; the name `get` is that of a property's reading here.
unfoldable pub find : ℕ → String → ConnectionIntent → Store → Option PairedPeerRecord
find now device_id intent s = elim (lookup (key device_id intent) s.peers) [
  | none ↦ none
  | some r ↦ if unexpired now r then some r else none
]

unfoldable pub is_trusted : ℕ → String → String → ConnectionIntent → Store → Bool
unfolding find
is_trusted now device_id public_key_der intent s = elim (find now device_id intent s) [
  | none ↦ false
  | some r ↦ str_eq r.public_key_der public_key_der
]

unfoldable pub records : ℕ → Store → List PairedPeerRecord
records now s = keep (unexpired now) (values s.peers)

-- The first entry of the list sorted by falling expiry: the sort is stable, so a later record is
-- taken only if it expires strictly later.
unfoldable pub latest : PairedPeerRecord → List PairedPeerRecord → PairedPeerRecord
latest best [] = best
latest best (r ∷ rs) = latest (if ltb best.expires_at r.expires_at then r else best) rs

abbrev pub latest? : List PairedPeerRecord → Option PairedPeerRecord
latest? [] = none
latest? (r ∷ rs) = some (latest r rs)

unfoldable pub get_any : ℕ → String → Store → Option PairedPeerRecord
unfolding records latest
get_any now device_id s = latest? (keep (λ r. str_eq r.device_id device_id) (records now s))

abbrev pub record_for : ℕ → InboundTrustCandidate → PairedPeerRecord
record_for now c = record {
  intent = c.intent;
  device_id = c.device_id;
  display_name = c.display_name;
  public_key_der = c.public_key_der;
  last_address = c.last_address;
  trusted_at = now;
  expires_at = now + trust_duration_ms;
}

unfoldable pub remember_inbound : ℕ → InboundTrustCandidate → Store → Store
unfolding persist
remember_inbound now c s =
    persist (record s { peers = insert (key c.device_id c.intent) (record_for now c) s.peers })

-- The keys of the device's records, and the deletion of each.
pub device_keys : String → List (String × PairedPeerRecord) → List String
device_keys device_id [] = []
device_keys device_id ((k, r) ∷ m) =
    if str_eq r.device_id device_id then k ∷ device_keys device_id m else device_keys device_id m

pub remove_all : List String → List (String × PairedPeerRecord) → List (String × PairedPeerRecord)
remove_all [] m = m
remove_all (k ∷ ks) m = remove_all ks (remove k m)

unfoldable pub clear : String → Store → Store
unfolding device_keys remove_all persist
clear device_id s =
    let keys = device_keys device_id s.peers in
    let cleared : Store = record s { peers = remove_all keys s.peers } in
    if length keys == 0 then s else persist cleared
