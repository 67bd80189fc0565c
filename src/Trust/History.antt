-- ===== src/Trust/History.antt =====
-- The trust store against the history of its approvals and clearings.
use istream.Prelude.{
  ℕ, ◌+◌, ◌≤◌, ◌≡◌, refl, String, Bool, false, ◌&&◌, Option, none, some, List, [], ◌∷◌, ltb, str_eq,
  if◌then◌else◌, All, arith, ◌<◌,
}
use istream.Prelude.Maps.{lookup, insert, remove, All-insert, All-remove}
use istream.Contracts.Connectivity.{ConnectionIntent, trust_duration_ms}
use istream.Values.{Json, object}
use istream.Trust.{
  PairedPeerRecord, InboundTrustCandidate, Store, key, find, is_trusted, record_for,
  remember_inbound, clear, load, remove_all, device_keys, index, valid_records, stored_records,
  validate_record, add_valid,
}
use istream.Trust.Keys.{same_intent}
use istream.Trust.Laws.{IsKeyed, Keyed, is_trusted-remember_inbound, find-clear, peers-clear}

pub data Change : Type 0 where
  remembers : (now : ℕ) → InboundTrustCandidate → Change
  clears : (device_id : String) → Change

abbrev pub empty : Store
empty = record { peers = []; written = [] }

-- Latest change first.
unfoldable pub run : List Change → Store
run [] = empty
run (remembers now c ∷ h) = remember_inbound now c (run h)
run (clears d ∷ h) = clear d (run h)

-- The specification: the last approval of the device for the intent, unless a clearing came after,
-- gave this key and is less than thirty days old.
unfoldable pub trusts : ℕ → String → String → ConnectionIntent → List Change → Bool
trusts now d k i [] = false
trusts now d k i (remembers t c ∷ h) =
    if str_eq c.device_id d && same_intent c.intent i
    then ltb now (t + trust_duration_ms) && str_eq c.public_key_der k
    else trusts now d k i h
trusts now d k i (clears e ∷ h) = if str_eq e d then false else trusts now d k i h

remember_inbound-IsKeyed :
    (now : ℕ) (c : InboundTrustCandidate) (s : Store)
    → IsKeyed s
    → IsKeyed (remember_inbound now c s)
unfolding remember_inbound
remember_inbound-IsKeyed now c s h =
    All-insert _ (key c.device_id c.intent) (record_for now c) s.peers h refl

remove_all-Keyed :
    (ks : List String) (m : List (String × PairedPeerRecord)) → Keyed m → Keyed (remove_all ks m)
unfolding remove_all
remove_all-Keyed [] m h = h
remove_all-Keyed (k ∷ ks) m h = remove_all-Keyed ks (remove k m) (All-remove _ k m h)

clear-IsKeyed : (d : String) (s : Store) → IsKeyed s → IsKeyed (clear d s)
clear-IsKeyed d s h = rw (peers-clear d s) (remove_all-Keyed (device_keys d s.peers) s.peers h)

pub run-IsKeyed : (h : List Change) → IsKeyed (run h)
unfolding run
run-IsKeyed [] = tt
run-IsKeyed (remembers now c ∷ h) = remember_inbound-IsKeyed now c (run h) (run-IsKeyed h)
run-IsKeyed (clears d ∷ h) = clear-IsKeyed d (run h) (run-IsKeyed h)

-- After any history of approvals and clearings, the store trusts a device with a key for an intent at
-- a time exactly if its last approval for that intent, with no clearing of the device behind it, gave
-- that key and is less than thirty days old.
pub is_trusted-run :
    (now : ℕ) (d k : String) (i : ConnectionIntent) (h : List Change)
    → is_trusted now d k i (run h) ≡ trusts now d k i h
unfolding run trusts is_trusted find lookup
is_trusted-run now d k i [] = refl
is_trusted-run now d k i (remembers t c ∷ h) =
    ground (arith, is_trusted-remember_inbound t now c d k i (run h), is_trusted-run now d k i h)
is_trusted-run now d k i (clears e ∷ h) =
    ground (arith, find-clear now e d i (run h) (run-IsKeyed h), is_trusted-run now d k i h)

index-Keyed :
    (m : List (String × PairedPeerRecord)) (rs : List PairedPeerRecord)
    → Keyed m
    → Keyed (index m rs)
unfolding index
index-Keyed m [] h = h
index-Keyed m (r ∷ rs) h =
    index-Keyed (insert (key r.device_id r.intent) r m) rs
      (All-insert _ (key r.device_id r.intent) r m h refl)

-- A record that a restart may take from the file.
pub record IsCurrent (now : ℕ) (r : PairedPeerRecord) : Type 0 where
  pub begun : r.trusted_at ≤ now
  pub ends : now < r.expires_at
  pub lasts : r.expires_at ≡ r.trusted_at + trust_duration_ms

validate_record_times :
    (now : ℕ) (v : Json) (r : PairedPeerRecord)
    → validate_record now v ≡ some r
    → (r.trusted_at ≤ now) × (r.expires_at ≡ r.trusted_at + trust_duration_ms)
unfolding validate_record
validate_record_times now (object c) r h = ground arith
validate_record_times now _ r h = cc

add_valid-IsCurrent :
    (now : ℕ) (o : Option PairedPeerRecord) (rs : List PairedPeerRecord)
    → ((r : PairedPeerRecord)
        → o ≡ some r
        → (r.trusted_at ≤ now) × (r.expires_at ≡ r.trusted_at + trust_duration_ms))
    → All (IsCurrent now) rs
    → All (IsCurrent now) (add_valid now o rs)
add_valid-IsCurrent now none rs f h = h
add_valid-IsCurrent now (some r) rs f h = let times = f r refl in ground arith

valid_records-IsCurrent : (now : ℕ) (vs : List Json) → All (IsCurrent now) (valid_records now vs)
unfolding valid_records
valid_records-IsCurrent now [] = tt
valid_records-IsCurrent now (v ∷ vs) =
    add_valid-IsCurrent now (validate_record now v) (valid_records now vs)
      (validate_record_times now v) (valid_records-IsCurrent now vs)

index-All :
    (P : PairedPeerRecord → Type 0) (m : List (String × PairedPeerRecord))
    (rs : List PairedPeerRecord)
    → All (λ e. P e.1) m
    → All P rs
    → All (λ e. P e.1) (index m rs)
unfolding index
index-All P m [] h k = h
index-All P m (r ∷ rs) h (p, k) =
    index-All P (insert (key r.device_id r.intent) r m) rs
      (All-insert _ (key r.device_id r.intent) r m h p) k

peers-load :
    (now : ℕ) (stored : Option Json) (s : Store)
    → (load now stored s).peers ≡ index [] (valid_records now (stored_records stored))
unfolding load
peers-load now stored s = ground arith

-- Whatever the file holds, a restart takes only records that were not begun in the future, are not
-- expired and last thirty days, each under its own key.
pub load-IsCurrent :
    (now : ℕ) (stored : Option Json) (s : Store)
    → IsKeyed (load now stored s) × All (λ e. IsCurrent now e.1) (load now stored s).peers
load-IsCurrent now stored s =
    let valid = valid_records now (stored_records stored) in
    rw (peers-load now stored s) (
      index-Keyed [] valid tt,
      index-All (IsCurrent now) [] valid tt (valid_records-IsCurrent now (stored_records stored)),
    )
