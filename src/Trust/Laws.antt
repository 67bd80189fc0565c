-- ===== src/Trust/Laws.antt =====
-- What single calls of the trust store do.
use istream.Prelude.{
  ℕ, ◌+◌, ◌≡◌, refl, String, Bool, true, false, ◌&&◌, none, some, List, [], ◌∷◌, ltb, str_eq,
  eq_iff, if◌then◌else◌, All, arith, length, ◌==◌,
}
use istream.Prelude.Maps.{lookup, remove, lookup-insert, lookup-remove}
use istream.Contracts.Connectivity.{ConnectionIntent, trust_duration_ms}
use istream.Trust.{
  PairedPeerRecord, InboundTrustCandidate, Store, key, find, is_trusted, record_for,
  remember_inbound, clear, device_keys, remove_all,
}
use istream.Trust.Keys.{eq-key, same_intent}

pub find-remember_inbound :
    (t now : ℕ) (c : InboundTrustCandidate) (d : String) (i : ConnectionIntent) (s : Store)
    → find now d i (remember_inbound t c s) ≡ (
        if str_eq c.device_id d && same_intent c.intent i
        then (if ltb now (t + trust_duration_ms) then some (record_for t c) else none)
        else find now d i s)
unfolding find remember_inbound
find-remember_inbound t now c d i s = ground (
  arith,
  lookup-insert (key c.device_id c.intent) (key d i) (record_for t c) s.peers,
  eq-key c.device_id d c.intent i,
)

pub is_trusted-remember_inbound :
    (t now : ℕ) (c : InboundTrustCandidate) (d k : String) (i : ConnectionIntent) (s : Store)
    → is_trusted now d k i (remember_inbound t c s) ≡ (
        if str_eq c.device_id d && same_intent c.intent i
        then (ltb now (t + trust_duration_ms) && str_eq c.public_key_der k)
        else is_trusted now d k i s)
unfolding is_trusted find
is_trusted-remember_inbound t now c d k i s = ground (arith, find-remember_inbound t now c d i s)

-- Each record stands under its own key.
abbrev pub IsKeyed : Store → Type 0
IsKeyed s = All (λ e. e.0 ≡ key e.1.device_id e.1.intent) s.peers

-- Whether a row of keys holds a key.
abbrev holds : String → List String → Bool
holds k [] = false
holds k (j ∷ js) = if str_eq j k then true else holds k js

remove_all-nil :
    (ks : List String) (m : List (String × PairedPeerRecord))
    → (length ks == 0) ≡ true
    → remove_all ks m ≡ m
unfolding remove_all
remove_all-nil [] m h = refl
remove_all-nil (k ∷ ks) m h = absurd (ground arith)

lookup-remove_all :
    (ks : List String) (k : String) (m : List (String × PairedPeerRecord))
    → lookup k (remove_all ks m) ≡ (if holds k ks then none else lookup k m)
unfolding remove_all
lookup-remove_all [] k m = refl
lookup-remove_all (j ∷ js) k m =
    ground (arith, lookup-remove_all js k (remove j m), lookup-remove j k m)

abbrev pub Keyed : List (String × PairedPeerRecord) → Type 0
Keyed = All (λ e. e.0 ≡ key e.1.device_id e.1.intent)

-- The keys of one device are no keys of another.
holds-device_keys_other :
    (d d' : String) (i : ConnectionIntent) (m : List (String × PairedPeerRecord))
    → Keyed m
    → str_eq d d' ≡ false
    → holds (key d' i) (device_keys d m) ≡ false
unfolding device_keys
holds-device_keys_other d d' i [] h ne = refl
holds-device_keys_other d d' i ((k, r) ∷ m) (e, h) ne = ground (
  arith,
  holds-device_keys_other d d' i m h ne,
  eq-key r.device_id d' r.intent i,
  eq_iff r.device_id d,
)

-- What a device's keys leave holds nothing for the device.
lookup-device_keys :
    (d : String) (i : ConnectionIntent) (m : List (String × PairedPeerRecord))
    → Keyed m
    → holds (key d i) (device_keys d m) ≡ false
    → lookup (key d i) m ≡ none
unfolding device_keys lookup
lookup-device_keys d i [] h out = refl
lookup-device_keys d i ((k, r) ∷ m) (e, h) out =
    ground
      (arith, lookup-device_keys d i m h, eq-key r.device_id d r.intent i, eq_iff r.device_id d)

lookup-cleared :
    (d d' : String) (i : ConnectionIntent) (m : List (String × PairedPeerRecord))
    → Keyed m
    → lookup (key d' i) (remove_all (device_keys d m) m)
      ≡ (if str_eq d d' then none else lookup (key d' i) m)
lookup-cleared d d' i m h = ground (
  arith,
  lookup-remove_all (device_keys d m) (key d' i) m,
  lookup-device_keys d i m h,
  holds-device_keys_other d d' i m h,
  eq_iff d d',
)

pub peers-clear :
    (d : String) (s : Store) → (clear d s).peers ≡ remove_all (device_keys d s.peers) s.peers
unfolding clear
peers-clear d s = ground (arith, remove_all-nil (device_keys d s.peers) s.peers)

-- In a store whose records stand under their own keys, clearing a device's trust forgets the device
-- for every intent, and leaves what is found of every other device.
pub find-clear :
    (now : ℕ) (d d' : String) (i : ConnectionIntent) (s : Store)
    → IsKeyed s
    → find now d' i (clear d s) ≡ (if str_eq d d' then none else find now d' i s)
unfolding find
find-clear now d d' i s h = ground (arith, lookup-cleared d d' i s.peers h, peers-clear d s)
