-- ===== src/Facade/Complete.antt =====
-- Which computers the list of the window has.
use istream.Prelude.{
  ℕ, String, Bool, true, false, not, ◌&&◌, ◌||◌, Option, none, some, List, [], ◌∷◌, keep, str_eq,
  is_none, ◌≡◌, refl, arith, eq_iff, ap, ◌∙◌, sym, Bool-cases, inl, inr,
}
use istream.Prelude.Maps.{Table, insert, lookup, values, lookup-insert}
use istream.Contracts.Connectivity.{ActiveConnectionDescriptor, DiscoveredPeerDescriptor}
use istream.Trust.{Store, PairedPeerRecord, get_any, records, latest?}
use istream.Facade.Descriptors.{
  trust_of, trusted_records, describe_live, add_live, place_record, by_expiry, describe_trusted,
  add_trusted, place_peer, arranged, descriptor_table, peer_descriptors,
}

-- Whether there is a record of the device.
abbrev pub is_trusted_device : String → List PairedPeerRecord → Bool
is_trusted_device id [] = false
is_trusted_device id (r ∷ rs) = str_eq r.device_id id || is_trusted_device id rs

-- Whether the device stands in the list as a trusted one.
abbrev pub lists_paired : String → List DiscoveredPeerDescriptor → Bool
lists_paired id [] = false
lists_paired id (d ∷ ds) = (str_eq d.device_id id && d.paired) || lists_paired id ds

abbrev shows : String → Option DiscoveredPeerDescriptor → Bool
shows id none = false
shows id (some d) = str_eq d.device_id id && d.paired

-- What is looked up under the device is absent or shows it as trusted.
abbrev hides_nothing : String → Option DiscoveredPeerDescriptor → Bool
hides_nothing id o = is_none o || shows id o

get_any-some :
    (now : ℕ) (id : String) (rs : List PairedPeerRecord)
    → is_trusted_device id rs ≡ true
    → is_none (latest? (keep (λ r. str_eq r.device_id id) rs)) ≡ false
get_any-some now id [] h = absurd (cc h)
get_any-some now id (r ∷ rs) h = ground (arith, get_any-some now id rs)

trust_of-some :
    (now : ℕ) (id : String) (store : Option Store)
    → is_trusted_device id (trusted_records now store) ≡ true
    → is_none (trust_of now id store) ≡ false
unfolding get_any
trust_of-some now id none h = absurd (cc h)
trust_of-some now id (some store) h = get_any-some now id (records now store) h

insert-hides_nothing :
    (id k : String) (d : DiscoveredPeerDescriptor) (table : Table DiscoveredPeerDescriptor)
    → d.device_id ≡ k
    → (str_eq k id ≡ true → d.paired ≡ true)
    → hides_nothing id (lookup id table) ≡ true
    → hides_nothing id (lookup id (insert k d table)) ≡ true
insert-hides_nothing id k d table own paired h =
    rw (sym (lookup-insert k id d table)) (ground (arith, own, paired, h))

live-paired :
    (now : ℕ) (id : String) (store : Option Store) (d : DiscoveredPeerDescriptor)
    → is_none (trust_of now id store) ≡ false
    → str_eq d.device_id id ≡ true
    → (describe_live now store d).paired ≡ true
unfolding describe_live
live-paired now id store d trusted e =
    let same = (eq_iff d.device_id id).0 e in rw same (ap not trusted)

add_live-hides_nothing :
    (now : ℕ) (id : String) (store : Option Store) (ds : List DiscoveredPeerDescriptor)
    (table : Table DiscoveredPeerDescriptor)
    → is_none (trust_of now id store) ≡ false
    → hides_nothing id (lookup id table) ≡ true
    → hides_nothing id (lookup id (add_live now store ds table)) ≡ true
unfolding add_live describe_live
add_live-hides_nothing now id store [] table trusted h = h
add_live-hides_nothing now id store (d ∷ ds) table trusted h =
    add_live-hides_nothing now id store ds (insert d.device_id (describe_live now store d) table)
      trusted
      (insert-hides_nothing id d.device_id (describe_live now store d) table refl
        (live-paired now id store d trusted) h)

add_trusted-shows :
    (now : ℕ) (id : String) (c : ActiveConnectionDescriptor) (retained rest : List PairedPeerRecord)
    (table : Table DiscoveredPeerDescriptor)
    → hides_nothing id (lookup id table) ≡ true
    → (is_trusted_device id rest || not (is_none (lookup id table))) ≡ true
    → shows id (lookup id (add_trusted now c retained rest table)) ≡ true
unfolding add_trusted describe_trusted
add_trusted-shows now id c retained [] table h there = ground arith
add_trusted-shows now id c retained (r ∷ rest) table h there =
    let v = describe_trusted now c retained r in
    elim (Bool-cases (is_none (lookup r.device_id table))) [
      | inl absent ↦ rw absent (
          add_trusted-shows now id c retained rest (insert r.device_id v table)
            (insert-hides_nothing id r.device_id v table refl (λ e. refl) h)
            (ground (arith, there, lookup-insert r.device_id id v table)))
      | inr present ↦ rw present (
          add_trusted-shows now id c retained rest table h
            (ground (arith, there, present, eq_iff r.device_id id)))
    ]

is_trusted_device-place :
    (id : String) (r : PairedPeerRecord) (rs : List PairedPeerRecord)
    → is_trusted_device id (place_record r rs) ≡ (str_eq r.device_id id || is_trusted_device id rs)
unfolding place_record
is_trusted_device-place id r [] = refl
is_trusted_device-place id r (q ∷ qs) = ground (arith, is_trusted_device-place id r qs)

is_trusted_device-by_expiry :
    (id : String) (rs : List PairedPeerRecord)
    → is_trusted_device id (by_expiry rs) ≡ is_trusted_device id rs
unfolding by_expiry
is_trusted_device-by_expiry id [] = refl
is_trusted_device-by_expiry id (r ∷ rs) =
    ground (arith, is_trusted_device-place id r (by_expiry rs), is_trusted_device-by_expiry id rs)

lists_paired-values :
    (id : String) (table : Table DiscoveredPeerDescriptor)
    → shows id (lookup id table) ≡ true
    → lists_paired id (values table) ≡ true
unfolding lookup
lists_paired-values id [] h = h
lists_paired-values id ((k, d) ∷ table) h = ground (arith, lists_paired-values id table)

lists_paired-place :
    (order : String → String → Bool) (id : String) (d : DiscoveredPeerDescriptor)
    (ds : List DiscoveredPeerDescriptor)
    → lists_paired id (place_peer order d ds)
      ≡ ((str_eq d.device_id id && d.paired) || lists_paired id ds)
unfolding place_peer
lists_paired-place order id d [] = refl
lists_paired-place order id d (e ∷ es) = ground (arith, lists_paired-place order id d es)

lists_paired-arranged :
    (order : String → String → Bool) (id : String) (ds : List DiscoveredPeerDescriptor)
    → lists_paired id (arranged order ds) ≡ lists_paired id ds
unfolding arranged
lists_paired-arranged order id [] = refl
lists_paired-arranged order id (d ∷ ds) =
    ground
      (arith, lists_paired-place order id d (arranged order ds), lists_paired-arranged order id ds)

-- Every device of which the trust store holds an unexpired record is listed as a trusted one, whether
-- discovery hears it or not and whatever the connection is.
pub peer_descriptors-lists_paired :
    (order : String → String → Bool) (now : ℕ) (c : ActiveConnectionDescriptor)
    (live : List DiscoveredPeerDescriptor) (store : Store) (id : String)
    → is_trusted_device id (records now store) ≡ true
    → lists_paired id (peer_descriptors order now c live (some store)) ≡ true
unfolding peer_descriptors descriptor_table lookup
peer_descriptors-lists_paired order now c live store id trusted =
    let retained = by_expiry (records now store) in
    let first = add_live now (some store) live [] in
    let kept = is_trusted_device-by_expiry id (records now store) ∙ trusted in
    let safe =
      add_live-hides_nothing now id (some store) live [] (trust_of-some now id (some store) trusted)
        refl in
    lists_paired-arranged order id (values (add_trusted now c retained retained first))
    ∙ lists_paired-values id (add_trusted now c retained retained first)
        (add_trusted-shows now id c retained retained first safe (ground (arith, kept)))
