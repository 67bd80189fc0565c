-- ===== src/Trust/Latest.antt =====
-- Which record `getAny` finds of a device.
use istream.Prelude.{
  ℕ, ◌≤◌, ◌<◌, String, Bool, true, false, some, List, [], ◌∷◌, ◌≡◌, subst, ltb, str_eq, All, keep,
  arith, eq_iff, if◌then◌else◌,
}
use istream.Prelude.Maps.{values}
use istream.Trust.{PairedPeerRecord, Store, records, latest, latest?, get_any, unexpired}

latest-All :
    (P : PairedPeerRecord → Type 0) (rs : List PairedPeerRecord) (best : PairedPeerRecord)
    → P best
    → All P rs
    → P (latest best rs)
unfolding latest
latest-All P [] best h k = h
latest-All P (r ∷ rs) best h (p, k) =
    latest-All P rs (if ltb best.expires_at r.expires_at then r else best)
      (either (ltb best.expires_at r.expires_at)) k
  where
    either : (b : Bool) → P (if b then r else best)
    either true = p
    either false = h

All-le :
    (a b : ℕ) (rs : List PairedPeerRecord)
    → a ≤ b
    → All (λ q. q.expires_at ≤ a) rs
    → All (λ q. q.expires_at ≤ b) rs
All-le a b [] h k = tt
All-le a b (r ∷ rs) h (p, k) = (omega arith, All-le a b rs h k)

latest-max :
    (rs : List PairedPeerRecord) (best : PairedPeerRecord)
    → (best.expires_at ≤ (latest best rs).expires_at)
      × All (λ q. q.expires_at ≤ (latest best rs).expires_at) rs
unfolding latest
latest-max [] best = (omega arith, tt)
latest-max (r ∷ rs) best =
    let next : PairedPeerRecord = if ltb best.expires_at r.expires_at then r else best in
    let (least, rest) = latest-max rs next in
    let both : (best.expires_at ≤ next.expires_at) × (r.expires_at ≤ next.expires_at) =
      ground arith in
    (omega (arith, both.0, least), (omega (arith, both.1, least), rest))

latest?-max :
    (P : PairedPeerRecord → Type 0) (rs : List PairedPeerRecord) (r : PairedPeerRecord)
    → latest? rs ≡ some r
    → All P rs
    → P r × All (λ q. q.expires_at ≤ r.expires_at) rs
latest?-max P [] r e h = absurd (cc e)
latest?-max P (x ∷ xs) r e (p, h) =
    let same : latest x xs ≡ r = ground (arith, e) in
    subst (λ q. P q × All (λ o. o.expires_at ≤ q.expires_at) (x ∷ xs)) same
      (latest-All P xs x p h, latest-max xs x)

kept :
    (now : ℕ) (d : String) (rs : List PairedPeerRecord)
    → All
        (λ q. (q.device_id ≡ d) × (now < q.expires_at))
        (keep (λ q. str_eq q.device_id d) (keep (unexpired now) rs))
kept now d [] = tt
kept now d (r ∷ rs) = ground (arith, eq_iff r.device_id d, kept now d rs)

-- If a record of a device is found, whatever its intent, it is that device's, it has not expired, and
-- no other record of the device that has not expired does so later.
pub get_any-IsLatest :
    (now : ℕ) (device_id : String) (s : Store) (r : PairedPeerRecord)
    → get_any now device_id s ≡ some r
    → (r.device_id ≡ device_id)
      × (now < r.expires_at)
      × All
          (λ q. q.expires_at ≤ r.expires_at)
          (keep (λ q. str_eq q.device_id device_id) (records now s))
unfolding get_any
get_any-IsLatest now device_id s r e =
    let ((same, valid), last) =
      latest?-max (λ q. (q.device_id ≡ device_id) × (now < q.expires_at))
        (keep (λ q. str_eq q.device_id device_id) (records now s)) r e
        (kept now device_id (values s.peers)) in
    (same, valid, last)
