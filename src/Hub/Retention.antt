-- ===== src/Hub/Retention.antt =====
-- What the hub keeps of the records that are published, and what it shows.
use istream.Prelude.{
  ℕ, ◌+◌, ◌≤◌, ◌<◌, Bool, true, false, List, [], ◌∷◌, ◌++◌, length, ◌≡◌, refl, ap, sym, subst, ◌∙◌,
  All, arith, if◌then◌else◌,
}
use mathlib.Core.List.{append_assoc}
use istream.Contracts.Diagnostics.{
  DiagnosticRecord, CollectedDiagnosticRecord, DiagnosticEventSource,
}
use istream.Hub.{DiagnosticsHub, drop_old, drop_excess, prune, publish, snapshot}

-- Received in this order.
abbrev pub InOrder : List CollectedDiagnosticRecord → Type 0
InOrder [] = Unit
InOrder (r ∷ rs) = All (λ q. r.received_at ≤ q.received_at) rs × InOrder rs

-- What is dropped stands in front.
abbrev pub Suffix : List CollectedDiagnosticRecord → List CollectedDiagnosticRecord → Type 0
Suffix rs all = (front : List CollectedDiagnosticRecord) × (front ++ rs ≡ all)

Suffix-trans :
    (xs ys zs : List CollectedDiagnosticRecord) → Suffix xs ys → Suffix ys zs → Suffix xs zs
Suffix-trans xs ys zs (f, e) (g, k) = (g ++ f, append_assoc g f xs ∙ ap (λ l. g ++ l) e ∙ k)

Suffix-if :
    (b : Bool) (r : CollectedDiagnosticRecord) (xs rs : List CollectedDiagnosticRecord)
    → Suffix xs rs
    → Suffix (if b then xs else r ∷ rs) (r ∷ rs)
Suffix-if true r xs rs (front, e) = (r ∷ front, ap (◌∷◌ r) e)
Suffix-if false r xs rs h = ([], refl)

drop_old-Suffix : (now d : ℕ) (rs : List CollectedDiagnosticRecord) → Suffix (drop_old now d rs) rs
unfolding drop_old
drop_old-Suffix now d [] = ([], refl)
drop_old-Suffix now d (r ∷ rs) = Suffix-if _ r (drop_old now d rs) rs (drop_old-Suffix now d rs)

drop_excess-Suffix :
    (limit : ℕ) (rs : List CollectedDiagnosticRecord) → Suffix (drop_excess limit rs) rs
unfolding drop_excess
drop_excess-Suffix limit [] = ([], refl)
drop_excess-Suffix limit (r ∷ rs) =
    Suffix-if _ r (drop_excess limit rs) rs (drop_excess-Suffix limit rs)

length-drop_excess :
    (limit : ℕ) (rs : List CollectedDiagnosticRecord) → length (drop_excess limit rs) ≤ limit
unfolding drop_excess
length-drop_excess limit [] = omega arith
length-drop_excess limit (r ∷ rs) = ground (arith, length-drop_excess limit rs)

-- The latest record is kept: it is not old, and there is room for one.
drop_old-append :
    (now d : ℕ) (rs : List CollectedDiagnosticRecord) (c : CollectedDiagnosticRecord)
    → now ≤ c.received_at + d
    → drop_old now d (rs ++ c ∷ []) ≡ drop_old now d rs ++ c ∷ []
unfolding drop_old
drop_old-append now d [] c h = ground arith
drop_old-append now d (r ∷ rs) c h = ground (arith, drop_old-append now d rs c h)

-- A list that ends with a record.
abbrev pub EndsWith : CollectedDiagnosticRecord → List CollectedDiagnosticRecord → Type 0
EndsWith c rs = (init : List CollectedDiagnosticRecord) × (rs ≡ init ++ c ∷ [])

EndsWith-if :
    (b : Bool) (c r : CollectedDiagnosticRecord) (xs rs : List CollectedDiagnosticRecord)
    → EndsWith c xs
    → EndsWith c (if b then xs else r ∷ rs ++ c ∷ [])
EndsWith-if true c r xs rs h = h
EndsWith-if false c r xs rs h = (r ∷ rs, refl)

drop_excess-EndsWith :
    (limit : ℕ) (rs : List CollectedDiagnosticRecord) (c : CollectedDiagnosticRecord)
    → 0 < limit
    → EndsWith c (drop_excess limit (rs ++ c ∷ []))
unfolding drop_excess
drop_excess-EndsWith limit [] c h = ([], ground arith)
drop_excess-EndsWith limit (r ∷ rs) c h =
    EndsWith-if _ c r (drop_excess limit (rs ++ c ∷ [])) rs (drop_excess-EndsWith limit rs c h)

-- The hub keeps at most as many records as its limit allows. What a publication keeps is a rest of
-- the records before it and the new one, so that the oldest are dropped first, and the new record is
-- always kept, if the limit is not 0.
pub publish-Suffix :
    (now : ℕ) (r : DiagnosticRecord) (source : DiagnosticEventSource) (h : DiagnosticsHub)
    → 0 < h.record_limit
    → (length (publish now r source h).records ≤ h.record_limit)
      × Suffix
          (publish now r source h).records
          (h.records ++ record { received_at = now; source = source; record_of = r } ∷ [])
      × EndsWith
          (record { received_at = now; source = source; record_of = r })
          (publish now r source h).records
unfolding publish prune
publish-Suffix now r source h room =
    let c : CollectedDiagnosticRecord = record {
      received_at = now;
      source = source;
      record_of = r;
    } in
    let d = h.retention_duration_ms in
    let young = drop_old now d (h.records ++ c ∷ []) in
    (
      length-drop_excess h.record_limit young,
      Suffix-trans (drop_excess h.record_limit young) young (h.records ++ c ∷ [])
          (drop_excess-Suffix h.record_limit young) (drop_old-Suffix now d (h.records ++ c ∷ [])),
      subst (λ xs. EndsWith c (drop_excess h.record_limit xs))
          (sym (drop_old-append now d h.records c (omega arith)))
          (drop_excess-EndsWith h.record_limit (drop_old now d h.records) c room),
    )

All-later :
    (now d : ℕ) (r : CollectedDiagnosticRecord) (rs : List CollectedDiagnosticRecord)
    → now ≤ r.received_at + d
    → All (λ q. r.received_at ≤ q.received_at) rs
    → All (λ q. now ≤ q.received_at + d) rs
All-later now d r [] h k = tt
All-later now d r (q ∷ rs) h (first, k) = (omega arith, All-later now d r rs h k)

drop_old-young :
    (now d : ℕ) (rs : List CollectedDiagnosticRecord)
    → InOrder rs
    → All (λ q. now ≤ q.received_at + d) (drop_old now d rs)
unfolding drop_old
drop_old-young now d [] h = tt
drop_old-young now d (r ∷ rs) (later, h) =
    ground (arith, drop_old-young now d rs h, All-later now d r rs)

All-Suffix :
    (P : CollectedDiagnosticRecord → Type 0) (front rs all : List CollectedDiagnosticRecord)
    → front ++ rs ≡ all
    → All P all
    → All P rs
All-Suffix P front rs all e h = All-back front rs (subst (All P) (sym e) h)
  where
    All-back : (front rs : List CollectedDiagnosticRecord) → All P (front ++ rs) → All P rs
    All-back [] rs h = h
    All-back (q ∷ front) rs (p, h) = All-back front rs h

-- A snapshot of records that were received in order shows at most as many as the limit allows, a
-- rest of what the hub held, and none that is older than the retention allows.
pub snapshot-Suffix :
    (now : ℕ) (h : DiagnosticsHub)
    → InOrder h.records
    → (length (snapshot now h).0 ≤ h.record_limit)
      × Suffix (snapshot now h).0 h.records
      × All (λ q. now ≤ q.received_at + h.retention_duration_ms) (snapshot now h).0
unfolding snapshot prune
snapshot-Suffix now h order =
    let young = drop_old now h.retention_duration_ms h.records in
    let (front, split) = drop_excess-Suffix h.record_limit young in
    (
      length-drop_excess h.record_limit young,
      Suffix-trans (drop_excess h.record_limit young) young h.records
          (drop_excess-Suffix h.record_limit young)
          (drop_old-Suffix now h.retention_duration_ms h.records),
      All-Suffix (λ q. now ≤ q.received_at + h.retention_duration_ms) front
          (drop_excess h.record_limit young) young split
          (drop_old-young now h.retention_duration_ms h.records order),
    )
