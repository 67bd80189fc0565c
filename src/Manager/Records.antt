-- ===== src/Manager/Records.antt =====
-- The records that a manager shows to the other computer, and those that it hears of.
use istream.Prelude.{
  ℕ, zero, suc, ◌≤◌, ◌-◌, Bool, true, false, List, [], ◌∷◌, ◌≡◌, refl, arith, length, length-drop,
  All, keep, drop, ◌==◌, if◌then◌else◌, ◌⊎◌, inl, inr, ap,
}
use istream.Contracts.Diagnostics.{DiagnosticRecord, CollectedDiagnosticRecord}
use istream.Hub.{DiagnosticsHub, snapshot}
use istream.Manager.{local_diagnostic_records, is_local, records_of}

length-records_of : (cs : List CollectedDiagnosticRecord) → length (records_of cs) ≡ length cs
length-records_of [] = refl
length-records_of (c ∷ cs) = ap suc (length-records_of cs)

-- Whether `wanted` is among the records of this computer in the list.
abbrev Mem : DiagnosticRecord → List CollectedDiagnosticRecord → Type 0
Mem wanted [] = ⊥
Mem wanted (c ∷ cs) = ((c.record_of ≡ wanted) × (is_local c ≡ true)) ⊎ Mem wanted cs

All-weaken :
    (P Q : DiagnosticRecord → Type 0) (rs : List DiagnosticRecord)
    → ((r : DiagnosticRecord) → P r → Q r)
    → All P rs
    → All Q rs
All-weaken P Q [] f h = tt
All-weaken P Q (r ∷ rs) f (h, k) = (f r h, All-weaken P Q rs f k)

All-first :
    (c : CollectedDiagnosticRecord) (cs : List CollectedDiagnosticRecord) (b : Bool)
    → is_local c ≡ b
    → All (λ r. Mem r (c ∷ cs)) (records_of (keep is_local cs))
    → All (λ r. Mem r (c ∷ cs)) (records_of (if b then c ∷ keep is_local cs else keep is_local cs))
All-first c cs true own h = (inl (refl, own), h)
All-first c cs false other h = h

-- The local records of a list, or the last of them, are among those of the list.
All-keep-local :
    (cs : List CollectedDiagnosticRecord) → All (λ r. Mem r cs) (records_of (keep is_local cs))
All-keep-local [] = tt
All-keep-local (c ∷ cs) = All-first c cs (is_local c) refl (
    All-weaken (λ r. Mem r cs) (λ r. Mem r (c ∷ cs)) (records_of (keep is_local cs)) (λ r. inr)
      (All-keep-local cs))

All-records_of-drop :
    (P : DiagnosticRecord → Type 0) (n : ℕ) (cs : List CollectedDiagnosticRecord)
    → All P (records_of cs)
    → All P (records_of (drop n cs))
All-records_of-drop P zero cs h = h
All-records_of-drop P (suc n) [] h = h
All-records_of-drop P (suc n) (c ∷ cs) (h, k) = All-records_of-drop P n cs k

not_zero : (n : ℕ) → 1 ≤ n → (n == 0) ≡ false
not_zero n h = ground arith

-- What the other computer gets for a positive limit is at most that many records, each of them a
-- record of this computer that the hub shows at this moment.
local_diagnostic_records-bounds :
    (now : ℕ) (hub : DiagnosticsHub) (limit : ℕ)
    → 1 ≤ limit
    → (length (local_diagnostic_records now hub limit) ≤ limit)
      × All (λ r. Mem r (snapshot now hub).0) (local_diagnostic_records now hub limit)
unfolding local_diagnostic_records
local_diagnostic_records-bounds now hub limit positive =
    let cs = (snapshot now hub).0 in
    let kept = keep is_local cs in
    let n = length kept - limit in
    let all_kept = All-records_of-drop (λ r. Mem r cs) n kept (All-keep-local cs) in
    (
      ground (arith, length-records_of (drop n kept), length-records_of kept, length-drop n kept),
      rw (not_zero limit positive) all_kept,
    )
