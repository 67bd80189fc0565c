-- ===== src/Hub.antt =====
-- `DiagnosticsHub` of src/main/diagnostics/DiagnosticsHub.ts: the diagnostic records that are kept,
-- oldest first. `notified` is what its listeners were told, latest first.
pub mod Retention
use istream.Prelude.{
  ℕ, ◌+◌, ◌-◌, Bool, List, [], ◌∷◌, ◌++◌, length, ltb, if◌then◌else◌, Result, ok, thrown, leb, not,
  ◌&&◌,
}
use istream.Values.{max_safe_integer}
use istream.Contracts.Diagnostics.{
  DiagnosticRecord, CollectedDiagnosticRecord, DiagnosticEventSource,
}

pub record DiagnosticsHub : Type 0 where
  pub record_limit : ℕ
  pub retention_duration_ms : ℕ
  pub records : List CollectedDiagnosticRecord
  pub notified : List CollectedDiagnosticRecord

abbrev positive_safe_integer : ℕ → Bool
positive_safe_integer n = leb n max_safe_integer && not (ltb n 1)

unfoldable pub new_hub : ℕ → ℕ → Result DiagnosticsHub
new_hub record_limit retention_duration_ms =
    if not (positive_safe_integer record_limit)
    then thrown "Diagnostic record limit must be a positive safe integer."
    else if not (positive_safe_integer retention_duration_ms)
    then thrown "Diagnostic retention duration must be a positive safe integer."
    else ok (record {
      record_limit = record_limit;
      retention_duration_ms = retention_duration_ms;
      records = [];
      notified = [];
    })

-- The first loop of `prune`; `receivedAt < now - retention` without a number below 0.
unfoldable pub drop_old : ℕ → ℕ → List CollectedDiagnosticRecord → List CollectedDiagnosticRecord
drop_old now retention [] = []
drop_old now retention (r ∷ rs) =
    let rest = drop_old now retention rs in
    if ltb (r.received_at + retention) now then rest else r ∷ rs

-- The second loop of `prune`.
unfoldable pub drop_excess : ℕ → List CollectedDiagnosticRecord → List CollectedDiagnosticRecord
drop_excess limit [] = []
drop_excess limit (r ∷ rs) =
    let rest = drop_excess limit rs in if ltb limit (length (r ∷ rs)) then rest else r ∷ rs

unfoldable pub prune : ℕ → DiagnosticsHub → DiagnosticsHub
unfolding drop_old drop_excess
prune now h = record h {
  records = drop_excess h.record_limit (drop_old now h.retention_duration_ms h.records);
}

unfoldable pub publish :
    ℕ → DiagnosticRecord → DiagnosticEventSource → DiagnosticsHub → DiagnosticsHub
unfolding prune
publish now r source h =
    let collected : CollectedDiagnosticRecord = record {
      received_at = now;
      source = source;
      record_of = r;
    } in
    let pruned = prune now (record h { records = h.records ++ collected ∷ [] }) in
    record pruned { notified = collected ∷ pruned.notified }

unfoldable pub snapshot : ℕ → DiagnosticsHub → List CollectedDiagnosticRecord × DiagnosticsHub
unfolding prune
snapshot now h = let pruned = prune now h in (pruned.records, pruned)
