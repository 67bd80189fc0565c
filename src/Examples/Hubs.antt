-- ===== src/Examples/Hubs.antt =====
-- A hub at work, and what the theorems on the hub state of it.
use istream.Prelude.{ℕ, ◌≤◌, ◌+◌, [], ◌∷◌, ◌++◌, length, All, arith}
use istream.Contracts.Diagnostics.{
  DiagnosticRecord, CollectedDiagnosticRecord, int, network, information, local, remote,
}
use istream.Hub.{DiagnosticsHub, publish, snapshot}
use istream.Hub.Retention.{Suffix, EndsWith, publish-Suffix, snapshot-Suffix}

abbrev pub sample : ℕ → DiagnosticRecord
sample n = record {
  schema_version = 1;
  sequence = n;
  timestamp = int 1000;
  origin_device_id = "d1";
  origin_display_name = "Desk";
  category = network;
  severity = information;
  event = "connection.sample";
  values = [];
}

abbrev pub collected : ℕ → ℕ → CollectedDiagnosticRecord
collected n at = record { received_at = at; source = local; record_of = sample n }

-- Room for two records, each kept for 100 milliseconds.
abbrev pub hub : DiagnosticsHub
hub = record {
  record_limit = 2;
  retention_duration_ms = 100;
  records = collected 1 1000 ∷ collected 2 1050 ∷ [];
  notified = [];
}

publish-Suffix_example :
    (length (publish 1060 (sample 3) remote hub).records ≤ 2)
    × Suffix
        (publish 1060 (sample 3) remote hub).records
        (hub.records ++ record { received_at = 1060; source = remote; record_of = sample 3 } ∷ [])
    × EndsWith
        (record { received_at = 1060; source = remote; record_of = sample 3 })
        (publish 1060 (sample 3) remote hub).records
publish-Suffix_example = publish-Suffix 1060 (sample 3) remote hub (omega arith)

snapshot-Suffix_example :
    (length (snapshot 1120 hub).0 ≤ 2)
    × Suffix (snapshot 1120 hub).0 hub.records
    × All (λ q. 1120 ≤ q.received_at + 100) (snapshot 1120 hub).0
snapshot-Suffix_example = snapshot-Suffix 1120 hub ((omega arith, tt), (tt, tt))
