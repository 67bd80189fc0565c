-- ===== src/Examples/Serving.antt =====
-- Servers at work, and what the theorems on them state.
use istream.Prelude.{
  ℕ, ◌+◌, ◌<◌, true, false, some, [], ◌∷◌, ◌++◌, ◌≡◌, refl, arith, Result, ok, thrown, ◌==◌,
  if◌then◌else◌, zero, suc,
}
use istream.Servers.Ports.{is_thrown}
use istream.Servers.Control as C
use istream.Servers.Control.{
  ControlServer, new_control_server, start-first, start-none, normalize, behind,
}
use istream.Servers.Loopback.{
  DiagnosticsHttpServer, new_http_server, open_stream, requested_limit, record_line, keep_alive,
  record_lines,
}
use istream.Addressing.Quads.{numeral}
use istream.Servers.Streams.{
  published, ticks, stream_run, open_clients, extended, open_stream-lines, requested_limit-numeral,
}
use istream.Examples.Hubs.{collected}

-- Two ports are taken.
abbrev system : ℕ → Result ℕ
system port =
    if port == 47778 then thrown "in use" else if port == 47779 then thrown "in use" else ok port

two_taken : (j : ℕ) → j < 2 → is_thrown (system (47778 + j)) ≡ true
two_taken zero h = refl
two_taken (suc zero) h = refl
two_taken (suc (suc j)) h = absurd (omega arith)

start-first_example :
    (C.start system 47778 new_control_server ≡ (ok 47780, record { server = true; port = 47780 }))
    × ((again : ℕ)
        → C.start system again (C.start system 47778 new_control_server).1
          ≡ (ok 47780, (C.start system 47778 new_control_server).1))
unfolding new_control_server
start-first_example =
    start-first system 47778 2 47780 new_control_server refl (omega arith) (omega arith) two_taken
      refl

mapped_address : normalize (some "::ffff:10.0.0.2") ≡ "10.0.0.2"
unfolding normalize behind
mapped_address = refl

watching : DiagnosticsHttpServer
unfolding new_http_server
watching = record new_http_server {
  clients =
      record { id = 1; ended = true; lines = [] }
      ∷ record { id = 2; ended = false; lines = [] }
      ∷ [];
}

open_stream-lines_example :
    open_clients (
      stream_run
        (published (collected 2 1050) ∷ ticks ∷ [])
        (open_stream 3 (collected 1 1000 ∷ []) watching).clients)
    ≡ extended (record_line (collected 2 1050) ∷ keep_alive ∷ []) watching.clients
      ++ record {
        id = 3;
        ended = false;
        lines =
            record_lines (collected 1 1000 ∷ [])
            ++ record_line (collected 2 1050) ∷ keep_alive ∷ [];
      }
        ∷ []
open_stream-lines_example =
    open_stream-lines 3 (collected 1 1000 ∷ []) (published (collected 2 1050) ∷ ticks ∷ []) watching

too_many : requested_limit (some (numeral 9000 "&x=1")) ≡ some 5000
too_many = (requested_limit-numeral 9000 "&x=1" refl).0
