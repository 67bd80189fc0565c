-- ===== src/Servers/Streams.antt =====
-- What the clients of `/stream` and `/peer/snapshot` get.
use istream.Prelude.{
  ℕ, ◌≤◌, String, true, false, Option, none, some, List, [], ◌∷◌, ◌++◌, ◌≡◌, refl, ap, ◌∙◌, arith,
  max, min, if◌then◌else◌,
}
use mathlib.Core.List.{append_assoc, append-nil}
use istream.Prelude.Decimals.{to_decimal}
use istream.Contracts.Diagnostics.{CollectedDiagnosticRecord, Number}
use istream.Addressing.{parse_int}
use istream.Addressing.Quads.{numeral, no_digit, parse_int-numeral}
use istream.Servers.Loopback.{
  Client, Line, record_line, keep_alive, record_lines, broadcast, broadcast_keep_alive, clamped,
  requested_limit, default_peer_records_per_request, DiagnosticsHttpServer, open_stream,
}

-- The hub publishes records, or the timer of the keep-alive fires.
pub data StreamEvent : Type 0 where
  published : CollectedDiagnosticRecord → StreamEvent
  ticks : StreamEvent

pub stream_step : StreamEvent → List Client → List Client
stream_step (published r) cs = broadcast r cs
stream_step ticks cs = broadcast_keep_alive cs

-- The first event first.
unfoldable pub stream_run : List StreamEvent → List Client → List Client
unfolding stream_step
stream_run [] cs = cs
stream_run (e ∷ es) cs = stream_run es (stream_step e cs)

-- The lines that an open client has to get for these events.
abbrev pub lines_of : List StreamEvent → List Line
lines_of [] = []
lines_of (published r ∷ es) = record_line r ∷ lines_of es
lines_of (ticks ∷ es) = keep_alive ∷ lines_of es

-- The open clients with the lines added.
abbrev pub extended : List Line → List Client → List Client
extended ls [] = []
extended ls (c ∷ cs) =
    if c.ended then extended ls cs else record c { lines = c.lines ++ ls } ∷ extended ls cs

abbrev pub open_clients : List Client → List Client
open_clients [] = []
open_clients (c ∷ cs) = if c.ended then open_clients cs else c ∷ open_clients cs

extended-nil : (cs : List Client) → open_clients cs ≡ extended [] cs
extended-nil [] = refl
extended-nil (c ∷ cs) = ground (arith, extended-nil cs, append-nil c.lines)

extended-broadcast :
    (r : CollectedDiagnosticRecord) (ls : List Line) (cs : List Client)
    → extended ls (broadcast r cs) ≡ extended (record_line r ∷ ls) cs
unfolding broadcast
extended-broadcast r ls [] = refl
extended-broadcast r ls (c ∷ cs) =
    ground (arith, extended-broadcast r ls cs, append_assoc c.lines (record_line r ∷ []) ls)

extended-keep_alive :
    (ls : List Line) (cs : List Client)
    → extended ls (broadcast_keep_alive cs) ≡ extended (keep_alive ∷ ls) cs
unfolding broadcast_keep_alive
extended-keep_alive ls [] = refl
extended-keep_alive ls (c ∷ cs) =
    ground (arith, extended-keep_alive ls cs, append_assoc c.lines (keep_alive ∷ []) ls)

stream_run-extended :
    (es : List StreamEvent) (cs : List Client)
    → open_clients (stream_run es cs) ≡ extended (lines_of es) cs
unfolding stream_run stream_step
stream_run-extended [] cs = extended-nil cs
stream_run-extended (published r ∷ es) cs =
    stream_run-extended es (broadcast r cs) ∙ extended-broadcast r (lines_of es) cs
stream_run-extended (ticks ∷ es) cs =
    stream_run-extended es (broadcast_keep_alive cs) ∙ extended-keep_alive (lines_of es) cs

extended-append :
    (ls : List Line) (cs : List Client) (c : Client)
    → c.ended ≡ false
    → extended ls (cs ++ c ∷ []) ≡ extended ls cs ++ record c { lines = c.lines ++ ls } ∷ []
extended-append ls [] c h = ground (arith, h)
extended-append ls (d ∷ cs) c h = ground (arith, extended-append ls cs c h)

-- When a program opens the stream, and then records are published and the keep-alive fires in any
-- order, its response holds the records that the hub showed and behind them a line for each of these
-- events, in order; and every client that was open before has the same lines added to its own.
pub open_stream-lines :
    (id : ℕ) (shown : List CollectedDiagnosticRecord) (es : List StreamEvent)
    (s : DiagnosticsHttpServer)
    → open_clients (stream_run es (open_stream id shown s).clients)
      ≡ extended (lines_of es) s.clients
        ++ record { id = id; ended = false; lines = record_lines shown ++ lines_of es } ∷ []
unfolding open_stream
open_stream-lines id shown es s =
    let client : Client = record { id = id; ended = false; lines = record_lines shown } in
    stream_run-extended es (s.clients ++ client ∷ [])
    ∙ extended-append (lines_of es) s.clients client refl

clamped-bounds : (v : Option Number) (n : ℕ) → clamped v ≡ some n → (1 ≤ n) × (n ≤ 5000)
clamped-bounds v n h = ground arith

requested_limit-bounds :
    (query : Option String) (m : ℕ) → requested_limit query ≡ some m → (1 ≤ m) × (m ≤ 5000)
unfolding requested_limit
requested_limit-bounds none m h =
    clamped-bounds (parse_int (to_decimal default_peer_records_per_request)) m h
requested_limit-bounds (some text) m h = clamped-bounds (parse_int text) m h

-- A limit that the query gives as a decimal number, whatever stands behind its digits, is asked for
-- between 1 and 5000, and every limit that is asked for lies in these bounds.
pub requested_limit-numeral :
    (n : ℕ) (rest : String)
    → no_digit rest ≡ true
    → (requested_limit (some (numeral n rest)) ≡ some (max 1 (min 5000 n)))
      × ((query : Option String) (m : ℕ) → requested_limit query ≡ some m → (1 ≤ m) × (m ≤ 5000))
unfolding requested_limit
requested_limit-numeral n rest h = (ap clamped (parse_int-numeral n rest h), requested_limit-bounds)
