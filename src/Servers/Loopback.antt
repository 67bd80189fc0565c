-- ===== src/Servers/Loopback.antt =====
-- `DiagnosticsHttpServer` of src/main/diagnostics/DiagnosticsHttpServer.ts: the hub's records for
-- programs on the same computer. A response is what is written on it; the header lines are left out,
-- and JSON stands for its text.
use istream.Prelude.{
  ℕ, String, text_append, Bool, true, false, not, Option, none, some, List, [], ◌∷◌, ◌++◌, ◌==◌,
  str_eq, if◌then◌else◌, Result, ok, thrown, Attempt, min, max, length, map, is_none,
}
use istream.Prelude.Decimals.{to_decimal}
use istream.Contracts.Diagnostics.{
  CollectedDiagnosticRecord, Number, int, maximum_peer_records_per_request, retained_duration_ms,
  retained_record_limit,
}
use istream.Hub.{DiagnosticsHub, snapshot}
use istream.Addressing.{parse_int}
use istream.Servers.Ports.{try_ports, rounds}
use istream.Servers.Control.{behind}

-- One line of a stream: a record as JSON, or the empty line that keeps the stream alive.
pub data Line : Type 0 where
  record_line : CollectedDiagnosticRecord → Line
  keep_alive : Line

-- A client of `/stream`: whether its response was ended or destroyed, and what was written on it.
pub record Client : Type 0 where
  pub id : ℕ
  pub ended : Bool
  pub lines : List Line

pub record DiagnosticsHttpServer : Type 0 where
  pub server : Bool
  pub port : ℕ
  pub subscribed : Bool
  pub keep_alive_timer : Bool
  pub clients : List Client

unfoldable pub new_http_server : DiagnosticsHttpServer
new_http_server = record {
  server = false;
  port = 0;
  subscribed = false;
  keep_alive_timer = false;
  clients = [];
}

pub record DiagnosticsEndpointDescriptor : Type 0 where
  pub base_url : String
  pub snapshot_command : String
  pub stream_command : String
  pub peer_snapshot_command : String
  pub retained_duration : ℕ
  pub retained_limit : ℕ

abbrev pub base_url_of : ℕ → String
base_url_of port = text_append "http://127.0.0.1:" (to_decimal port)

unfoldable pub descriptor : DiagnosticsHttpServer → Option DiagnosticsEndpointDescriptor
descriptor s =
    if s.port == 0
    then none
    else some (record {
      base_url = base_url_of s.port;
      snapshot_command = text_append "curl.exe " (text_append (base_url_of s.port) "/snapshot");
      stream_command = text_append "curl.exe -N " (text_append (base_url_of s.port) "/stream");
      peer_snapshot_command =
          text_append "curl.exe " (text_append (base_url_of s.port) "/peer/snapshot");
      retained_duration = retained_duration_ms;
      retained_limit = retained_record_limit;
    })

-- The outcome of the loop over the ports.
unfoldable pub opened : Result ℕ → Attempt DiagnosticsHttpServer ℕ
opened (ok bound) s =
    (ok bound, record s { server = true; port = bound; subscribed = true; keep_alive_timer = true })
opened (thrown e) s = (thrown e, s)

unfoldable pub start : (ℕ → Result ℕ) → ℕ → Attempt DiagnosticsHttpServer ℕ
unfolding opened
start listen preferred s =
    if s.server
    then (ok s.port, s)
    else opened
        (try_ports listen "No loopback diagnostics port is available." (rounds preferred) preferred
          none)
        s

abbrev pub finished : Client → Client
finished c = record c { ended = true }

-- `stop` ends the responses of all clients and forgets them: the second part is what it ended.
unfoldable pub stop : DiagnosticsHttpServer → DiagnosticsHttpServer × List Client
stop s = (
  record { server = false; port = 0; subscribed = false; keep_alive_timer = false; clients = [] },
  map finished s.clients,
)

-- What a request is answered with, and whether `/peer/snapshot` is left to `writeRemoteSnapshot`.
pub data Answer : Type 0 where
  failure : (status : ℕ) (message : String) → Answer
  records : List CollectedDiagnosticRecord → Answer
  health : (retained_records : ℕ) → Answer
  stream : List Line → Answer
  remote_snapshot : Answer

abbrev pub record_lines : List CollectedDiagnosticRecord → List Line
record_lines [] = []
record_lines (r ∷ rs) = record_line r ∷ record_lines rs

-- `openStream` for the response `id`.
unfoldable pub open_stream :
    ℕ → List CollectedDiagnosticRecord → DiagnosticsHttpServer → DiagnosticsHttpServer
open_stream id shown s = record s {
  clients = s.clients ++ record { id = id; ended = false; lines = record_lines shown } ∷ [];
}

-- The handler of a request; `id` is its response.
unfoldable pub handle_request :
    (now id : ℕ) (method url : String)
    → DiagnosticsHub × DiagnosticsHttpServer
    → Answer × DiagnosticsHub × DiagnosticsHttpServer
unfolding open_stream
handle_request now id method url (hub, s) =
    let shown = snapshot now hub in
    if not (str_eq method "GET")
    then (failure 405 "Only GET is supported.", hub, s)
    else if str_eq url "/snapshot"
    then (records shown.0, shown.1, s)
    else if str_eq url "/stream"
    then (stream (record_lines shown.0), shown.1, open_stream id shown.0 s)
    else if str_eq url "/health"
    then (health (length shown.0), shown.1, s)
    else if not (is_none (behind "/peer/snapshot" url))
    then (remote_snapshot, hub, s)
    else (failure 404 "Use /snapshot, /stream, /peer/snapshot, or /health.", hub, s)

-- The request of a client is closed.
unfoldable pub close_request : ℕ → List Client → List Client
close_request id [] = []
close_request id (c ∷ cs) = let rest = close_request id cs in if c.id == id then rest else c ∷ rest

-- `broadcast` writes on the clients that are open and forgets the others.
unfoldable pub broadcast : CollectedDiagnosticRecord → List Client → List Client
broadcast r [] = []
broadcast r (c ∷ cs) =
    let rest = broadcast r cs in
    if c.ended then rest else record c { lines = c.lines ++ record_line r ∷ [] } ∷ rest

unfoldable pub broadcast_keep_alive : List Client → List Client
broadcast_keep_alive [] = []
broadcast_keep_alive (c ∷ cs) =
    let rest = broadcast_keep_alive cs in
    if c.ended then c ∷ rest else record c { lines = c.lines ++ keep_alive ∷ [] } ∷ rest

-- `defaultPeerRecordsPerRequest`
abbrev pub default_peer_records_per_request : ℕ
default_peer_records_per_request = 1000

-- `Math.max(1, Math.min(5000, requested))`, where `none` is NaN.
abbrev pub clamped : Option Number → Option ℕ
clamped none = none
clamped (some (int n)) = some (max 1 (min maximum_peer_records_per_request n))
clamped (some _) = some 1

-- The limit that `writeRemoteSnapshot` asks for; the argument is the query's `limit`, if it has one.
unfoldable pub requested_limit : Option String → Option ℕ
requested_limit none = clamped (parse_int (to_decimal default_peer_records_per_request))
requested_limit (some text) = clamped (parse_int text)
