-- ===== src/Servers.antt =====
-- The two servers of the program: src/main/connectivity/ControlServer.ts, to which other computers
-- connect, and src/main/diagnostics/DiagnosticsHttpServer.ts on the loopback interface.
pub mod Ports
pub mod Control
pub mod Loopback
pub mod Streams
