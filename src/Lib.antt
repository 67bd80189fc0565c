-- ===== src/Lib.antt =====
-- A verification library for IStream, an Electron program that shows the screen of one computer on
-- another one of the same network. It models how the computers find and connect one another: the
-- code under src/main/connectivity that decides who may connect, and what the two sides tell one
-- another, with the contracts of src/shared that it uses; and the session of the window that sets up
-- the stream over the connection.
--
-- The parts and how they interact. A `PeerSession` (src/main/connectivity/PeerSession.ts) owns one
-- connection. It reads lines of JSON from a `JsonLineTransport`, validates them with
-- `ProtocolValidator`, does the handshake of `HandshakeFactory` and `HandshakeTranscript`, and from
-- there on sends and receives encrypted envelopes through a `SecureMessageCipher`. It asks the
-- `PairedPeerStore` whether the other computer is trusted and tells it when the user approves one.
-- Its diagnostic records, and those of the peer, end in the `DiagnosticsHub`. A `ConnectionManager`
-- has one such session at a time. It gets sockets from the `ControlServer`, and endpoints from the
-- user's entries, which `EndpointParser` reads, or from the `DiscoveryService`, which hears of other
-- computers. The `ConnectivityFacade` owns all of these, passes on what the window asks for, and shows
-- the window a snapshot; the `DiagnosticsHttpServer` shows the hub to programs on the same computer.
-- In the window, a `WebRtcMediaSession` exchanges its signals through the session and streams, with
-- the settings that the `StreamConfigurationService` validates and keeps in a file.
--
-- Which file models which part:
--   Contracts/*           src/shared/*Contracts.ts: enumerations, descriptors and constants
--   Values                JSON values and the tests that the validators make on them
--   Protocol, Protocol/*  src/main/connectivity/ProtocolContracts.ts, `ProtocolValidator` of
--                         src/main/connectivity/SessionCryptography.ts, and
--                         src/main/diagnostics/DiagnosticRecordValidator.ts
--   Platform              node:crypto and JSON as a record of functions, and the laws that their
--                         documentation promises
--   Handshake             `HandshakeFactory`, `HandshakeTranscript` and `EphemeralKeyAgreement` of
--                         SessionCryptography.ts, src/main/connectivity/DeviceIdentity.ts
--   Cipher                `SecureMessageCipher` of SessionCryptography.ts
--   Trust                 src/main/connectivity/PairedPeerStore.ts
--   Transport             src/main/connectivity/JsonLineTransport.ts
--   Hub, Hub/*            src/main/diagnostics/DiagnosticsHub.ts
--   Session, Session/*    PeerSession.ts: State has its fields, Closing, Reversal, Consent, Establish
--                         and Dispatch its methods, Events what can happen to it
--   Manager, Manager/*    src/main/connectivity/ConnectionManager.ts
--   Addressing/*          src/main/connectivity/NetworkAddressing.ts
--   Discovery, Discovery/* src/main/connectivity/DiscoveryService.ts
--   Servers/*             src/main/connectivity/ControlServer.ts and
--                         src/main/diagnostics/DiagnosticsHttpServer.ts
--   Facade, Facade/*      src/main/connectivity/ConnectivityFacade.ts
--   Configuration, Configuration/* src/main/configuration/StreamConfigurationService.ts and `read` of
--                         src/main/storage/AtomicJsonStore.ts
--   Metrics               src/main/media/MediaMetricSampleValidator.ts
--   WebRtc/*              src/renderer/src/media/WebRtcMediaSession.ts
--   Prelude, Prelude/*    shared names and lemmas
--   Examples, Examples/*  a platform that meets the laws, and the theorems at concrete inputs
-- A method `camelCase` is the function `camel_case`; it takes the object's state and returns the new
-- state, and beside it a result where it can throw (Prelude/Throwing). The calls of listeners, the
-- settled promises and the sent messages are effects in the session's state. The clock, random
-- identifiers and the local diagnostic records come with each event. An `await` splits a method: the
-- session keeps the list of calls that wait, and the end of the wait is an event of its own.
--
-- Bounds and fuel. Times, counters and lengths are natural numbers; the counter of the cipher is
-- bounded by the eight bytes of its nonce, as in the source. `send_batches` has as many rounds as
-- there are records, and each takes ten of them. `drain` has as many rounds as the buffer has bytes,
-- and each takes at least a line break.
--
-- A loop over ports has a round for each port of its range. The other loops are recursions on lists
-- and texts.
--
-- Waits. A method with an `await` is cut there: the manager keeps the calls of `connect` that wait for
-- a socket, the media session keeps its tasks, and the end of each wait is an event. In the same way
-- the effects of a session are handed to the manager when the session's step ends.
--
-- What is not modelled: the user interface; the collector of the browser's statistics; sockets, files
-- and timers of node, the network's interfaces and the browser's connections and streams, whose
-- answers are given.
mod Prelude
pub mod Configuration
pub mod Contracts
pub mod Values
pub mod Protocol
pub mod Platform
pub mod Cipher
pub mod Trust
pub mod Transport
pub mod Handshake
pub mod Session
pub mod Hub
pub mod Addressing
pub mod Discovery
pub mod Servers
pub mod Manager
pub mod Facade
pub mod Metrics
pub mod WebRtc
pub mod Examples
