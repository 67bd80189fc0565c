-- ===== src/WebRtc.antt =====
-- `WebRtcMediaSession` of src/renderer/src/media/WebRtcMediaSession.ts: the stream of one connection
-- in the window of the program. The browser's calls that return promises cut a method into tasks:
-- State has the fields and the tasks, Signals and Connection the methods up to their first `await`,
-- Tasks what follows each `await`, and Events all that can happen.
pub mod State
pub mod Signals
pub mod Connection
pub mod Tasks
pub mod Events
pub mod Described
pub mod Announced
pub mod Order
pub mod Fresh
pub mod Capture
