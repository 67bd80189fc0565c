-- ===== src/Session.antt =====
-- src/main/connectivity/PeerSession.ts: one connection to another computer, from the handshake to
-- its end. The children hold the methods by theme; this module passes their names on.
pub mod State
pub mod Closing
pub mod Reversal
pub mod Consent
pub mod Establish
pub mod Dispatch
pub mod Events
pub mod Core
pub mod Agreed
pub mod Wire
pub mod Unasked
pub mod Roles
pub mod Closed
pub mod Batches
pub mod Answers
unfoldable pub use State.*
unfoldable pub use Closing.*
unfoldable pub use Reversal.*
unfoldable pub use Consent.*
unfoldable pub use Establish.*
unfoldable pub use Dispatch.*
unfoldable pub use Events.*
