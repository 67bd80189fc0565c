-- ===== src/Examples.antt =====
-- Concrete inputs for the theorems, and the theorems at those inputs.
pub mod Codec
pub mod Plain
mod Connecting
mod Sessions
mod Messages
mod Hubs
mod Addresses
mod Managers
mod Serving
mod Neighbours
mod Streams
mod Listing
mod Settings
