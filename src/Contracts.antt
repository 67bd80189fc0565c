-- ===== src/Contracts.antt =====
-- The data that the processes and the two computers share: src/shared.
pub mod Connectivity
pub mod Diagnostics
pub mod Media
pub mod Streaming
