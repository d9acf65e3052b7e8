-- ===== src/Transport.antt =====
-- packages/transport/src: the backend-agnostic plumbing of the signaling transports.
pub mod Reorder
pub mod Chunker
pub mod Presence
pub mod Coalescer
pub mod Base
pub mod Composite
pub mod Reconnecting
