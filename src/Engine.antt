-- ===== src/Engine.antt =====
-- packages/core/src: parts of the client engine.
pub mod Ordering
pub mod Sdp
