-- ===== src/Server.antt =====
-- packages/server/src: the room server's core logic over its in-memory store.
pub mod Types
pub mod Errors
pub mod Store
pub mod World
pub mod Waiting
pub mod Rooms
pub mod Membership
pub mod Relay
pub mod Recordings
pub mod Auth
pub mod Sockets
pub mod Demo
