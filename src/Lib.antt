-- ===== src/Lib.antt =====
-- open-rtc: signaling, server and quality logic of a WebRTC toolkit, as executable models.
--
-- The repository's packages are a protocol (protocol/types.ts), transports that carry its envelopes
-- over many backends (packages/transport), a client engine (packages/core), a room server
-- (packages/server), a quality controller (packages/quality) and gateways around them. An envelope
-- travels from an engine through a transport, which splits it into chunks and puts received frames
-- back in order, to the server or to other engines.
--
-- Files, and what they model:
--   Base            shared names; JavaScript's Map and Set as lists in insertion order (Base/JsMap,
--                   Base/JsSet), strings as lists of code units (Base/Eq), counting (Base/Counting),
--                   keys of two ids joined by a separator (Base/Keys).
--   Protocol        protocol/types.ts: message types, envelopes, isEnvelope, createEnvelope.
--   Transport/Reorder   packages/transport/src/internal/reorder.ts, class ReorderBuffer.
--   Transport/Chunker   packages/transport/src/internal/chunker.ts, splitUtf8 and ChunkAssembler.
--   Transport/Presence  packages/transport/src/internal/heartbeat.ts, class PresenceSweeper.
--   Transport/Coalescer packages/transport/src/internal/iceCoalescer.ts, class IceCoalescer.
--   Transport/Base  packages/transport/src/base.ts, the transport that a backend plugs into, which composes
--                   the three buffers above; utf8Bytes of wire.ts.
--   Transport/Composite     packages/transport/src/composite.ts, a transport over two others.
--   Transport/Reconnecting  packages/transport/src/reconnecting.ts, its reconnection loop and replay.
--   Engine/Ordering packages/core/src/ordering.ts, class OrderedMessageBuffer.
--   Engine/Sdp      packages/core/src/sdp.ts, parseSdpOrigin and class SdpIdempotencyGuard.
--   Quality/Tiers   packages/quality/src/tiers.ts, and initialTierForScore of device-capability.ts.
--   Quality/Controller  packages/quality/src/adaptive-quality-controller.ts: its state and the tests of
--                   evaluate; Quality/Controller/Tick has evaluate, tick and setTier.
--   Server          packages/server/src: the records (Server/Types, types.ts) and the errors
--                   (Server/Errors, errors.ts); the in-memory store (Server/Store,
--                   stores/InMemoryStore.ts); and core.ts: its state and the monad of its functions
--                   (Server/World), bans, lobby, hands and polls (Server/Waiting), rooms, policies and
--                   moderation (Server/Rooms), joining and leaving (Server/Membership), the relay of
--                   envelopes (Server/Relay), and recording sessions (Server/Recordings). A thrown
--                   error is a value, and the state that the function had reached stays. In a
--                   policy read from a room's metadata, locked and e2eeRequired count as they do in a
--                   condition, and a maxParticipants that is not a number is left out; an update of
--                   the policy writes it back in that form.
--   Server/Auth     packages/server/src/auth.ts: tokens, their check, rotation and revocation.
--   Server/Sockets  packages/server/src/ws.ts: the registry of sockets, and the handlers of a socket's
--                   messages and close (Server/Sockets/Joining, Server/Sockets/Handling), which compose
--                   the tokens, core.ts and the registry.
--   Sfu             packages/sfu-gateway/src/sfu-router.ts: the router of requests to a media gateway.
--
-- Parameters. Code outside the repository's sources is an argument: the backend of the base transport,
-- the inner transports of the composite and the reconnecting one with fetchSignals, the sessions of the
-- media gateway, HMAC, base64url and JSON, and the texts of errors where they are looked into.
--
-- Not modelled: the WebRTC calls of the client engine (packages/core/src/room.ts and around), the
-- quality controller's warnings, reset and timer, the HTTP routes, the database drivers, and the
-- adapters and bindings in other languages: they are input and output around these parts. The sets of
-- callbacks, where the code calls each of them, are one.
--
-- Conventions. A method takes the state and returns the new one with its result. `Date.now()` and
-- random ids are arguments. A field of an envelope that is not given is left out of its object.
-- Numbers are natural: counters, epoch milliseconds and sizes. The loop of ReorderBuffer.push runs on
-- fuel, the number of frames in the sender's buffer, of which each round removes one. The reconnection
-- loop is structural on the attempts that are left, as its bound is maxAttempts. What leaves a
-- component, or is handed to a parameter, is kept in a trace in its order. Operations run one after the
-- other: an await does not let another one in.
pub mod Base
pub mod Protocol
pub mod Transport
pub mod Server
pub mod Engine
pub mod Quality
pub mod Sfu
