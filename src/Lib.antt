-- ===== src/Lib.antt =====
-- aether-web-lite is a serverless message board: browsers and desktop nodes hold packets,
-- find each other through a tracker, and pass packets on over WebRTC connections by gossip
-- within zones. This library models the parts that decide what a node does
-- with the messages that its peers send, how it keeps account of a peer's misbehaviour, and the
-- tracker's table of sessions.
--
-- How the parts interact. A peer's message reaches the RateLimiter, which keeps one token
-- bucket for each peer and message type. A gossip packet that is let through goes to the
-- ZoneGossipRouter. It drops a packet that the PacketValidator refuses, gives the others to the
-- application when their zone is subscribed to, and relays them to all its verified neighbours
-- whether it is or not; one SeenCache keeps it from doing the first twice, another the second.
-- The PacketValidator
-- checks the fields' form, the time and the hop count, then recomputes the packet's id from
-- its header and checks the proof of work, both by the functions of PowPolicy.
-- Hints, the index packets of stored posts, are gossiped in the same way by the HintRouter, which
-- also keeps the latest ones to try them when the node gains a key.
-- A message that is too large for one block of a WebRTC channel passes through the
-- ChunkedSender and the other side's ChunkedReceiver.
-- The body of a post is kept by the nodes that lie nearest to it on a ring: their DhtMailbox takes
-- entries that the MailboxEntry checks let through, within its limits.
-- What the application shows of a thread is ordered by its ThreadDAGManager.
-- What a node itself writes leaves through the guard that its DandelionRouter has pinned.
-- The PeerMisbehaviorManager stands beside them: other parts report violations to it and ask it
-- whether a peer is banned. The TrackerServer, of packages/tracker, speaks with
-- the nodes in the messages of TrackerProtocol. It lets a node join whose id is bound to its key
-- (NodeIdentity) and whose key signed the nonce of the connection, keeps the joined ones in its
-- SessionManager, answers with a random sample of their ids, and passes messages between them.
--
-- Which file models which code:
--   Prelude, Prelude/Lists, Prelude/Text, Prelude/Tests: what the code uses of TypeScript's
--     comparisons, arrays and strings. A string is the list of its character codes.
--   JsMap: Map and Set of JavaScript, an association list in the order of insertion, where
--     setting a key that is present keeps its place. JsMap/Laws and JsMap/Order: its laws.
--   Bytes, Bytes/Cut: the big-endian encodings and the slices of byte arrays, as in
--     packages/core/src/crypto/PowPolicy.ts.
--   SeenCache: packages/core/src/network/gossip/SeenCache.ts. The state is the map from id
--     to time; has, add and cleanup are the methods of these names.
--   RateLimiter: packages/core/src/network/RateLimiter.ts. The state is the map of buckets
--     and the counts of drops; allow, tokens_for, forget and reset are its methods.
--   PowPolicy: packages/core/src/crypto/PowPolicy.ts, with toHex of common/Encoding.ts:
--     the committed preimage, the difficulty test, verification and the solver's loop.
--   PacketValidator: packages/core/src/network/gossip/PacketValidator.ts, with GossipPacket
--     of packages/core/src/types.ts and committedHeaderOf of crypto/PacketBuilder.ts.
--   PeerMisbehavior: packages/core/src/network/PeerMisbehaviorManager.ts. The state is the maps
--     of scores and of bans; a question also changes it, since it lifts an expired ban and
--     stores a decayed score.
--   SessionManager: packages/tracker/src/SessionManager.ts. A socket is a number, the listeners
--     of its close and pong are operations, and what is done to sockets is an effect.
--   NodeIdentity: packages/core/src/crypto/NodeIdentity.ts. The calls of libsodium are the fields
--     of Sodium, an error that is thrown is none.
--   Json, TrackerProtocol: packages/core/src/network/TrackerProtocol.ts, on the values of
--     JSON.parse; a message that is refused is none.
--   TrackerServer, TrackerServer/Handlers: packages/tracker/src/TrackerServer.ts. The state is the
--     sessions, the connections by socket, the counts by address, the rate limiter, and which
--     sockets are open; a handler returns its effects on sockets with the new state. A socket
--     gives no message after its close, as the library of sockets has it. What awaits libsodium
--     runs when it is ready, which is the operation greet. TrackerServer/Steps: what may happen
--     to a tracker, in any order.
--   HintPacket: packages/core/src/network/hint/HintPacket.ts and SlotBlob.ts. A hint is the index
--     packet that tells the holders of a key where a post's body lies; a slot stores it with the
--     body. A buffer that is written in place is a list, and a thrown error is none.
--   ChunkedStream: packages/core/src/network/stream/ChunkedSender.ts and ChunkedReceiver.ts. The
--     sender is the list of the blocks it sends, the receiver the map of the messages in the
--     making; each received block gives out at most one message. The receiver's timer, which drops
--     messages that took too long, may fire between blocks.
--   MailboxEntry, DhtMailbox, DhtMailbox/Handlers: packages/core/src/network/mailbox/MailboxEntry.ts
--     and DHTMailbox.ts, with the mailbox of storage/IndexedDBStore.ts and RingPosition.distance.
--     The state is the stored topics, the count of bytes, the peers' quotas and the questions
--     that wait for an answer; the calls that the source puts in a queue are one after the other.
--   Network: the connected peer as the routers see it (PeerConnection) and which of them a
--     flood reaches.
--   ZoneGossipRouter: packages/core/src/network/gossip/ZoneGossipRouter.ts. A handler takes
--     the router's state and returns the new one with its effects (sends, deliveries, exits
--     into an onion circuit) in their order. The timers of its SeenCaches, which forget old ids,
--     are events of a history, as are those of the HintRouter.
--   DandelionRouter: packages/core/src/network/gossip/DandelionRouter.ts. A callback is a number,
--     a promise that it settles an effect, and the random words are arguments.
--   HintRouter: packages/core/src/network/hint/HintRouter.ts. Its handlers take the state, the
--     neighbours and the time, and return effects in their order, as those of ZoneGossipRouter.
--   ThreadDag: packages/core/src/logic/ThreadDAGManager.ts. The state is the map of a thread's
--     posts; getSortedPosts is Kahn's algorithm on it.
-- A file below a component's folder holds proofs about it and is named for what they prove;
-- the files named Tests hold runs on concrete inputs.
--
-- Numbers. All are the native natural numbers. Time is in milliseconds and an argument. The rate
-- limiter computes in floating point: the model counts tokens in millionths and rates in
-- thousandths of a token per second, so that a millisecond's refill is a whole number and the
-- arithmetic is exact. Positions on the ring are numbers of parts, of which the ring has (2 ^ 32
-- - 1) * 2 ^ 53, where the source divides in floating point. Bytes are numbers, and a fixed-
-- width encoding keeps the remainder modulo 256 at each place. Subtraction is guarded by the
-- code's own comparisons.
--
-- Loops. Each loop over a map follows the list of its keys or entries. The loops that search a
-- nonce run on fuel, one unit for each nonce that the code's own bound lets it try. The loop of
-- the thread's order runs on one unit for each post and one more, which is proved to be enough.
--
-- Parameters. The decryption of a hint is a function from the key and the hint to what it holds,
-- if anything. The tracker's random numbers are a function from the bound asked for to the
-- number given. The comparison of texts in the user's language is any test of two texts. SHA-256
-- is a function from bytes to bytes, and so is Argon2id; the test of a signature is a function
-- from the signature, the message and the key. JsonBinary.parse of a stored packet is a function
-- from bytes, the size of an encrypted record a function from the record, and JSON.parse is a
-- function from a text to its value, if it has one. No property supposes that SHA-256 has no
-- collisions: where a proof needs one hash to determine its input, the statement says so.
--
-- Not modelled: encryption and signatures (libsodium), the rest of the storage (IndexedDB),
-- WebRTC, sockets and workers, timers (what they call is an operation), the user interfaces, the
-- simulations, the cache server in Rust, and the rest of the network layer: onion circuits,
-- zones and peer exchange.
mod Prelude
pub mod JsMap
pub mod Bytes
pub mod PeerMisbehavior
pub mod SessionManager
pub mod HintPacket
pub mod ChunkedStream
pub mod ThreadDag
pub mod PowPolicy
pub mod PacketValidator
pub mod Network
pub mod ZoneGossipRouter
pub mod HintRouter
pub mod SeenCache
pub mod RateLimiter
pub mod Json
pub mod TrackerProtocol
pub mod NodeIdentity
pub mod TrackerServer
pub mod MailboxEntry
pub mod DhtMailbox
pub mod DandelionRouter
