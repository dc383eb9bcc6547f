-- ===== src/Lib.antt =====
-- A model of fount-p2p, the peer-to-peer library of fount, written in JavaScript: the parts whose
-- behaviour is decided by their own code and not by a socket, a file or a cipher.
--
-- The parts and their files here:
--   Base         shared lists, Boolean tests, integers, and JsMap, the host's `Map`: an association
--                list in insertion order, as `js/utils`, `js/link` and `js/mailbox` use it
--   Core         js/core/hlc.mjs (Hlc: `HLC`, `nextHlc`), js/core/bytes_codec.mjs (BytesCodec:
--                `bytesToHex`, `hexToBytes`), js/core/hexIds.mjs with `sortedPrevEventIds` of
--                js/dag/index.mjs (HexIds), js/core/canonical_json.mjs (CanonicalJson)
--   Utils        js/utils/lru.mjs (Lru), js/utils/ttl_map.mjs (TtlMap), js/utils/token_bucket.mjs
--                (TokenBucket), js/utils/inflight_table.mjs (Inflight), js/utils/async_mutex.mjs
--                (AsyncMutex)
--   Link         js/link/frame.mjs (Frame: `encodeFrames`, `decodeFrame`, and in Frame/Search
--                `maxFrameChunkBytesForPayload`; Reassembler: `createReassembler`),
--                js/link/channel_mux.mjs (ChannelMux: `createChannelSendQueues`)
--   Dag          js/dag/index.mjs (Merkle: `merkleRoot`, `computeLocalTipsHash`; Heap:
--                `MinHeap`; Order: `topologicalCanonicalOrder`; Event: `eventBodyForSign`,
--                `computeEventId`, `signPayloadBytes`)
--   Governance   js/governance/branch.mjs (Branch: tips, closures, `selectConsensusBranchTip`),
--                js/governance/join_pow.mjs (JoinPow), js/governance/owner_succession_ballot.mjs
--                (Succession)
--   Federation   js/federation/want_ids.mjs (WantIds), js/federation/dedupe_slot.mjs (DedupeSlot),
--                js/federation/volatile_streams.mjs (VolatileStreams),
--                js/federation/chunk_fetch_scheduler.mjs (ChunkFetch),
--                js/federation/dag_order_cache.mjs (OrderCache), js/federation/entity_key_chain.mjs
--                (EntityKeyChain)
--   Wire         js/wire/wait.mjs (Wait: `registerMultiWireWait`, `finishMultiWireWaiters`,
--                `notifyMultiWireWaitersByPrefix`)
--   Node         js/node/retention_policy.mjs (Retention)
--   Timeline     js/timeline/prune.mjs and js/timeline/retention.mjs, with `readJsonlEntries` of
--                js/dag/storage.mjs
--   Mailbox      js/mailbox/rate.mjs (Rate: `takeIncomingMailboxPutSlot`), js/mailbox/prune.mjs and
--                js/mailbox/importance.mjs (Prune)
--   Permissions  js/permissions (`createPermissionCodec`, `applyDenyAllowOverride`,
--                `mergeRoleOverrides`, `createLayeredEvaluator`)
--   Tests        the theorems at concrete inputs
--
-- How the parts meet: the frames of a message leave through the send queues of the channels, and the
-- far side's reassembler joins them. Events carry clocks and the normalised ids of their parents;
-- the governance code walks the graph that these ids form, and the summaries hash sets of ids. The
-- timeline reads the lines of a file, orders the events, asks the governance code and the retention
-- policy which ids to keep, and writes the raw lines of those.
--
-- State is a record or a map that an operation takes and returns. An exception is a value of a
-- result type. A time is an argument: each call of `Date.now()` is one number. A text is the list of
-- its UTF-16 units, a byte string the list of its bytes, a bigint of permissions the list of its
-- bits. Numbers that the source keeps as integers are natural numbers; the token bucket counts parts
-- of a token, 60000 to one, in place of fractions. Options that are missing are 0, as `||` reads them.
--
-- Fuel: the eviction loops run on the size of their map, since each round removes a key; the binary
-- searches on the length of their range; the closures on one more than the number of edges, since
-- each edge is pushed once, and so does the walk of the retention, with its seeds; the levels of the Merkle tree on the number of leaves; the fair pruning of
-- the mailbox on the number of its records; the heap on its size, and the canonical order on the
-- number of events and edges. The results below hold of the functions with that fuel.
--
-- Parameters: SHA-256, the UTF-8 encoder and `localeCompare`, `JSON.stringify` of
-- a string, `String` of a number, the key hash and signature check of a ballot and its
-- floating-point ratio with the rounded-up product, the length of an encoding and of a
-- record's JSON text, the governance types, the parser of a
-- line, and the data channel's state and buffered amount.
--
-- Not modelled: sockets, relays, files, ciphers and signatures; floating-point scores of reputation
-- and trust; the process, its settings and its command line; the tests, the simulator and the Kotlin
-- port. Of the modelled files, the callbacks that js/link/channel_mux.mjs sets on a channel, the
-- base64 half of js/core/bytes_codec.mjs, the selection and scores by reputation of
-- js/governance/branch.mjs, `powVoluntaryBonus` of
-- js/governance/join_pow.mjs, the bytes that js/federation/entity_key_chain.mjs signs, the table of
-- one waiter for a key of js/wire/wait.mjs, and the signing and verification of events in
-- js/dag/index.mjs.
pub mod Base
pub mod Utils
pub mod Core
pub mod Link
pub mod Dag
pub mod Governance
pub mod Tests
pub mod Federation
pub mod Mailbox
pub mod Permissions
pub mod Node
pub mod Timeline
pub mod Wire
