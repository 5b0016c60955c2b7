-- ===== src/Lib.antt =====
-- Verification of WinEventChain, which stores the events of Windows hosts: their hashes on a
-- CometBFT chain, their data off the chain, in nodes that pass it on to each other.
--
-- The parts, and the modules for them:
--
-- The swim transport of the off-chain nodes (offchain-interface/pkg/transport/swim). A message is
-- cut into frames that fit into UDP datagrams, and put together again by the receiver.
--   Swim/Frame: frame.go. `marshal` and `unmarshal` are frame.Marshal and frame.Unmarshal on bytes,
--     with CRC-32; a slice expression beyond the capacity panics. Frame/RoundTrip and Frame/Bounds
--     hold the proofs about them.
--   Swim/FrameQueue: frameset.go. `next` is frameQueue.Next on the queue's record, with the
--     wrap-around of the offsets and the frame numbers. `drain` makes calls of it, one for each MTU
--     of a list, which is the fuel: 65 calls are enough for the 64 frames of the largest message.
--   Swim/Decoder: framesetdecoder.go. The slice of frame pointers is a list of options, on which a
--     nil pointer that is read panics. `read_all` and `receive` are the calls of ReadFrame and
--     ReadBytes that handleInboundMessage in delegate.go makes, one after the other.
--   Swim/Stream, Swim/Delivery: the frames of one message, from the queue to the decoder.
--   Swim/Delegate: delegate.go. `send`, `get_broadcasts` and `handle_inbound_message` are Send,
--     GetBroadcasts and handleInboundMessage, `prune` is a round of StartPruneLoop. Go's maps are
--     the association lists of Common/Maps. Delegate/Steps has the operations as steps.
--
-- The applications of the chain (wineventchain/pkg). A transaction is checked by CheckTx, executed
-- by FinalizeBlock, which leaves a commit function, and the commit functions of a block run in its
-- Commit, in order and up to the first that fails.
--   Chain/Response: multiplexer/app.go and code.go, the responses. Errors are values of `Failure`.
--   Chain/Rpc: common/pkg/types/rpc/rpc.go, the signed payloads.
--   Chain/Tree: the IAVL tree, a parameter with laws; Chain/Tree/Assoc is an instance of it.
--   Chain/Identity: identity/app.go and merkle_repository.go. FinalizeBlock is `finalize_block`, a
--     function of the application's state; a commit function is a value of `Commit`, which
--     `run_commit` runs. `finalize_all` and `commit_all` run a block. Identity/Query has Query, Info and
--     InitChain.
--   Chain/Retention: retentionpolicy/app.go, built alike, with the database as a parameter.
--   Chain/Multiplexer: multiplexer/abci.go and state.go. The applications are the interface `Apps`,
--     whose state is one `World`; the map of their hashes is a list of entries.
--     Multiplexer/Identities fills the interface with the identity application, and
--     Multiplexer/Storage has Commit, the saved state and the updates of validators, and
--     Multiplexer/Query the queries and the start of the chain.
--   Chain/Proof: common/pkg/proof, the proofs of a tree, and GetWithProof of the repositories.
--   Chain/Events: events/app.go and merkle_repository.go, built like Chain/Identity, and
--     common/pkg/types/events. The identifiers of the events of a block stand in `creating`.
--     Events/Query has Query, Info and InitChain.
--   Chain/Builder: common/pkg/types/rpc/builder.go, the requests that clients build.
--
-- The off-chain nodes' record of what they miss (offchain-interface/pkg/state and
-- offchain-interface/pkg/harmoniser).
--   Store: leveldbstore.go. Store/Codec has the bytes of a missing event, Store/LevelDb the database
--     as a parameter with laws (LevelDb/Assoc is an instance), Store/Ids the keys that count up,
--     Store/Blocks and Store/Events the operations.
--   Harmoniser: Harmoniser/Listener is the branch of ListenForMissedItems for a new height, with the
--     store as the interface `BlockStore`, which Harmoniser/LevelStore fills with that of Store.
--     Harmoniser/Backlog has handleMissingEvent, the choice of a chunk's events in
--     StartEventBackfillLoop and handleBacklogChunk. A panic is `none`.
--
-- The retention policies (common/pkg/types/offchain/retentionpolicies.go).
--   Policy: the records, Validate and the Equal methods, and in Policy/Duration the JSON of durations
--     (common/pkg/types/duration.go).
--
-- The nodes' clients of the chain.
--   Pool: common/pkg/pool/pool.go. `get` is Get on fuel, where one more than the connections are
--     enough; `get_all` is GetAll on the array that its loop ranges over.
--   Client: GetRetentionPolicy of offchain-interface/pkg/blockchain/client.go, over the pool.
--
-- Common holds the bytes, lists, tests and results that the others share: texts are the lists of
-- their bytes, and a Go function that may fail or panic gives an `Outcome`. Tests holds the
-- theorems at concrete inputs.
--
-- Parameters: zlib, ed25519, SHA-256, encoding/json, hashstructure, uuid, the IAVL tree, the
-- databases, the binary form of times, the text of durations, the clock, the rounded logarithm of
-- the number of members of a cluster, and the query of a node. Locks, logging and the text of
-- errors are left out, and each call is one step. Not modelled: the loops of the harmoniser that wait for timers and
-- channels, page through the chain and send requests, MongoDB, the servers, the other calls of the
-- clients, and the agent, which is written in Rust.
pub mod Common
pub mod Swim
pub mod Policy
pub mod Chain
pub mod Pool
pub mod Client
pub mod Store
pub mod Harmoniser
pub mod Tests
