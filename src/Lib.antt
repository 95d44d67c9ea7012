-- ===== src/Lib.antt =====
-- Verification of the agent state storage: the C++ node (`src/kvstore-node/src`) that keeps the state
-- and the key-value chunks of agents, and the agent beside an engine (`src/kvagent/src`).
--
-- The parts. A node takes chunks in through `ingest/`: a handle is reserved on a pinned slot, its
-- watermark rises while the engine writes, and a seal makes the chunk durable, puts it in the prefix
-- index and announces it. `tier/` holds the chunks in memory, `prefix/` counts the references to
-- them, `transport/` schedules the transfers, `qos/` and `security/` decide which requests pass, and
-- `cluster/` tracks the node's own state. `session/` and `persist/` are two logs of agent state on
-- disk. The agent caches which node serves a prefix.
--
-- The files. A component's own file holds its state as a record and one function for each operation,
-- with the source's names in snake case; its children hold the proofs, and each `Tests` the examples.
--   Base: shared names, lists, maps with numeric keys, little-endian 32-bit fields (PutU32, GetU32).
--   Session: src/kvstore-node/src/session/ordered_log_store.{h,cpp}. Crc is Crc32, Codec is
--     EncodeRecord and DecodeBody, Key is the order of keys and PrefixMatches, Table is map_ with
--     ApplyToMapLocked, Log is the replay loop of Open, File is WriteAll and the file's bytes, Scan is
--     Scan and the keys of DeletePrefix, Store is the class with Open, Apply, MaybeCompactLocked, Get
--     and DeletePrefix. Service is agent_state_service.{h,cpp} beside it: EncodeKey, ItemPrefix and
--     ResolveTenant, Service/Items the calls on sessions, Service/Records those on records. Blobs is
--     blob_store.{h,cpp} with the blob calls of the service.
--   Persist/StateWal: src/kvstore-node/src/persist/state_wal.{h,cpp}.
--   Cluster/Membership: src/kvstore-node/src/cluster/membership_fsm.{h,cpp}; Cluster/Drain:
--     drain_gate.{h,cpp} beside it.
--   Prefix/Refcount: src/kvstore-node/src/prefix/refcount.h. Prefix/Art: art_index.{h,cpp} and
--     art_index_internal.h beside it, the tree with its sibling chains. Prefix/Lpm: lpm.{h,cpp}, over
--     Art. Prefix/Events: kv_event_stream.{h,cpp}. Prefix/Epoch: epoch.{h,cpp}.
--   Transport/Scheduler: src/kvstore-node/src/transport/priority_scheduler.{h,cpp}. Queue is its Class.
--   Tier/Dram and Tier/Pinned: src/kvstore-node/src/tier/dram_tier.{h,cpp} and pinned_tier.{h,cpp}.
--   Ingest/Watermark, Ingest/Buffer and Ingest/Seal: watermark.cpp, mutable_buffer.cpp and seal.cpp of
--     src/kvstore-node/src/ingest.
--   Qos/Tenant and Qos/Quota: src/kvstore-node/src/qos/tenant.cpp and quota.{h,cpp}.
--   Routing/Bloom: src/kvstore-node/src/routing/bloom_sketch.{h,cpp}.
--   Security/Rbac: src/kvstore-node/src/security/rbac.{h,cpp}.
--   Agent/RoutingCache: src/kvagent/src/routing_cache/routing_cache.{h,cpp}.
--
-- How the code is read. A call is a function from state to state, with no other call in between. Where
-- a theorem is about threads, its steps are what the code does under one lock or in one atomic
-- instruction: so for the reference counts, the halves of EnterRead, Reclaim and Publish, the parts of
-- the buffer pool's calls, and the transitions of the node, whose callbacks come after the lock.
-- The clock, the results of system calls and the answers of RocksDB, of the prefix index to the seal, of
-- a client's certificate and of etcd are arguments, and the hashes of the prefix match and of the
-- sketches are parameters. A file is the list of its bytes.
-- Integers are natural numbers; where the code can wrap, the remainder modulo 2 ^ 32 or 2 ^ 64 is
-- written out, and where it is not, the file says which bound keeps the numbers below it.
--
-- Fuel. The replay of the ordered log takes as fuel one more than its bytes, and a round consumes 12
-- bytes at least. The replay of the state log takes the bytes, and a round consumes 157. The loops of
-- the DRAM tier's eviction take the entries, and a round takes one out; the sweep of the retire list
-- takes its nodes. The chunks of a blob take one more than its bytes. The other loops are
-- structural.
--
-- Not modelled: metrics, logging and printing of names, which no result depends on; sockets, RDMA,
-- HTTP, gRPC, RocksDB and the generated code, which are other programs' code; the Go and Python
-- parts. The log and the snapshot of the prefix index, the NVMe and the cold tiers, the tensor codec,
-- the directory of nodes, the rendezvous ring, the router and the agent's rings are not modelled. A
-- lookup in the prefix index beside a writer at work is not, either: the writers' stores are several.
pub mod Base
pub mod Agent
pub mod Cluster
pub mod Ingest
pub mod Persist
pub mod Prefix
pub mod Qos
pub mod Routing
pub mod Security
pub mod Session
pub mod Tier
pub mod Transport
