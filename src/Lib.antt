-- ===== src/Lib.antt =====
-- DistriStore, a distributed file store: its file engine, the routes and the download manager of its
-- API, the replication between peers and its repair, the connections, the heartbeat, the node's peer
-- table and its database, and the routing by XOR distance (Python, under backend/).
--
-- A file is cut into chunks (Chunker), each compressed, encrypted (Crypto) and hashed; the hashes
-- are recorded in a manifest (Manifest) under a Merkle root (Merkle). A download (Download) fetches
-- the chunks of a manifest, survives pauses, failures and restarts by its `.resume` file, and merges
-- them again. Replication (Window) sends the chunks to a peer and waits for acknowledgements. A node
-- (Node) keeps its peers in memory and in its database (Store), and finds the peers for a chunk by
-- XOR distance (Dht). It hears of them by their beacons (Discovery), meets them over TCP
-- (Connection) and pings them (Heartbeat). The routes (Routes) upload a file into the local store
-- (Local), replicate its chunks (Replication), and download it again, from the node's own store or
-- from its peers.
--
-- Which file models what:
--   Prelude: numbers, lists, text as code points, UTF-8, dictionaries, counting, sorting.
--   Merkle: backend/file_engine/chunker.py, compute_merkle_root, compute_merkle_proof,
--     verify_merkle_proof. The `while` loops run on fuel, the number of hashes: each round at least
--     halves a level, rounded up, so that one entry is left in time.
--   Manifest: backend/file_engine/chunker.py, ChunkInfo and FileManifest with their dictionaries. A
--     key that may be absent is an Option, and `none` as a result is the KeyError.
--   Crypto: backend/file_engine/crypto.py, the chunk format and the workers; Crypto/Parallel: the
--     batch API. Exceptions are the constructors of `Error`.
--   Chunker: backend/file_engine/chunker.py, get_optimal_chunk_size, _stream_chunks,
--     _streaming_file_hash, chunk_file, merge_chunks, merge_chunks_to_disk; Chunker/Streaming:
--     chunk_file_streaming. A read loop runs on fuel, the length of the file: each round takes a byte
--     or ends the loop.
--   Download: backend/api/download_manager.py, DownloadState. Download/Worker: _download_worker and
--     _final_merge, with what a fetch and the merge do given as functions. Download/Manager:
--     DownloadManager, with the folder of `.resume` files. Download/Safety: the interleavings of the
--     manager's operations and its workers as a step relation.
--   Pipeline: backend/file_engine/pipeline.py, over a store that is given as a function.
--   Routes: backend/api/routes.py. The answers of the peers' APIs are functions. Routes/Download:
--     download_file and preview_file; Routes/Upload: upload_file; Routes/CrossNode: a download whose
--     peer is a node that the upload was made to; Routes/Chat: the chat of the swarm.
--   Replication: backend/strategies/replication.py, backend/strategies/selector.py and
--     backend/advanced/self_healing.py. The float scores are given as their order.
--   Connection: backend/network/connection.py and auth_handshake_msg of backend/network/protocol.py.
--     The message loop runs on fuel, the number of received bytes: each message takes four or more.
--   Discovery: backend/network/discovery.py, the beacons.
--   Config: backend/utils/config.py.
--   Client: backend/framework/client.py, the downloads; the order in which the requests finish is an
--     argument.
--   Heartbeat: backend/advanced/heartbeat.py. Local/Monitor: backend/advanced/garbage_collector.py.
--   Store: backend/storage/db.py, NodeDatabase. Local: backend/storage/local_store.py, LocalStore.
--   Node: backend/node/state.py, PeerInfo and NodeState; Node/Restart: the operations of a running
--     node as a step relation, and the start of backend/main.py on a database.
--   Dht: backend/dht/routing.py and backend/dht/lookup.py. The bits of a distance are computed on
--     fuel, the sum of the two numbers: a number has fewer bits than its value.
--   Window: backend/strategies/sliding_window.py, SlidingWindowSender. The listener and the sweep
--     act as a sequence of events, while the window is filled and after it. Replicate:
--     SlidingWindowReplicationEngine.
--
-- SHA-256, PBKDF2, AES-GCM and zstd are parameters; what is used of their documentation is in
-- Crypto (PrimitiveLaws) and Merkle/Binding (IsHexDigest). msgpack and HMAC are parameters of
-- Connection (MsgpackLaws), orjson and HMAC of Discovery, httpx of Client. What other processes do
-- (peers, sockets) is given as functions. Random bytes, clock readings and what the machine measures
-- are arguments. Times are natural numbers.
--
-- Not modelled: sockets, files and process pools as such; logging; the progress in percent; the
-- loop that broadcasts the beacons; the search for the configuration file; the uploads of the
-- client; and the routes that only pass a call on to the download manager. The ids that int(id, 16)
-- reads are those in use, digests and random hexadecimal ids, which are not negative. A read does not
-- note its time of access, and a connection that a replication opens is not kept: what the
-- connections do is given. A file name of an upload is cut as on a system whose separator is '/'.
pub mod Chunker
pub mod Client
pub mod Config
pub mod Connection
pub mod Crypto
pub mod Dht
pub mod Discovery
pub mod Download
pub mod Heartbeat
pub mod Local
pub mod Manifest
pub mod Merkle
pub mod Node
pub mod Pipeline
pub mod Prelude
pub mod Replicate
pub mod Replication
pub mod Routes
pub mod Store
pub mod Window
