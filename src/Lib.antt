-- ===== src/Lib.antt =====
-- Veytrane, a peer-to-peer file transfer program in Rust: its data structures and state machines, and
-- what is true of them.
--
-- The program sends files between two machines. A sender describes a file by a manifest of chunk
-- hashes; the receiver keeps a bitmap of the chunks it has, so that an interrupted transfer resumes.
-- A background node (src/node/core) holds durable tasks, queues them, keeps a registry of the peers
-- that it connects to, and admits transfers by disk space and by what else runs with a peer. The
-- desktop application, the command line and the agent are hosts of that node.
--
-- Which file models which part:
--   Transfer/Bitmap     src/transfer/resume.rs             ChunkBitmap
--   Transfer/Manifest   src/protocol/manifest.rs           FileManifest, chunk arithmetic
--   Transfer/Chunker    src/transfer/chunker.rs            manifest_from_reader, read_chunk
--   Transfer/Receiver   src/transfer/receiver.rs           receive_file_on_stream
--   Protocol/Frame      src/protocol/frame.rs              the frames of a stream
--   Storage/Download    src/storage/mod.rs                 PartialDownload
--   Storage/Disk        the calls of the operating system that src/storage/mod.rs makes
--   Transfer/FileName   src/protocol/manifest.rs           safe_file_name
--   Identity            src/identity.rs                    NodeId::from_hex
--   Tunnel/Rules        src/tunnel/rules.rs                rules files, ServePolicy
--   Discovery/ShortIds  src/discovery/short_id.rs          ShortIdStore
--   Storage/RelativePath src/storage/relative_path.rs      validate_relative_path
--   Node/Queue          src/node/core/queue.rs             TaskQueue
--   Node/Progress       src/node/core/queue.rs             RateSampler, group_progress
--   Node/Task           src/node/core/task_model.rs        TaskRecord, its states and operations
--   Node/Peers          src/node/core/network_state.rs     PeerRegistry, reconnect_delay
--   Node/Space          src/node/core/space_budget.rs      SpaceBudget, Reservation
--   Node/Activity       src/node/core/activity.rs          State, FilePermit, SpeedPermit
--   Common              numbers, bits, lists, maps, text and paths that these share
--   Examples            each theorem at a concrete input
--
-- How the code corresponds to the model. A struct is a record, an enum a data type. An operation on
-- `&mut self` takes the value and gives the new one, with what it returns: where the code returns
-- an error and has written to the value all the same, the value that it leaves is given with the
-- error. A lock makes an operation one step; a call that unlocks in between (reserve_with_probe)
-- takes what it finds at each lock. Dropping a guard is an operation. Machine integers are natural
-- numbers with the wrap-around, the saturation or the check that the code writes; `i64` time stamps
-- are integers. A `HashMap` is an association list in which a key stands once, a `String` a list of
-- code points or, in a manifest, of UTF-8 bytes, a path a list of names.
--
-- Bounds. Most loops follow a list, a number of digits or the rounds that the code allows. Reading
-- until a buffer is full runs on fuel for the calls: as much as the bytes asked for and the
-- interruptions of the reader is enough. Hashing the chunks of a stream runs on fuel for the rounds
-- besides: one more than the stream has bytes is enough.
--
-- Parameters. BLAKE3 and hexadecimal decoding are functions, the postcard decoder of a manifest is a
-- function that may fail, and the clock, random identifiers and filesystem probes are arguments; no
-- theorem supposes anything of them. Of readers and writers (Common/Streams) and of the disk
-- (Storage/Disk) the theorems suppose what their documentation promises: a reader yields its stream in
-- order, a write changes no byte elsewhere, what has been synced is stable, a rename replaces the
-- file, a hard link gives a synced file a name, and a synced directory keeps its names. A failed
-- write may leave anything in its place, but not in that of bytes that were there already.
--
-- Not modelled. Sockets, TLS, QUIC, NAT traversal, the relay and the signalling server, the user
-- interfaces, the configuration files and the asynchronous loops that call the parts above, nor the
-- sender and the control messages.
pub mod Common
pub mod Identity
pub mod Protocol
pub mod Storage
pub mod Transfer
pub mod Node
pub mod Tunnel
pub mod Discovery
mod Examples
