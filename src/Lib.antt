-- ===== src/Lib.antt =====
-- Peerwatch: a peer-to-peer watch party. A host cuts a video file into chunks and shares them; joiners
-- download the chunks from the host and from one another, check each against its SHA-256 digest,
-- keep them in a sparse file, and play that file through a local HTTP server.
--
-- The parts and their files
--   internal/protocol/message.go  Protocol/Message      the messages
--   internal/protocol/codec.go    Protocol/Wire         big-endian integers and full reads (encoding/binary, io)
--                                 Protocol/Slices       slices and elements of a payload, which may panic
--                                 Protocol/Encode       encodeX, WriteMessage (`frame`, `write_message`)
--                                 Protocol/Decode       decodeX, ReadMessage (`read_message`)
--                                 Protocol/Guards, Readers, RoundTrip, Framing, Truncation, Progress   the laws
--                                 Protocol/Types, Payloads, Legality   the types of what ReadMessage gives
--   internal/protocol/handler.go  Protocol/Dispatch     Handler, Dispatch
--   internal/chunk/chunker.go     Chunk/Chunker         NewChunker, ChunkCount, ChunkSizeAt, ReadChunk
--   internal/chunk/manifest.go    Chunk/Manifest        BuildManifest
--   internal/chunk/store.go       Chunk/Bitfield        makeBitfield, setBit, hasBit
--                                 Chunk/Store/Defs      NewHostStore, NewPeerStore, WriteChunk, HasChunk
--                                 Chunk/Store/Reads     ReadChunk, ReadBytes, WaitForChunk, MissingChunks, IsComplete
--                                 Chunk/Regions, Counts, Store/Integrity, Download, Lifecycle, Progress, Serving, Streaming   the laws
--                                 Chunk/Store/Missing   the laws of MissingChunks
--                                 Chunk/Threads         WriteChunk and WaitForChunk of many goroutines, move by move
--                                 Chunk/Threads/Invariant, Guards, Moves, Safety, Progress   the laws
--   internal/peer/tracker.go      Peer/Tracker          Tracker
--                                 Peer/Availability     the laws: a sequence of reports against what was heard last
--   internal/peer/peer.go         Peer/Connection       what a Peer keeps, its in-flight map and queue
--                                 Peer/Conversion       ManifestToProto, ProtoToManifest
--                                 Peer/InFlight         the laws of TimeoutInFlight
--                                 Peer/Loops            readLoop, writeLoop
--                                 Peer/Delivery         what one side's writeLoop brings to the other's readLoop
--   internal/peer/swarm.go        Peer/Swarm            the table of peers, RequestChunks, handleMessage
--                                 Peer/Serving, Roster  the laws of messages and of disconnects
--                                 Peer/Handshake        Connect, ConnectToHost, handleIncoming
--                                 Peer/Joining, Refusal the two sides of a handshake; its errors
--                                 Peer/Duties           NewSwarm, SetStore, Listen, Broadcast, Close, acceptLoop, ...
--                                 Peer/Mesh, Steady     the loops that connect to the addresses of a list, and their laws
--                                 Peer/Reconnect        the laws of the broadcasts, of Close and of connecting again
--   internal/scheduler/strategy.go   Scheduler/Strategy   PrioritizeChunks, SelectPeer
--                                 Scheduler/Order, Selection   the laws
--   internal/scheduler/scheduler.go  Scheduler/Tick   Demand, OnPieceReceived, ReleaseInFlight, tick
--                                 Scheduler/Budget, Requests   the laws
--   internal/sync/sync.go         Sync                  handleSync, hostLoop
--                                 Sync/Manager          SyncManager, a tick of the host and what it brings about
--                                 Sync/Tiers            the laws of handleSync
--   internal/player/server.go     Player                demandReadSeeker
--                                 Player/Server         NewServer, URL, Start with the handler of /video
--                                 Player/Playback, Copying   the laws of Read and of a request
--   internal/player/mpv.go        Player/Mpv            the table of requests: call, readLoop, Close
--                                 Player/Events, Replies   the laws
--                                 Player/Process        NewPlayer, Start, Close, with the process and the temporary directory
--   internal/token/token.go       Token                 validate, Encode, Decode
--                                 Token/Base64          RawURLEncoding of encoding/base64
--                                 Token/RoundTrip       the laws
--   main.go, cmd/join.go          Commands              the choice of the command, the callbacks of join, its cursor
--                                 Commands/Cursor, Pieces   the laws
--   cmd/start.go                  Commands/Start        the checks, the room and its token
--                                 Commands/Rooms        the laws
--   cmd/join.go                   Joiner                a joiner as it runs: swarm, store and scheduler, event by event
--                                 Joiner/Join           Join up to that joiner
--                                 Joiner/Serving, Arriving, Invariant, Steps   what every event keeps
--                                 Joiner/Turns, Carrying   a joiner and its host, turn by turn, over the wire
--                                 Joiner/Asking, Requests, Deliveries, Completion, Downloads, Arrivals   such a download ends
--                                 Joiner/Rooms          a room, from start through join to the complete file
--
-- How the parts work together: a message that a connection reads goes to the swarm, which answers a
-- REQUEST from the store, keeps the tracker, and hands a PIECE to the callback that writes it into the
-- store and tells the scheduler. A tick of the scheduler frees what has timed out, takes the store's
-- missing chunks and the tracker's holders, and sends REQUEST messages through the swarm.
--
-- How the program is read
--   A function of the same name in snake_case models each Go function. Bytes are numbers below 256; a
--   byte slice is a list of them. int64, and int on a 64-bit platform, is the ℤ of Base/Int, whose
--   operations wrap (`add64`, `sub64`, `mul64`, `quot64`); a count or an index that the code has
--   already found not negative is a ℕ. Fixed byte arrays (peer IDs, digests) are the numbers that they
--   spell. A float64 in a message is its bit pattern. A call gives `ok`, an error value, or `panic` (Base/Results).
--   A file is its bytes (Chunk/File). How a WriteAt ends, whether a handle answers at all, and in which
--   order the hashing workers deliver are arguments. SHA-256 is a parameter; where a property needs it,
--   its hypothesis says that the payload at hand is no second preimage of a chunk's digest.
--   A Go map is the list of its keys or entries (Base/Keys, Base/Entries), in the order in which Go
--   would range over it. The arithmetic of float64 is a parameter (Base/Floats), and so is sort.Slice.
--   A connection is the bytes that arrive on it until its end, what was written to it, and how its next
--   writes end. What a dial or a Listen gives, and what the system answers when mpv is started, are
--   arguments. encoding/json and net.SplitHostPort are parameters of the tokens.
--   Goroutines that share a Store are a step relation (Chunk/Threads): a state is the shared memory and
--   the place of each goroutine, and a step is one move of one of them. Calls of mpv are a sequence of
--   events in any order.
--   Fuel: readLoop takes one round for each message, and a message has at least four bytes, so that a
--   stream of n bytes ends within n + 1 rounds. io.CopyN takes a round for each read, and a read that is
--   not at the end gives a byte at least. connectIPC makes the attempts that its bound allows. Every
--   other loop recurs on the rounds that are left.
--
-- Not modelled: the HTTP headers and routes and the closing of the server, the command line of mpv,
-- flags and the order in which the commands set up the player's side, logging, and the buffer pool of the
-- codec. Apart from Chunk/Threads each operation, and each tick of the scheduler, runs without
-- interleaving. What concurrent WriteAt calls leave in the file is not modelled, nor are the bytes
-- that NewPeerStore finds in a partial file of an earlier run: the store starts from zeros here. The
-- queue of messages to a peer has no bound.
pub mod Base
pub mod Protocol
pub mod Chunk
pub mod Peer
pub mod Scheduler
pub mod Sync
pub mod Token
pub mod Commands
pub mod Joiner
pub mod Player
