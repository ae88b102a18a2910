-- ===== src/Lib.antt =====
-- GoSilver Core: distribution of a file inside a local network, in chunks, from a sender and from
-- every receiver that has a chunk already.
--
-- The parts and how they interact. A node runs a session (internal/gsp_sdk/server): it answers the
-- requests of other nodes, which come as frames (internal/gsp), reads chunks of its file
-- (internal/chunk), and on the sender keeps the peer table, the two ownership tables and the leases
-- by which a request for a chunk is given its sources. A receiver (internal/receiver) asks the
-- sender's session for sources with the client (internal/gsp_sdk/client), whose connections come
-- from a pool (pkg/conn_pool), fetches each chunk, checks and saves it, and reports it, so that it
-- becomes a source itself. The coordinator (control.go) sends prefetch commands to the peers. The web
-- interface (internal/webui) runs a node in one of the two roles: as a sender it probes the receivers,
-- asks them to start and follows their tasks; as a receiver its agent answers these requests.
--
-- Which file models which part:
--   Prelude             lists, finite maps, integers and byte slices that the parts share
--   Gsp                 internal/gsp/codec.go: Decode, DecodeBounded, EncodeTo
--   Crc32               hash/crc32's ChecksumIEEE, bit by bit
--   Chunk               internal/chunk: FileChunk, ReadChunk, CheckSum, Save, Unchanged
--   ConnPool            pkg/conn_pool/pool.go; a call of GetConnContext is a sequence of stages, and
--                       ConnPool/Steps is the step relation of all interleavings
--   Server              the records of internal/gsp_sdk/server/session.go
--   Server/Peers        peer.go, and the setters of control.go
--   Server/Leases       the leases of queue.go, and UpdatePeer of tool.go
--   Server/Sched        WantRequest and candidatesLocked of queue.go
--   Server/Coordinator  coordinateOnce of control.go
--   Server/Content      session.go and tool.go: the file that a session serves
--   Server/Upload       the upload slots of tool.go, ApplyControl of control.go
--   Server/Handle       handle/handle.go and operation.go: the requests
--   Server/Handle/Connection   handle of session.go: the loop that reads a connection
--   Server/History      sequences of requests and calls from a new session on
--   Server/Listener     Start, Stop and CloseConn of session.go
--   Client              internal/gsp_sdk/client/receiver.go: fetch, GetFileStatus
--   Client/Exchange     the same file: exchange, PeerReg, WatchControl
--   Receiver            internal/receiver/download.go: the order of the chunks; Receiver/Workers the
--                       workers as a step relation, Receiver/Attempts what a worker does for a chunk
--   FileName            pkg/gosilver/path.go: SanitizeFileName
--   Folders             internal/transfer/files.go: SafeName, ValidateEntries; Folders/Extract is
--                       Extract over a tree of files, with the errors of each system call,
--                       Folders/Probe is ProbeTarget, Folders/Copy CopyContext
--   MemPool             pkg/mempool/mempool.go
--   WebUi               the records of internal/webui that its parts share
--   WebUi/Output        agent.go: limitedOutput and execute
--   WebUi/Agent         agent.go: the tasks of a receiver; Agent/Runs is the step relation of all
--                       that happens to them, Agent/Control the requests of the sender with the
--                       download that one of them starts, Agent/Resolve the function resolve
--   WebUi/Roles         app.go, sender.go, discovery.go: a node's role as a sender or a receiver, cut
--                       into the parts that hold the lock, and their interleavings
--   WebUi/Peers         tasks.go: storePeer and monitor
--   WebUi/Dispatch      app.go: probe and dispatch
--   WebUi/Distribution  distribution.go: distributionLoop
--   WebUi/Upload        http.go: upload, over a tree of files
--   WebUi/Listing       http.go: listDirectory
--   Examples            concrete inputs on which the theorems are applied
--
-- How the code is read. Numbers are natural numbers; int64 and uint32 wrap around where the code
-- computes with them (Chunk.int64, the length field of a frame). A Go map is an association list
-- with one entry for each key, and a range over it takes the list's order. A file is its bytes with
-- size, modification time and identity. A connection is the list of the bytes that it delivers. The
-- clock, random numbers and the results of dialling, writing and fetching are arguments. Each part
-- of an operation that holds a lock is one step. float64 is a parameter with the operations that the
-- scheduler uses (Server.Floats); no law of them is assumed. JSON and zoneOf are parameters too.
--
-- Loops are structural, but for two of download.go that run on fuel: gcd has one round more than
-- its second argument, which falls in every round; and the search for a step has as many rounds as
-- there are chunks, within which it comes to 1. The loops of the web interface that go on for as long
-- as the world lets them (monitor, distributionLoop) run over the list of their rounds.
--
-- Not modelled: sockets and deadlines, the routes and the event stream of the web interface
-- (internal/webui/http.go) and the texts that it only shows, the rest of internal/transfer (making an
-- archive, the disk's free space), mDNS and discovery, and the command line.
pub mod Prelude
pub mod Gsp
pub mod Crc32
pub mod Chunk
pub mod ConnPool
pub mod Server
pub mod Receiver
pub mod Client
pub mod FileName
pub mod Examples
pub mod Folders
pub mod MemPool
pub mod WebUi
