-- ===== src/Lib.antt =====
-- A model of tapi2p, a peer-to-peer chat and file-transfer program: its core daemon, which keeps
-- encrypted connections to peers and serves local user interfaces over a unix socket.
--
-- The parts and the files that model them (paths from the repository's root):
--   Event          core/event.c, core/event.h: events, their bytes on a socket, and the tables of
--                  callbacks by event type. Wire has event_send and event_recv, Callbacks the tables.
--   Pipes          core/pipemanager.c: the user interfaces that listen on the unix socket.
--   FileTransfers  core/filetransfermanager.c: the table of the status of all file transfers.
--   Peer           core/peer.c: a peer and its slots for file transfers, each with a mutex.
--   Peers          core/peermanager.c: Table is the array of peers, Sockets the sets given to select;
--                  ForEach is the loop over peer_next that the other files have.
--   Files          core/file.c: hashes of a file's parts and the metadata file.
--   Crypto         crypto/aes.c: the envelope in which an event travels to a peer; Layout is its
--                  struct as bytes.
--   Keys           crypto/key.c, crypto/publickey.c, crypto/privatekey.c: an RSA key, over a heap of
--                  the objects that it owns; Generate is crypto/keygen.c.
--   Paths          core/pathmanager.c: where the core's files are.
--   Core           core/core.c: Reading is a round of read_thread, Receive its payload loop, Routing its
--                  switch on the event's type and the listeners of core_start, Startup core_start,
--                  Directories mkdirp.
--                  Connections has check_peer_key, connect_to_peers and the accepted connection of
--                  connection_thread; Sending has send_event_to_peer, send_to_all and, from
--                  core/file.c, the requests that are sent with them; UnixSocket has the socket
--                  that user interfaces connect to.
--   PtrList        core/ptrlist.c: the list of the peers that read_thread removes.
--   Handlers       core/handlers.c. Setup, AddPeer and FilePart are the handlers of their names,
--                  Listing those that answer with JSON or pass a request on, Serving those that send
--                  files, with their threads, by the send_file_part of Sending, and Receiving
--                  handlemetadata.
--   Util           core/util.c: new_socket and the modes of a socket.
--   Cli            ui/cli/cli.c: the command line client. Main is main with its options, ImportKey the
--                  import of a peer's key.
--   Web            ui/web/server/tapi2p_websocket.c: between a browser and the core's socket.
--   Base           what the files share: numbers, lists, bytes, C strings, fd_set.
--   Tests          the theorems at concrete inputs.
-- An event from a peer is opened by Crypto, routed by Core.Routing to the callbacks of
-- Event.Callbacks, whose handlers change the configuration and the tables; the sockets come from
-- Peers and Core.Connections, and Pipes passes events on to the user interfaces, of which Web and Cli
-- are two. Cli and the handlers of Handlers.Setup meet in the texts that jansson prints and reads.
--
-- State is passed explicitly, by a record for each component's static variables. Functions that can
-- fault (NULL read, access outside an array, use of a password that was not encrypted, failed assert)
-- return an Option, `none` being the fault.
-- Machine integers are natural numbers with their wrap-around written out; C's signed integers are
-- ℤ, with -1 as `negsuc 0`. A pointer into an array is an index, a function pointer a number.
-- getenv, getopt_long, select, the sockets, the file system, OpenSSL, jansson and dtgconf are arguments.
--
-- Fuel: the loops over pipe_fds run at most MAX_PIPE_LISTENERS + 1 rounds, one more than there are
-- cells; `decimal` has as many digits as its caller's numbers need, five for a port. A loop over
-- peer_next takes a round for each peer and one more. sendmetadata takes one round for a file that is
-- shorter than a part. The loop that imports a key has a round for each byte of stdin and one more,
-- and each round takes a byte; the list of the peers to remove has one node that is reached. The other
-- loops are recursions on the list they go through.
--
-- Not modelled: the interleaving of threads and the mutexes other than those of the transfer slots
-- (calls are made one after the other, in any order), output to the terminal but for the
-- client's, core_init, the loops of the threads around the steps above, changes that callbacks make to
-- the table of peers in the middle of a round of read_thread, and the user interfaces under ui/ other
-- than the websocket server and the command line client.
pub mod Base
pub mod Event
pub mod FileTransfers
pub mod Pipes
pub mod Peer
pub mod Peers
pub mod Files
pub mod Crypto
pub mod Paths
pub mod PtrList
pub mod Util
pub mod Web
pub mod Core
pub mod Cli
pub mod Keys
pub mod Handlers
pub mod Tests
