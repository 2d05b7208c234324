-- ===== src/Lib.antt =====
-- peerbus: a verification library of the message bus.
--
-- The bus is a broker, to which peers connect by WebSocket through adapters. A peer signs an
-- envelope (internal/hmac over the canonical form of internal/wire) and sends it to the broker, which
-- keeps it in a durable queue (internal/store), delivers it, and logs each step in a hash chain
-- (internal/audit). A delivery is repeated on reconnect until it is acked, and the adapter of the
-- recipient verifies the signature and drops repeats before the host sees them.
--
-- - Wire, internal/wire. Json is a parsed JSON text, Print what encoding/json writes, Runes the UTF-8 of
--   its strings, Fields how it reads an object into a struct, Socket what a read under the read limit
--   gives of a frame. Envelope has the envelope, the version policy and the canonical form
--   (CheckVersion, Canonical), Control the frames (ControlTypeOf). A frame is its JSON value, or `none`
--   where it is no JSON text.
-- - Hmac, internal/hmac/hmac.go (Sign, Verify, SignEnvelope, VerifyEnvelope).
-- - Store, internal/store/store.go. Store/Schema has the tables of schema.sql and each SQL statement as a
--   function of lists, Store/Handle the handle, the errors, statements and transactions. Each method of
--   Store is an action that returns its result and the handle; a driver says which statements fail, so
--   a theorem about an action is about every failure on the way.
-- - Audit, internal/audit/audit.go (Append, Verify).
-- - Broker, internal/broker. Auth is auth.go, Config config.go, Registry registry.go, Server server.go (handshake,
--   flushPending, serve, ServeHTTP), Router router.go (routeFrame, routeDirect, routeBroadcast,
--   handleAck, handlePeers, deliverTo, auditEvent). Broker/State is the state that the handlers share:
--   the store, the registry, and for each connection the frames that were written to it. Server and Router
--   have the handlers as functions that run whole; Threads has each handler again as the program of a
--   goroutine, of atomic steps that a schedule interleaves with those of all other connections (one
--   step is a call of the store, a call of the registry under its mutex, an append to the log under
--   the appender's, a frame written, a connection closed, or a look at a field). A system
--   has any number of connections, of which the i-th reads what a list says and then waits, on a new database; a
--   schedule is a list of connections, each of which makes its next step. Soundness, Contract and Moves
--   have what a goroutine relies on and guarantees.
-- - Mcp, internal/mcp, which serves JSON-RPC to the host of an adapter over stdin and stdout. Framing has
--   the frames (readMessage, readContentLengthFramed), Rpc the messages, Tools the bus.* tools
--   (callTool) over any bus, Server the dispatch and the loop (dispatch, handleToolsCall, Serve),
--   Handshake the channel that waits for the host (Initialized, signalInitialized). A bus is a
--   record of operations on a state, as the interface Bus of tools.go, which the modes fill.
-- - Channel, internal/channel: the notifications of claude/channel (Deliver, AnnounceSelf, decodeBody),
--   Names for the names of sessions (UniqueName), Words for the word lists.
-- - Adapter, internal/adapter. Client is client.go, Dedupe dedupe.go, Resume reconnect.go, with the
--   redials and the loop of Run in Resume/Run, Outbound what the modes ask of the resuming client,
--   Generic generic.go, Cc cc.go, Mode mode.go.
-- - Command, cmd/peerbus. Command itself is main.go, Command/Broker broker.go, Command/AdapterRun
--   adapter.go, Command/Flags what these use of Go's flag package.
-- - EndToEnd, the way of a message from client to client, through Adapter/Client, Broker/Router and Hmac,
--   on a broker where nothing fails (Broker/Direct and Broker/Fanout have the broker's part).
-- - Fixtures and Examples, concrete inputs, and the theorems at these.
--
-- Texts are Go strings, lists of bytes. Numbers are unbounded: the wrap-around of int64 counters is
-- out of reach of a running system and is not modelled. Loops recurse over the list that they run
-- through, and the read loops over the reads that the socket gives; the pump of a connection runs on
-- fuel, of which one more than there are reads is enough. The loop of the MCP server runs on fuel, of
-- which one more than there are bytes of input is enough, and so does the loop over header lines; the
-- probes of the cc mode run on fuel for seven of them, which is enough.
--
-- Parameters stand for code that is not here: the SQLite driver and the clock (Driver), blake3 (32
-- bytes), HMAC-SHA-256 (32 bytes), the syntax check of encoding/json on a raw message (Syntax), its
-- parser and the texts of its errors (Decoder), the network, whose writes may fail (World), the random
-- bytes, the clock and the waits of an adapter (Host, Network), and the files, the environment and the
-- ends of servers and modes that a command meets (Machine, Surroundings).
--
-- Not modelled: WebSocket and HTTP, logging, contexts and timers but for where they end a loop,
-- signals, and the texts of usage. Calls of a tool and deliveries of an adapter run whole, one
-- after another. In the broker, a call of the store is one step, though PendingFor and
-- RequeueUnacked ask for the peer in a statement of their own; a peer row is never taken back, so
-- that this makes no difference. A json.RawMessage of the MCP layer is a JSON value, which prints
-- compactly where the code keeps the text as it stood. Keys of objects are folded for ASCII only.
-- Strings are written as encoding/json writes them, with U+FFFD for each byte that is no part of a
-- rune; what a frame carries is the JSON value that it is parsed to, and Wire/Socket says what such a
-- value becomes when it is printed, passes the read limit and is parsed again. Memory is unbounded, but
-- for the buffer of a framed message, whose allocation panics above 2^48 bytes.
-- The read loop of a connection has no bound: it runs over a list of what its reads give up to some
-- moment, behind which the goroutine waits in a read (Threads), so that what is proved of all schedules
-- and lists holds of every moment of every run; nothing is proved of when a connection ends.
pub mod Prelude
pub mod Wire
pub mod Hmac
pub mod Store
pub mod Audit
pub mod Broker
pub mod Mcp
pub mod Channel
pub mod Adapter
pub mod Command
pub mod Fixtures
pub mod EndToEnd
pub mod Examples
