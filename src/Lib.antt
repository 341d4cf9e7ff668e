-- ===== src/Lib.antt =====
-- Revdial lets servers behind a firewall be dialled: they connect out, and the dialer hands the
-- connections that they bring to its callers. This library models the parts that carry the protocol
-- and the connections, and states what they do.
--
-- The parts and how they meet:
-- - proto/: the protocol of the control connection. The listener's side runs `Client.Register`
--   once and then reads commands in a goroutine. The dialer's side runs `Process` on every
--   connection that comes in, and sends commands over those that registered. In version 2 the
--   connection becomes a yamux session after authentication, with registration and commands on its
--   first stream.
-- - listener.go: for a connect command `Accept` dials again and runs `Client.Bind` under the command's
--   id, or in version 2 opens a stream and asks for it to be bound under that id.
-- - connmng/: the dialer's registered control connections, one for each id, taken in turn.
-- - dialer.go: each `DialContext` adds a request under a new id, has a listener told of it, and waits
--   for the connection or the stream that a handler sends over the request's channel.
-- - pool/: multiplexed connections, with selection of the least used, automatic scaling and metrics.
--
-- Files:
-- - Common: Boolean tests, lists over the native numbers, Go's integers and words, and `Result` with
--   the rules for the outcome of a call that may fail (`Ends`).
-- - Proto/Static, Conn, Commands: proto/static.go, proto/conn.go and proto/commands.go. A connection is
--   seen from one end, with the segments that arrive, what was written, whether it is closed and which
--   writes the network refuses. `read` is one `Read` whose count is ignored, as the source calls it,
--   and `read_full` is `io.ReadFull`.
-- - Proto/Uuid, `Json` of Proto/Commands, `Verifier`: google/uuid, encoding/json and the user's
--   function are parameters. What is assumed of them: 16 bytes are a UUID, and JSON that was
--   marshalled is read back (for names that are valid UTF-8).
-- - Proto/Server: proto/server.go. Types has `NewServer` and its options; Init the
--   authentication (`handleInit`, `handleAuth`, `handleUserPassAuth`); Session has `Process`,
--   `handleRegister`, `handleBind` and `Close`; Send the three sending calls. Login says what a client
--   that is let in has sent; Frame, Authentication, Granting, Outcomes, Openness, ShortReads, Sending
--   and Events are proofs.
-- - Proto/Client: proto/client.go. Types has `NewClient` and `WithUserPass`; Session has `Register`,
--   `Bind`, `Close` and the handshake; Events the goroutine that reads commands. Frame and
--   Ending are proofs.
-- - Proto/Handshake and Proto/Delivery: both ends together. `Exchange.Settles` says that a
--   conversation comes to rest after a number of round trips, with what each end then has.
-- - Connmng: connmng/manager.go, in Manager; Lookup, Getting and RoundRobin are proofs, and Runs has a
--   dictionary that any run of calls is compared with.
-- - Pool: pool/pool.go is in Config, State and Operations, pool/metrics.go in Metrics,
--   pool/mux_conn.go in MuxConn, pool/selector.go in Selector, pool/scaler.go in Scaler. Steps has what
--   runs under the pool's mutex as a step relation; Validated, Capacity, Decisions, Least,
--   Shrinking, Settling and Streams are proofs.
-- - Mux: mux/config.go.
-- - Proto/Multiplex: version 2. ClientEnd is proto/client_v2.go (`ClientV2` with `Register`,
--   `tryV2Registration`, `registerV1`, `Bind`, `bindV2Stream`, `Close`), ServerEnd is
--   proto/server_v2.go (`ServerV2` with `Process`, `processV2AfterAuth`, `AcceptStream`, the sending
--   calls, `Close`), Yamux the parameter for the library and the bytes of a configuration. Wires says
--   what a conversation over a connection and its first stream comes to; the others are proofs.
-- - Listener: listener.go. Network has what is set of the network dialer; State the options, `Listen`,
--   `createPoolConnection`, `Close` and what the end of the context does; Accept has `Accept`,
--   `acceptV1Connection` and `acceptV2Stream`; Streams has `bindStream`; Options, Opening, Events,
--   Leaks, Ending and Closing are proofs.
-- - Dialer: dialer.go. Requests has the table of requests, the handler of a bound connection and the
--   `select` of `DialContext`; Streams has `handleV2Stream`; State has `DialContext` up to its
--   `select`, `SendEvent`, `handleConnection`, a round of the goroutine that accepts streams, and the
--   end of such a goroutine, over the manager and the servers; Lifecycle has `Start`, `serve` with the
--   handlers that it starts, which run later, and `Stop`, with the goroutines that `Stop` waits for.
--   A request is known by the order in which it was made, and its channel is a list; a server is
--   known by the number of its connection.
--   Delivery and Runs are proofs over every order of the steps on requests, Managed, Life and Reached
--   over every order of the dialer's calls, Ending, Rounds, Emptying, Shrinking, Serving, Served and
--   Stopping over every order from `Start` to `Stop` and after; Bound, Admission and Stale are proofs
--   too.
-- - Tunnel: a listener and a dialer together, from the call of `DialContext` to the connection in its
--   caller's hands. Asking is the command; Streams the stream of version 2, Connections the connection
--   of version 1, Accepting what both share; Dialling puts them together.
-- - The modules called Scenarios apply the theorems to concrete inputs and run short examples, with the
--   data of Samples.
--
-- State and concurrency: a method that holds its mutex from its first line to its return is one
-- function on the state, with Go's error as a value. `Pool.scaleUp` and `Pool.OpenStream` release
-- the mutex on the way; there the stretches under the mutex are steps of their own, which others
-- can come between.
--
-- Bounds: no definition has fuel. Loops are recursion on a list; `gather` recurs on the number of
-- bytes and on the segments; the client's goroutine runs for as many rounds as it is given choices
-- of `select`, and one more than there are bytes to come is enough. A conversation is run for a
-- number of round trips that its theorem names, and is shown to have come to rest. Lengths on the
-- wire are two bytes, counters of the pool are words of 64 and 32 bits with their wrap-around, and
-- the configuration's integers have no bound.
--
-- Not modelled: logging, the text of errors, contexts and deadlines beyond the cancelling of a
-- context, and TLS, whose configurations are only passed on. What a network dialer connects to, whether
-- a network listener opens, and yamux are parameters. The handlers of connections that did not register
-- and of streams run beside `Stop`, which does not wait for them, and are steps of their own. Also left
-- out are the generated mock of connmng/ and the tests, and the race of the goroutine in
-- `handleConnection` that closes the connection with the context: the handler counts as having stopped
-- it where it closes `done`. Of yamux it is assumed, where a theorem says so, that closing a session
-- closes the connection under it, and that a closed session accepts no stream, those that wait in its
-- backlog included.
pub mod Common
pub mod Proto
pub mod Connmng
pub mod Pool
pub mod Mux
pub mod Dialer
pub mod Listener
pub mod Tunnel
