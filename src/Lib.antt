-- ===== src/Lib.antt =====
-- Verification of ws-fanout, a WebSocket fan-out server: publishers hand it JSON payloads for
-- channels, clients subscribe to channels and get them.
--
-- The parts. A `Registry` (src/registry.rs) keeps the connections, the set of channels of each, and
-- an index from channels to connections; `publish` and `broadcast` put frames into the connections'
-- bounded queues and never wait. For every socket a task (src/server.rs: `connection`,
-- `authenticate`, `session`, `handle`) authenticates the client, adds it to the registry, moves
-- frames from its queue to the socket, and turns its messages (src/protocol.rs) into calls on the
-- registry, until it closes, falls silent or is too slow. Who may come in and subscribe
-- (src/auth.rs), and what a new subscriber is told first (src/snapshot.rs), are trait objects.
--
-- The files.
--   Prelude, Collections: shared names and lemmas; `HashMap` and `HashSet` as association lists
--     and lists without doubles, whose order stands for the order of iteration.
--   Protocol: src/protocol.rs. `Serde` stands for serde_json at the program's types.
--   Mpsc: tokio's bounded channel as an interface, `try_send`, `recv` and the drop of the
--     receiver, with their documented behaviour as laws.
--   Registry: src/registry.rs, a function for each method: `new`, `add`, `remove`, `len`,
--     `subscribers`, `subscribe`, `unsubscribe` and `drops`, and in Registry.Deliveries `deliver`,
--     `send`, `publish` and `broadcast`. The other children treat the invariant (Invariant,
--     by way of Index and Loops), the relation "this connection holds that channel"
--     (Subscriptions), deliveries (Deliver, Queues, Keeps), publishing against a scan (Publish,
--     Counts), the limits (Within), the receiving end of a queue (Receiver), the counters that the
--     tasks change (Counters), histories (Reach), calls as data (Calls), a queue over
--     calls (Stream), and registries that hold the same in different orders (Order: the loops over
--     a set, one entry, the counters as numbers of connections, one call's counters, histories).
--   Error, Auth, Snapshot: src/error.rs, src/auth.rs, src/snapshot.rs. `Jwt` stands for the
--     jsonwebtoken crate.
--   Server.Config: `Config` of src/server.rs.
--   Server.Task: a connection's task as a sequence of calls on the registry. `run` is the task
--     alone; `Among` lets others act before, between and after its calls, in `Exec` by any steps.
--   Server.Handle, Server.Session, Server.Connection: `handle`; `session` with `send_now`;
--     `connection` with `authenticate` and the drop of `Registered`. A round of the session's loop is
--     given the branch that `select!` took and what the socket and the clock answered, so that the
--     loop is a function of the list of its events; a list that ends early is a task that is stopped
--     from outside in Server.Connection, and one that waits in Server.System. The close of the socket, which
--     nothing bounds in time, is a step of its own: `run` takes it at once, in Server.System it is an
--     action that may never come. In Server.Session.Fifo the frames of the events are those that the queue gives, with other
--     tasks in between. Server.Connection.Apart has a registered connection among other tasks, and by way of
--     Server.Task.Apart the calls of those others without it.
--   Server.Serve: the accept loop `serve` and its tasks as a relation between states, with the
--     semaphore as an interface: a socket is accepted or refused, a task joins the registry, leaves
--     it, drops its permit.
--   Server.System: all of this at once, as a function on actions: the accept loop, publishers, and for every
--     socket a task that is somewhere in `connection` with the calls of its `session` that are left
--     (Calls: the registry's call that an action is; Coherent: the registry's connections against the
--     tasks; Refines: against Server.Serve; Empty: once the tasks have ended; Foreign, Safe, Secure,
--     Permits: who is in and with which channels; Stages, Ends, Slow: endless runs). What a client sends is
--     given when its task gets through `authenticate`; a frame that a task takes from its queue is an
--     action of its own.
--   Registry.Race: `deliver` taken apart into its atomic operations, with any number of calls for one
--     connection at once (Alone: one call; Counters: what the counters come to; Serial: against calls made
--     as a whole, one after another).
--   Api: src/lib.rs, every method of `Server` and `Builder`. `bind` is given what the listener
--     answered. Api.Clones counts the clones of a `Server`, held by callers and by sources, with the drop of
--     `Accepting` and the test that a source makes before each round.
--   Outcry: src/outcry_source.rs, the loop of `consume_outcry` over what `try_read` answers.
--   Gateway, Feed: examples/gateway.rs and examples/synthetic_feed.rs, the decoder with its snapshots
--     and the loop that writes the frames. Gateway.Main has the gateway's `main`, and Gateway.Exits how it
--     ends. Gateway.Carries has the one read what the other wrote,
--     Gateway.Coherent sets the snapshots against what was published.
--   Strings: UTF-8, `split_once` and the decimal form of a number, as Rust's library has them.
--   Tests: a concrete queue, registry and set of services, runs of them, and an instance of each
--     general statement. Tests.Units has the unit tests of src/ as runs of the models, but for
--     those that need serde_json or jsonwebtoken.
--
-- Numbers. The `AtomicU64` counters and ids wrap at 2^64; statements on ids take them not to run
-- out. Every loop of the program is over a list. `display` of Strings.Decimal takes the digits of n in
-- n + 1 rounds, more than it has.
--
-- What is not modelled. `mpsc::channel` panics over a queue longer than `MAX_PERMITS`, which
-- `validate` lets through; a task that does so ends before it joins the registry, and is not
-- distinguished from one that fails. When the listener fails, `serve` ends: then there are no more
-- of its rounds. A call on the registry is one step, but that `publish` may also be taken as the
-- `send`s that its loop makes; only the operations of `deliver` are taken apart, in Registry.Race
-- and for one connection. The counters are updated with the call, where `add` updates them just
-- after it has released the lock. Logging, timers, TLS and sockets are absent, and so are the
-- serialised form of messages, which serde derives; what the examples' files, sockets and signals
-- answer is given, and the feed's price is given as text, since it is computed in floating point.
pub mod Prelude
pub mod Collections
pub mod Strings
pub mod Protocol
pub mod Mpsc
pub mod Registry
pub mod Error
pub mod Auth
pub mod Snapshot
pub mod Server
pub mod Api
pub mod Outcry
pub mod Gateway
pub mod Feed
pub mod Tests
