-- ===== src/Lib.antt =====
-- A verification library for libtaurus: a DAG of vertices on which peers reach consensus by repeated
-- votes, and the tasks that run it.
--
-- The program's parts. The consensus task (src/consensus/task.rs) owns the DAG (src/consensus/dag.rs).
-- Vertices (src/consensus/vertex.rs) come in through its API (src/consensus/api.rs) from the daemon's
-- handler of gossiped messages (src/app/taurusd/handler.rs), from the fetcher of missing ancestors
-- (src/fetcher/task.rs) and from the RPC server (src/rpc/handlers.rs), to which the sequencer
-- (src/sequencer/mod.rs) proposes. After each insertion the task starts a pollster
-- (src/consensus/pollster.rs) for every vertex of the frontier; it asks peers through the P2P task
-- (src/p2p/task.rs) and reports what a quorum prefers, which the DAG records as a vote.
--
-- Which file models which part.
-- - Prelude: the native numbers, lists, the tests, `Key` for types with a decidable equality, and
--   `Result`, whose third case is a panic. Map: `HashMap` as an association list.
-- - Hash, Namespace, Wire: src/hash.rs, src/consensus/namespace.rs and src/wire/mod.rs.
-- - Constraint and Vertex: src/consensus/vertex.rs. Constraint/Keys and Constraint/Pairs are about the
--   conflict sets and the iterator; Vertex/Checks, Vertex/Protobuf and Vertex/Roundtrip about the checks
--   and the messages.
-- - Dag: src/consensus/dag.rs. The record `Dag` has the fields of `DAG`. The methods are in Dag/Ancestors
--   (get_active_ancestors and its constraints), Dag/Insert (map_child, insert, new), Dag/Check
--   (check_vertex), Dag/Pending (try_insert, retry_pending), Dag/Vote (record_query_result) and Dag/Query
--   (is_preferred, query, get_frontier). Dag/Grown has the histories of a DAG and what holds along them.
--   The lemmas are about the checks in Dag/Heights, Dag/Built and Dag/Refusals; about the graph in
--   Dag/Shape, Dag/Origin and Dag/Ballot; about the constraint graph in Dag/Wired, Dag/Registering,
--   Dag/Registration, Dag/Arrival, Dag/Relabel and Dag/Sound; about the ends of the recursions in
--   Dag/Levels, Dag/Descent and Dag/Voting; about whole calls in Dag/Inserting, Dag/Rooted, Dag/Total,
--   Dag/Knowing, Dag/Retrying, Dag/Retried, Dag/Polling, Dag/Casting, Dag/Answering and Dag/Answered;
--   about the abstract ledger in Dag/Ledger and Dag/Refinement; about the acceptance of constraints in
--   Dag/Decisions, Dag/Safety, Dag/Runs, Dag/Commit, Dag/Tally, Dag/Counting, Dag/Streak and Dag/Orphan; and about the answers to queries in
--   Dag/Decided, Dag/Deciding, Dag/Founded, Dag/Asking, Dag/Frontier, Dag/Answers and Dag/Placed.
-- - Consensus: Pollster and Poll, Task with Starting, Runs, Safety, Steady, Choosing, Ending and
--   Validators, and Api.
-- - P2p: Request, Broadcast and Messages for the messages, Api for src/p2p/api.rs, Task, Bootstrap,
--   Delivery and Gossip for the task, Listener for the search for a port, which the RPC task does alike. Fetcher,
--   Daemon, Rpc, Sequencer and Util model src/fetcher, the handler, the identity key and the
--   configurations of src/app/taurusd, src/rpc, src/sequencer and src/util. P2p/Loop is a round of the
--   P2P event loop, Daemon/Dispatch that of the handler, and Daemon/Serving joins the two with the
--   consensus task; Sequencer/Loop and Sequencer/Ticking join the sequencer with the DAG.
-- - Dag/Suite, Vertex/Suite, Consensus/Suite, P2p/Suite and Hash/Suite have unit tests of
--   src/consensus/dag.rs, src/consensus/vertex.rs, src/consensus/task.rs, src/p2p/broadcast.rs and
--   src/wire/mod.rs as functions, Wire/Suite the test helpers of src/wire/mod.rs; Dag/Tests,
--   Dag/Histories, Dag/Replies, Dag/Ballots and Examples run the definitions at concrete inputs.
--
-- How state and errors are modelled. A method that takes `&mut self` takes the state and returns the
-- next one. A method whose caller drops its error returns the state also then. `unwrap`, `expect` and an
-- index into a map are `panic` where there is nothing. A `DateTime` is the number of its instant, and the
-- clock is an argument. A vertex is a value, since no `Arc<Vertex>` is changed after it is made.
--
-- Numbers. A `u64` sum keeps its wrap-around (`add64`); ports and quorums are natural numbers.
--
-- Fuel. The recursions over ancestors and over the progeny of constraints are allowed one more round than
-- the graph has vertices. It is enough: the number of vertices at most as high as a vertex falls along
-- its parents (Dag/Descent), and the number of vertices at least as high as a constraint falls along its
-- children (Dag/Voting). A recursion that runs out panics, so what does not panic has not run out. The
-- iterator over constraints, the search for a port and the scaling of numbers have bounds of their own.
-- `retry_pending` and the consensus task take the number of rounds of the retry loop as an argument;
-- in each round the loop loses an element of its queue, or a known vertex enters the graph
-- (Dag/Retrying).
--
-- What is not modelled. The hash of a vertex (blake3 over the prost encoding) is a parameter `hash`;
-- nothing is assumed of it. The prost codec, the random generator, the swarm of libp2p, the tokio
-- channels, the hex encoder and the JSON RPC server are parameters or left out, and so are logging, JSON
-- formatting, command lines and the start-up of the programs. The files of the daemon are a map. The
-- order in which a `HashMap` is iterated is not specified; here it is the order of first insertion.
-- The receiver of a channel that the code unwraps a send on is a Boolean argument: whether it is still
-- there.
pub mod Prelude
pub mod Map
pub mod Hash
pub mod Namespace
pub mod Constraint
pub mod Wire
pub mod Vertex
pub mod Dag
pub mod P2p
pub mod Consensus
pub mod Daemon
pub mod Fetcher
pub mod Rpc
pub mod Sequencer
pub mod Util
pub mod Examples
