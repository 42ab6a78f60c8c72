-- ===== src/Consensus/Task.antt =====
-- src/consensus/task.rs: the state of the consensus task, its start, and what it does on each action.
-- Channels are not part of the state: an action yields the reply that it sends back, the pollsters
-- that it starts and the events that it emits. `PeerId` is a type of libp2p.
use libtaurus.Prelude.{
  ℕ, Bool, Option, none, some, List, [], ◌∷◌, ◌++◌, if◌then◌else◌, ltb, length, get_elem?, unique,
  insert, Key, Result, ok, err, panic, ◌>>=◌, unwrap, map_err, try_map, ℕ-Key, take,
}
use libtaurus.Hash
use libtaurus.Hash.{Hash}
use libtaurus.Vertex.{Vertex}
use libtaurus.Dag.{Dag, DagError, default_config}
use libtaurus.Dag as dag
use libtaurus.Dag.Insert.{new}
use libtaurus.Dag.Pending.{try_insert, retry_pending}
use libtaurus.Dag.Vote.{record_query_result}
use libtaurus.Dag.Query.{query, get_vertex, get_frontier}
use libtaurus.Consensus.Pollster.{Pollster}

pub data Event : Type 0 where
  new_frontier : List Vertex → Event

-- `task::Error`
pub data TaskError : Type 0 where
  bad_cfg_quorum_count : TaskError
  of_dag : DagError → TaskError
  events_out_ch : TaskError
  need_validators : ℕ → ℕ → TaskError

pub record Config : Type 0 where
  pub dag_config : dag.Config
  pub query_count : ℕ
  pub quorum_size : ℕ

abbrev pub dflt_query_count : ℕ
dflt_query_count = 5

abbrev pub dflt_quorum_count : ℕ
dflt_quorum_count = 3

-- `Config::default`
abbrev pub default : Config
default = record {
  dag_config = default_config;
  query_count = dflt_query_count;
  quorum_size = dflt_quorum_count;
}

-- `Config::check`
unfoldable pub check : Config → Result TaskError (Unit {0})
check config = if ltb config.query_count config.quorum_size then err bad_cfg_quorum_count else ok tt

-- Wed, 18 Feb 2015 23:16:09 GMT, in seconds from the epoch.
abbrev pub genesis_timestamp : ℕ
genesis_timestamp = 1424301369

-- `GenesisConfig::to_vertex`
abbrev pub genesis_vertex : Vertex
genesis_vertex = record {
  version = 1;
  height = 0;
  parents = [];
  namespace_id = Hash.default;
  root = Hash.default;
  timestamp = genesis_timestamp;
}

module _ (Peer : Type 0) where
  pub data Action : Type 0 where
    add_validator : Peer → Action
    get_accepted_frontier : Action
    get_preference get_vertex_action : Hash → Action
    record_peer_preference : Hash → Bool → Action
    submit_vertex : Vertex → Action

  pub record Task : Type 0 where
    pub config : Config
    pub dag : Dag
    pub validators : List Peer

  -- What is sent on the reply channel of an action, if it has one.
  pub data Reply : Type 0 where
    no_reply : Reply
    frontier_reply : List Vertex → Reply
    preference_reply : Option (Bool × Bool) → Reply
    vertex_reply : Option Vertex → Reply
    submit_reply : Result TaskError (List Hash) → Reply

  pub record Effects : Type 0 where
    pub reply : Reply
    pub pollsters : List (Pollster Peer)
    pub events : List Event

-- The DAG after the retry of the vertices that waited; an error leaves it as it was.
abbrev pub retried_dag : Dag → Result DagError (Dag × List Hash) → Result TaskError Dag
retried_dag dag (ok (dag', successes)) = ok dag'
retried_dag dag (err e) = ok dag
retried_dag dag panic = panic

-- The DAG after a vote: an error leaves it as it was.
abbrev pub voted_dag : Dag → Result DagError Dag → Result TaskError Dag
voted_dag dag (ok dag') = ok dag'
voted_dag dag (err e) = ok dag
voted_dag dag panic = panic

abbrev pub answer : Result DagError (Bool × Bool) → Result TaskError (Option (Bool × Bool))
answer (ok p) = ok (some p)
answer (err e) = ok none
answer panic = panic

module _ {Peer : Type 0} ⦃key : Key Peer⦄ (hash : Vertex → Hash) where
  -- `Task::new`
  unfoldable pub new_task : Config → Result TaskError (Task Peer)
  new_task config = do
    _ ← check config
    dag ← map_err of_dag (new hash config.dag_config (genesis_vertex ∷ []))
    ok (record { config = config; dag = dag; validators = [] })

  -- `get_validators_for_query`. `draws` are the random indices below the number of validators, as many
  -- of them as it takes to find `query_count` different ones.
  unfoldable pub get_validators_for_query : Task Peer → List ℕ → Result TaskError (List Peer)
  get_validators_for_query task draws =
      if ltb (length task.validators) task.config.query_count
      then err (need_validators task.config.query_count (length task.validators))
      else try_map (λ i. unwrap (get_elem? task.validators i))
          (take task.config.query_count (unique draws))

  -- The pollsters for the frontier: one for each vertex, unless there are too few validators.
  abbrev pub start_one :
      Task Peer → Vertex → Result TaskError (List Peer) → Result TaskError (List (Pollster Peer))
  start_one task vx (ok validators) = ok (
      record { vhash = hash vx; peers_to_poll = validators; quorum_size = task.config.quorum_size }
      ∷ [])
  start_one task vx (err e) = ok []
  start_one task vx panic = panic

  unfoldable pub start_pollsters :
      Task Peer → (Vertex → List ℕ) → List Vertex → Result TaskError (List (Pollster Peer))
  start_pollsters task draws [] = ok []
  start_pollsters task draws (vx ∷ frontier) = do
    here ← start_one task vx (get_validators_for_query task (draws vx))
    rest ← start_pollsters task draws frontier
    ok (here ++ rest)

  -- After an insertion: the retries, the pollsters for the new frontier, and the event.
  unfoldable pub inserted :
      (rounds : ℕ)
      → (Vertex → List ℕ)
      → Task Peer
      → Dag
      → List Hash
      → Result TaskError (Task Peer × Effects Peer)
  inserted rounds draws task dag waiting = do
    dag' ← retried_dag dag (retry_pending hash rounds dag waiting)
    frontier ← map_err of_dag (get_frontier dag')
    let task' = record task { dag = dag' }
    pollsters ← start_pollsters task' draws frontier
    ok (
      task',
      record {
        reply = submit_reply (ok waiting);
        pollsters = pollsters;
        events = new_frontier frontier ∷ [];
      },
    )

  abbrev pub quiet : Reply Peer → Effects Peer
  quiet reply = record { reply = reply; pollsters = []; events = [] }

  abbrev pub submitted :
      (rounds : ℕ)
      → (Vertex → List ℕ)
      → Task Peer
      → Dag × Result DagError (List Hash)
      → Result TaskError (Task Peer × Effects Peer)
  submitted rounds draws task (dag, ok waiting) = inserted rounds draws task dag waiting
  submitted rounds draws task (dag, err e) =
      ok (record task { dag = dag }, quiet (submit_reply (err (of_dag e))))
  submitted rounds draws task (dag, panic) = panic

  -- One action of `task_fn`.
  unfoldable pub handle :
      (rounds : ℕ)
      → (Vertex → List ℕ)
      → Task Peer
      → Action Peer
      → Result TaskError (Task Peer × Effects Peer)
  handle rounds draws task (add_validator peer) =
      ok (record task { validators = insert peer task.validators }, quiet no_reply)
  handle rounds draws task get_accepted_frontier = do
    frontier ← map_err of_dag (get_frontier task.dag)
    ok (task, quiet (frontier_reply frontier))
  handle rounds draws task (get_preference vhash) = do
    p ← answer (query task.dag vhash)
    ok (task, quiet (preference_reply p))
  handle rounds draws task (get_vertex_action vhash) =
      ok (task, quiet (vertex_reply (get_vertex task.dag vhash)))
  handle rounds draws task (record_peer_preference vhash preference) = do
    dag ← voted_dag task.dag (record_query_result task.dag vhash preference)
    ok (record task { dag = dag }, quiet no_reply)
  handle rounds draws task (submit_vertex vx) =
      submitted rounds draws task (try_insert hash task.dag vx)
