-- ===== src/Consensus/Starting.antt =====
-- src/consensus/task.rs: the start of the task, up to the event for its initial frontier.
use libtaurus.Prelude.{
  ◌<◌, ◌≤◌, ◌≡◌, refl, true, false, List, [], ◌∷◌, ◌++◌, arith, Key, Result, ok, err, panic, ◌>>=◌,
  Bool, if◌then◌else◌, Bool-cases, ltb, inl, inr, map_err, try_fold, IsErrless, ok-IsErrless,
  unwrap-IsErrless, >>=-IsErrless, try_fold-IsErrless, Returns,
}
use libtaurus.Map.{get}
use libtaurus.Hash.{Hash}
use libtaurus.Constraint.{Constraint, ConflictSetKey-Key, unity, conflict_set_key}
use libtaurus.Vertex.{Vertex, parent_constraints}
use libtaurus.Dag.{Dag, DagError, bad_cfg_threshold}
use libtaurus.Dag as dag
use libtaurus.Dag.Ancestors.{state_of}
use libtaurus.Dag.Answers.{Grown-HasFrontier}
use libtaurus.Dag.Frontier.{HasFrontier}
use libtaurus.Dag.Grown.{rooted}
use libtaurus.Dag.Insert.{new, insert_initial, insert_vertex, accept_initial}
use libtaurus.Dag.Inserting.{insert_vertex-IsErrless}
use libtaurus.Dag.Query.{get_frontier}
use libtaurus.Dag.Rooted.{IsStarted, new-Returns}
use libtaurus.Consensus.Task.{
  Task, TaskError, Config, Event, new_frontier, check, bad_cfg_quorum_count, of_dag, genesis_vertex,
  new_task,
}

-- The event that `task_fn` emits first, which somebody has to receive: a listener that the task waited for
-- may be gone when it sends.
unfoldable pub first_event : {Peer : Type 0} (heard : Bool) → Task Peer → Result TaskError Event
first_event heard t = do
  frontier ← map_err of_dag (get_frontier t.dag)
  if heard then ok (new_frontier frontier) else panic

-- `start`: the task, and the first event that it emits.
unfoldable pub start :
    {Peer : Type 0} ⦃key : Key Peer⦄ (heard : Bool)
    → (Vertex → Hash)
    → Config
    → Result TaskError (Task Peer × Event)
start heard hash config = do
  task ← new_task hash config
  event ← first_event heard task
  ok (task, event)

-- How a start comes out.
pub data IsBegun {Peer : Type 0} ⦃key : Key Peer⦄ (hash : Vertex → Hash) (config : Config)
    : Result TaskError (Task Peer × Event) → Type 0 where
  bad_quorum :
      config.query_count < config.quorum_size → IsBegun hash config (err bad_cfg_quorum_count)
  bad_threshold :
      config.quorum_size ≤ config.query_count
      → config.dag_config.thresh_accepted < config.dag_config.thresh_safe_early_commit
      → IsBegun hash config (err (of_dag bad_cfg_threshold))
  running :
      {t : Task Peer} {vs : List Vertex}
      → config.quorum_size ≤ config.query_count
      → config.dag_config.thresh_safe_early_commit ≤ config.dag_config.thresh_accepted
      → new_task hash config ≡ ok t
      → HasFrontier hash t.dag vs
      → IsBegun hash config (ok (t, new_frontier vs))

module _ (hash : Vertex → Hash) (config : dag.Config) where
  accept_initial-IsErrless :
      (state : dag.State) (c : Constraint) → IsErrless (accept_initial hash state c)
  unfolding accept_initial
  accept_initial-IsErrless state c =
      >>=-IsErrless (state_of state c) _ (unwrap-IsErrless (get state (conflict_set_key c)))
        λ s. ok-IsErrless _

  insert_initial-IsErrless : (d : Dag) (vx : Vertex) → IsErrless (insert_initial hash d vx)
  unfolding insert_initial
  insert_initial-IsErrless d vx =
      >>=-IsErrless (insert_vertex hash d vx) _ (insert_vertex-IsErrless hash d vx) λ d'.
        >>=-IsErrless
          (try_fold (accept_initial hash) d'.state (parent_constraints vx ++ unity (hash vx) ∷ []))
          _
          (try_fold-IsErrless (accept_initial hash) (parent_constraints vx ++ unity (hash vx) ∷ [])
            d'.state accept_initial-IsErrless)
          λ s. ok-IsErrless _

  new-refused :
      config.thresh_accepted < config.thresh_safe_early_commit
      → new hash config (genesis_vertex ∷ []) ≡ err bad_cfg_threshold
  unfolding new dag.check
  new-refused h =
      let e : ltb config.thresh_accepted config.thresh_safe_early_commit ≡ true =
        ground (arith, h) in
      rw (e) refl

  new-IsErrless :
      config.thresh_safe_early_commit ≤ config.thresh_accepted
      → IsErrless (new hash config (genesis_vertex ∷ []))
  unfolding new dag.check
  new-IsErrless h =
      let e : ltb config.thresh_accepted config.thresh_safe_early_commit ≡ false =
        ground (arith, h) in
      rw (e) (
        try_fold-IsErrless (insert_initial hash) (genesis_vertex ∷ []) (dag.empty config)
          insert_initial-IsErrless)

  new-starts :
      config.thresh_safe_early_commit ≤ config.thresh_accepted
      → (d : Dag) × (new hash config (genesis_vertex ∷ []) ≡ ok d)
  new-starts h =
      only (new hash config (genesis_vertex ∷ [])) (new-IsErrless h)
        (new-Returns hash config genesis_vertex refl (omega arith))
    where
      only :
          (r : Result DagError Dag)
          → IsErrless r
          → Returns (IsStarted hash config genesis_vertex refl (omega arith)) r
          → (d : Dag) × (r ≡ ok d)
      only (ok d) n p = (d, refl)
      only (err e) n p = absurd (n.no_error e refl)
      only panic n p = elim p [ ]

-- The start of the consensus task does not panic if somebody listens to its first event. It fails by `BadCfgQuorumCount` if the quorum is
-- larger than the number of peers in a query, else by the DAG's `BadCfgThreshold` if the threshold of
-- the early commitment is the larger one. Otherwise the task runs, and its first event is the frontier of
-- its DAG.
pub start-IsBegun :
    {Peer : Type 0} ⦃key : Key Peer⦄ (hash : Vertex → Hash) (config : Config)
    → IsBegun {Peer = Peer} hash config (start true hash config)
unfolding start first_event new_task check
start-IsBegun {Peer} hash config = elim (Bool-cases (ltb config.query_count config.quorum_size)) [
  | inl e ↦ rw (e) (bad_quorum (ground (arith, e)))
  | inr e ↦
      elim (Bool-cases
        (ltb config.dag_config.thresh_accepted config.dag_config.thresh_safe_early_commit)) [
          | inl f ↦
              rw (e, new-refused hash config.dag_config (ground (arith, f)))
                (bad_threshold (ground (arith, e)) (ground (arith, f)))
          | inr f ↦
              let (d, q) = new-starts hash config.dag_config (ground (arith, f)) in
              let (vs, k, shown) =
                Grown-HasFrontier hash config.dag_config genesis_vertex refl (omega arith) d
                  (rooted q) in
              let t : Task Peer = record { config = config; dag = d; validators = [] } in
              let runs : new_task hash config ≡ ok t = rw (new_task, check, e, q) refl in
              rw (e, q, k) (running {t = t} (ground (arith, e)) (ground (arith, f)) runs shown)
        ]
]
