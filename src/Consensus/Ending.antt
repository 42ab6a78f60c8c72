-- ===== src/Consensus/Ending.antt =====
-- Every action of the consensus task comes to an end, and what a submission announces.
use libtaurus.Prelude.{
  ℕ, ◌+◌, ◌<◌, ◌≡◌, ◌≢◌, refl, ap, ◌∙◌, Bool, true, false, Option, none, some, List, [], ◌∷◌, arith,
  Key, ℕ-Key, Result, ok, err, panic, all, u64_mod,
}
use libtaurus.Map.{get, get-insert_self}
use libtaurus.Hash.{Hash, Hash-Key}
use libtaurus.Vertex.{Vertex}
use libtaurus.Dag.{Dag, DagError}
use libtaurus.Dag.Answered.{IsLost}
use libtaurus.Dag.Answers.{Grown-IsAnswer, Grown-HasFrontier}
use libtaurus.Dag.Asking.{prefers, IsAnswer, unknown, waits, settled, unsettled, orphaned}
use libtaurus.Dag.Grown.{
  Grown, submitted, retried, retry_pending-ends, record_query_result-IsLost, try_insert-IsOutcome,
}
use libtaurus.Dag.Placed.{retry_pending-IsPlaced}
use libtaurus.Dag.Check.{check_vertex}
use libtaurus.Dag.Pending.{on_error, try_insert}
use libtaurus.Dag.Query.{get_frontier}
use libtaurus.Dag.Total.{IsOutcome, refused, accepted}
use libtaurus.Dag.Vote.{record_query_result}
use libtaurus.Consensus.Choosing.{AreBelow, ArePolled, start_pollsters-ends}
use libtaurus.Consensus.Steady.{IsFit, Steady, Steady-Grown}
use libtaurus.Consensus.Task as task
use libtaurus.Consensus.Task.{
  Task, TaskError, Config, Action, add_validator, get_accepted_frontier, get_preference,
  get_vertex_action, record_peer_preference, submit_vertex, Effects, submit_reply, no_reply,
  frontier_reply, preference_reply, Event, new_frontier, quiet, of_dag, genesis_vertex, retried_dag,
  voted_dag, answer, handle, start_one, start_pollsters, get_validators_for_query,
}

answer-IsAnswer :
    (dag : Dag) (h : Hash) {r : Result DagError (Bool × Bool)}
    → IsAnswer dag h r
    → (o : Option (Bool × Bool)) × (answer r ≡ ok o)
answer-IsAnswer dag h (unknown e k) = (none, refl)
answer-IsAnswer dag h (waits e k) = (none, refl)
answer-IsAnswer dag h (settled {b = b} e d) = (some (b, true), refl)
answer-IsAnswer dag h (unsettled {cs = cs} e d q) = (some (all (prefers dag.state) cs, false), refl)
answer-IsAnswer dag h (orphaned e d q) = (none, refl)

-- What an accepted submission announces: the frontier of the new DAG as an event, the pollsters for it,
-- and the reply.
pub record IsAnnounced {Peer : Type 0} ⦃key : Key Peer⦄ (hash : Vertex → Hash)
    (draws : Vertex → List ℕ) (t : Task Peer) (fx : Effects Peer) (ready : List Hash) : Type 0 where
  pub frontier : List Vertex
  pub shown : get_frontier t.dag ≡ ok frontier
  pub event : fx.events ≡ new_frontier frontier ∷ []
  pub polled : ArePolled hash t draws frontier fx.pollsters
  pub reply : fx.reply ≡ submit_reply (ok ready)

-- What comes of a submission. A vertex that `check_vertex` refuses is answered by that error; one that
-- it passes joins the graph, and is announced.
pub data IsReceived {Peer : Type 0} ⦃key : Key Peer⦄ (hash : Vertex → Hash)
    (draws : Vertex → List ℕ) (t : Task Peer) (vx : Vertex)
    : Task Peer → Effects Peer → Type 0 where
  turned_down :
      {e : DagError}
      → check_vertex hash t.dag vx ≡ err e
      → IsReceived hash draws t vx
          (record t { dag = on_error hash t.dag vx e })
          (quiet hash (submit_reply (err (of_dag e))))
  announced :
      {t' : Task Peer} {fx : Effects Peer} {ready : List Hash}
      → check_vertex hash t.dag vx ≡ ok tt
      → get t'.dag.graph (hash vx) ≡ some vx
      → IsAnnounced hash draws t' fx ready
      → IsReceived hash draws t vx t' fx

-- How the task handles an action: with enough rounds for the retries it comes to an end, the same
-- whatever the rounds beyond, unless it is a vote that is lost.
pub data IsHandled {Peer : Type 0} ⦃key : Key Peer⦄ (hash : Vertex → Hash) (draws : Vertex → List ℕ)
    (t : Task Peer) (a : Action Peer) : Type 0 where
  ends :
      (rounds : ℕ) (t' : Task Peer) (fx : Effects Peer)
      → ((k : ℕ) → handle hash (k + rounds) draws t a ≡ ok (t', fx))
      → IsHandled hash draws t a
  lost :
      (vhash : Hash) (preferred : Bool)
      → a ≡ record_peer_preference vhash preferred
      → IsLost t.dag vhash preferred
      → IsHandled hash draws t a

module _ {Peer : Type 0} ⦃key : Key Peer⦄ (hash : Vertex → Hash) (config : Config)
    (draws : Vertex → List ℕ) (t : Task Peer) (below : AreBelow hash t draws) where
  inserted-ends :
      (d : Dag) (ready : List Hash)
      → Grown hash config.dag_config genesis_vertex d
      → (rounds : ℕ) × (t' : Task Peer) × (fx : Effects Peer) × ((k : ℕ)
          → task.inserted hash (k + rounds) draws t d ready ≡ ok (t', fx))
        × IsAnnounced hash draws t' fx ready
        × ((h : Hash) (v : Vertex) → get d.graph h ≡ some v → get t'.dag.graph h ≡ some v)
  unfolding task.inserted
  inserted-ends d ready g =
      let (rounds, out, again) =
        retry_pending-ends hash config.dag_config genesis_vertex refl (omega arith) d g ready in
      let g' = retried {dag' = out.0} (0 + rounds) ready out.1 g (again 0) in
      let (vs, e, _) =
        Grown-HasFrontier hash config.dag_config genesis_vertex refl (omega arith) out.0 g' in
      let t' : Task Peer = record t { dag = out.0 } in
      let (ps, f, polled) = start_pollsters-ends hash t' draws below vs in
      (
        rounds,
        t',
        record { reply = submit_reply (ok ready); pollsters = ps; events = new_frontier vs ∷ [] },
        λ k. rw (again k, e, f) refl,
        record { frontier = vs; shown = e; event = refl; polled = polled; reply = refl },
        λ h v.
            retry_pending-IsPlaced hash h v config.dag_config genesis_vertex refl (omega arith)
              {dag' = out.0} (0 + rounds) ready out.1 g (again 0),
      )

  received :
      (vx : Vertex) (p : Dag × Result DagError (List Hash))
      → IsOutcome hash t.dag vx p
      → Grown hash config.dag_config genesis_vertex p.0
      → (rounds : ℕ) × (t' : Task Peer) × (fx : Effects Peer) × ((k : ℕ)
          → task.submitted hash (k + rounds) draws t p ≡ ok (t', fx))
        × IsReceived hash draws t vx t' fx
  received vx p (refused {e} c) g = (
    0,
    record t { dag = on_error hash t.dag vx e },
    quiet hash (submit_reply (err (of_dag e))),
    λ k. refl,
    turned_down c,
  )
  received vx p (accepted {dag'} {ready} c x) g =
      let (rounds, t', fx, again, a, placed) = inserted-ends dag' ready g in
      (
        rounds,
        t',
        fx,
        again,
        announced c
            (placed (hash vx) vx
              (ap (λ m. get m (hash vx)) x.graph ∙ get-insert_self t.dag.graph (hash vx) vx))
            a,
      )

  module _ (s : Steady hash config t) where
    -- On every state of the task that is reached from its start, the vertices submitted having heights
    -- that a `u64` holds, other than 0, such a submission comes to an end, if the random indices are
    -- below the number of validators. A vertex that `check_vertex` refuses is answered by that error,
    -- and no event is emitted and no poll started. One that it passes is in the graph afterwards; the
    -- frontier of the new DAG is emitted as an event, and polls are started for exactly the vertices of
    -- that frontier, with the quorum of the configuration, or for none if the validators are too few.
    pub submit_vertex-IsReceived :
        (vx : Vertex)
        → vx.height < u64_mod
        → vx.height ≢ 0
        → (rounds : ℕ) × (t' : Task Peer) × (fx : Effects Peer) × ((k : ℕ)
            → handle hash (k + rounds) draws t (submit_vertex vx) ≡ ok (t', fx))
          × IsReceived hash draws t vx t' fx
    unfolding handle
    submit_vertex-IsReceived vx small risen =
        let g = Steady-Grown hash config s in
        received vx (try_insert hash t.dag vx)
          (try_insert-IsOutcome hash config.dag_config genesis_vertex refl (omega arith) t.dag g vx
            small risen)
          (submitted vx small risen g)

    -- On every such state, if the random indices are below the number of validators, each action whose
    -- vertex, if it submits one, has a height that a `u64` holds, other than 0, comes to an end without a
    -- panic, and further rounds change nothing, unless it records a vote on a pending query and the
    -- search for the constraints of its vertex gives an error.
    pub handle-IsHandled : (a : Action Peer) → IsFit a → IsHandled hash draws t a
    unfolding handle
    handle-IsHandled (add_validator peer) _ = ends 0 _ _ (λ k. refl)
    handle-IsHandled get_accepted_frontier _ =
        let (vs, e, _) =
          Grown-HasFrontier hash config.dag_config genesis_vertex refl (omega arith) t.dag
            (Steady-Grown hash config s) in
        ends 0 t (quiet hash (frontier_reply vs)) (λ k. rw (e) refl)
    handle-IsHandled (get_preference vhash) _ =
        let (o, e) = answer-IsAnswer t.dag vhash (
          Grown-IsAnswer hash config.dag_config genesis_vertex refl (omega arith) t.dag
            (Steady-Grown hash config s) vhash) in
        ends 0 t (quiet hash (preference_reply o)) (λ k. rw (e) refl)
    handle-IsHandled (get_vertex_action vhash) _ = ends 0 _ _ (λ k. refl)
    handle-IsHandled (record_peer_preference vhash preferred) _ =
        branch (record_query_result t.dag vhash preferred) refl
      where
        branch :
            (r : Result DagError Dag)
            → record_query_result t.dag vhash preferred ≡ r
            → IsHandled hash draws t (record_peer_preference vhash preferred)
        branch (ok d) q = ends 0 (record t { dag = d }) (quiet hash no_reply) (λ k. rw (q) refl)
        branch (err e) q = ends 0 t (quiet hash no_reply) (λ k. rw (q) refl)
        branch panic q = lost vhash preferred refl (
            record_query_result-IsLost hash config.dag_config genesis_vertex refl (omega arith)
              t.dag (Steady-Grown hash config s) vhash preferred q)
    handle-IsHandled (submit_vertex vx) (small, risen) =
        let (rounds, t', fx, again, _) = submit_vertex-IsReceived vx small risen in
        ends rounds t' fx again
