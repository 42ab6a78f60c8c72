-- ===== src/Consensus/Runs.antt =====
-- The DAG of the consensus task, over any sequence of actions.
use mathlib.Core.Path.{subst}
use libtaurus.Prelude.{
  ℕ, zero, suc, ◌≡◌, refl, ap, Bool, List, [], ◌∷◌, inl, inr, Option-cases, Key, reverse, Result,
  ok, err, panic, ◌>>=◌, >>=-eq-ok, ok-injective, map_err,
}
use libtaurus.Map.{get}
use libtaurus.Hash.{Hash, Hash-Key}
use libtaurus.Vertex.{Vertex}
use libtaurus.Dag.{Dag, DagError}
use libtaurus.Dag as dag
use libtaurus.Dag.Pending.{Retry, try_insert, retried, retry_one, retry_loop, retry_pending}
use libtaurus.Dag.Vote.{record_query_result}
use libtaurus.Dag.Query.{query, get_frontier}
use libtaurus.Dag.Runs.{Reach, inserted, voted}
use libtaurus.Consensus.Task as task
use libtaurus.Consensus.Task.{
  Task, TaskError, Config, Action, add_validator, get_accepted_frontier, get_preference,
  get_vertex_action, record_peer_preference, submit_vertex, Effects, check, of_dag, genesis_vertex,
  new_task, retried_dag, voted_dag, answer, submitted, handle, start_pollsters,
}

module _ (hash : Vertex → Hash) (config : dag.Config) (genesis : Vertex) where
  abbrev IsReached : Dag → Type 0
  IsReached d = Reach hash config genesis d

  retried-Reach :
      (r : Retry) (vhash : Hash) (rest : List Hash) (p : Dag × Result DagError (List Hash))
      (r' : Retry)
      → IsReached p.0
      → retried hash r vhash rest p ≡ ok r'
      → IsReached r'.dag
  retried-Reach r vhash rest (d, ok ready) r' reach h =
      subst (λ (x : Retry). IsReached x.dag) (ok-injective h) reach
  retried-Reach r vhash rest (d, err e) r' reach h =
      subst (λ (x : Retry). IsReached x.dag) (ok-injective h) reach
  retried-Reach r vhash rest (d, panic) r' reach h = cc

  retry_one-Reach :
      (r : Retry) (vhash : Hash) (rest : List Hash) (r' : Retry)
      → IsReached r.dag
      → retry_one hash r vhash rest ≡ ok r'
      → IsReached r'.dag
  unfolding retry_one
  retry_one-Reach r vhash rest r' reach h = elim (Option-cases (get r.dag.vertex vhash)) [
    | inl e ↦ subst (λ (x : Retry). IsReached x.dag) (ok-injective (rw (e, retry_one) at h)) reach
    | inr (vx, e) ↦
        retried-Reach r vhash rest (try_insert hash r.dag vx) r' (inserted vx reach)
          (rw (e, retry_one) at h)
  ]

  retry_loop-Reach :
      (rounds : ℕ) (r r' : Retry)
      → IsReached r.dag
      → retry_loop hash rounds r ≡ ok r'
      → IsReached r'.dag
  unfolding retry_loop
  retry_loop-Reach zero r r' reach h = done r.queue h
    where
      done :
          (q : List Hash)
          → ◌≡◌ {A = Result DagError Retry} (elim q [ [] ↦ ok r | vhash ∷ rest ↦ panic ]) (ok r')
          → IsReached r'.dag
      done [] e = subst (λ (x : Retry). IsReached x.dag) (ok-injective e) reach
      done (vhash ∷ rest) e = cc
  retry_loop-Reach (suc rounds) r r' reach h =
      step r.queue (λ s k e. retry_loop-Reach rounds s r' k e) h
    where
      step :
          (q : List Hash)
          → ((s : Retry) → IsReached s.dag → retry_loop hash rounds s ≡ ok r' → IsReached r'.dag)
          → ◌≡◌ {A = Result DagError Retry}
              (elim q [
                | [] ↦ ok r
                | vhash ∷ rest ↦ retry_one hash r vhash rest >>= retry_loop hash rounds
              ])
              (ok r')
          → IsReached r'.dag
      step [] again e = subst (λ (x : Retry). IsReached x.dag) (ok-injective e) reach
      step (vhash ∷ rest) again e =
          let (s, k, e₁) = >>=-eq-ok (retry_one hash r vhash rest) (retry_loop hash rounds) e in
          again s (retry_one-Reach r vhash rest s reach k) e₁

  retry_pending-Reach :
      (rounds : ℕ) (d : Dag) (hashes : List Hash) (d' : Dag) (successes : List Hash)
      → IsReached d
      → retry_pending hash rounds d hashes ≡ ok (d', successes)
      → IsReached d'
  unfolding retry_pending
  retry_pending-Reach rounds d hashes d' successes reach h =
      let start : Retry = record { dag = d; queue = reverse hashes; successes = [] } in
      let (r, e, h₁) = >>=-eq-ok (retry_loop hash rounds start) _ h in
      subst IsReached (ap (λ (x : Dag × List Hash). x.0) (ok-injective h₁))
        (retry_loop-Reach rounds start r reach e)

  retried_dag-Reach :
      (d : Dag) (rounds : ℕ) (ready : List Hash) (d' : Dag)
      → IsReached d
      → retried_dag d (retry_pending hash rounds d ready) ≡ ok d'
      → IsReached d'
  retried_dag-Reach d rounds ready d' reach h = keep (retry_pending hash rounds d ready) refl h
    where
      keep :
          (q : Result DagError (Dag × List Hash))
          → retry_pending hash rounds d ready ≡ q
          → retried_dag d q ≡ ok d'
          → IsReached d'
      keep (ok (d″, successes)) k e =
          subst IsReached (ok-injective e) (retry_pending-Reach rounds d ready d″ successes reach k)
      keep (err x) k e = subst IsReached (ok-injective e) reach
      keep panic k e = cc

  voted_dag-Reach :
      (d : Dag) (vhash : Hash) (preferred : Bool) (d' : Dag)
      → IsReached d
      → voted_dag d (record_query_result d vhash preferred) ≡ ok d'
      → IsReached d'
  voted_dag-Reach d vhash preferred d' reach h = keep (record_query_result d vhash preferred) refl h
    where
      keep :
          (q : Result DagError Dag)
          → record_query_result d vhash preferred ≡ q
          → voted_dag d q ≡ ok d'
          → IsReached d'
      keep (ok d″) k e = subst IsReached (ok-injective e) (voted vhash preferred reach k)
      keep (err x) k e = subst IsReached (ok-injective e) reach
      keep panic k e = cc

  module _ {Peer : Type 0} ⦃key : Key Peer⦄ (rounds : ℕ) (draws : Vertex → List ℕ) where
    inserted-Reach :
        (t : Task Peer) (d : Dag) (ready : List Hash) (t' : Task Peer) (fx : Effects Peer)
        → IsReached d
        → task.inserted hash rounds draws t d ready ≡ ok (t', fx)
        → IsReached t'.dag
    unfolding task.inserted
    inserted-Reach t d ready t' fx reach h =
        let (d', e₁, h₁) = >>=-eq-ok (retried_dag d (retry_pending hash rounds d ready)) _ h in
        let (frontier, _, h₂) = >>=-eq-ok (map_err of_dag (get_frontier d')) _ h₁ in
        let (ps, _, h₃) =
          >>=-eq-ok (start_pollsters hash (record t { dag = d' }) draws frontier) _ h₂ in
        subst (λ (x : Task Peer × Effects Peer). IsReached x.0.dag) (ok-injective h₃)
          (retried_dag-Reach d rounds ready d' reach e₁)

    submitted-Reach :
        (t : Task Peer) (p : Dag × Result DagError (List Hash)) (t' : Task Peer) (fx : Effects Peer)
        → IsReached p.0
        → submitted hash rounds draws t p ≡ ok (t', fx)
        → IsReached t'.dag
    submitted-Reach t (d, ok ready) t' fx reach h = inserted-Reach t d ready t' fx reach h
    submitted-Reach t (d, err e) t' fx reach h =
        subst (λ (x : Task Peer × Effects Peer). IsReached x.0.dag) (ok-injective h) reach
    submitted-Reach t (d, panic) t' fx reach h = cc

    -- Whatever action the task handles, its DAG stays one that the operations of the DAG reach from the
    -- genesis vertex.
    pub handle-Reach :
        (t : Task Peer) (a : Action Peer) (t' : Task Peer) (fx : Effects Peer)
        → Reach hash config genesis t.dag
        → handle hash rounds draws t a ≡ ok (t', fx)
        → Reach hash config genesis t'.dag
    unfolding handle
    handle-Reach t (add_validator peer) t' fx reach h =
        subst (λ (x : Task Peer × Effects Peer). IsReached x.0.dag) (ok-injective h) reach
    handle-Reach t get_accepted_frontier t' fx reach h =
        let (_, _, h₁) = >>=-eq-ok (map_err of_dag (get_frontier t.dag)) _ h in
        subst (λ (x : Task Peer × Effects Peer). IsReached x.0.dag) (ok-injective h₁) reach
    handle-Reach t (get_preference vhash) t' fx reach h =
        let (_, _, h₁) = >>=-eq-ok (answer (query t.dag vhash)) _ h in
        subst (λ (x : Task Peer × Effects Peer). IsReached x.0.dag) (ok-injective h₁) reach
    handle-Reach t (get_vertex_action vhash) t' fx reach h =
        subst (λ (x : Task Peer × Effects Peer). IsReached x.0.dag) (ok-injective h) reach
    handle-Reach t (record_peer_preference vhash preferred) t' fx reach h =
        let (d', e, h₁) =
          >>=-eq-ok (voted_dag t.dag (record_query_result t.dag vhash preferred)) _ h in
        subst (λ (x : Task Peer × Effects Peer). IsReached x.0.dag) (ok-injective h₁)
          (voted_dag-Reach t.dag vhash preferred d' reach e)
    handle-Reach t (submit_vertex vx) t' fx reach h =
        submitted-Reach t (try_insert hash t.dag vx) t' fx (inserted vx reach) h
