-- ===== src/Consensus/Steady.antt =====
-- The consensus task keeps its DAG sound, over any actions whose vertices have a height that a `u64`
-- holds, other than 0.
use mathlib.Core.Path.{subst}
use libtaurus.Prelude.{
  ℕ, ◌<◌, ◌≡◌, ◌≢◌, refl, Bool, List, [], ◌∷◌, Key, Result, ok, err, panic, >>=-eq-ok, ok-injective,
  map_err, map_err-eq-ok, u64_mod,
}
use libtaurus.Hash.{Hash}
use libtaurus.Vertex.{Vertex}
use libtaurus.Dag.{Dag, DagError}
use libtaurus.Dag.Grown.{Grown, rooted, submitted, retried, polled}
use libtaurus.Dag.Insert.{new}
use libtaurus.Dag.Pending.{try_insert, retry_pending}
use libtaurus.Dag.Vote.{record_query_result}
use libtaurus.Dag.Query.{query, get_frontier}
use libtaurus.Consensus.Task as task
use libtaurus.Consensus.Task.{
  Task, TaskError, Config, Action, add_validator, get_accepted_frontier, get_preference,
  get_vertex_action, record_peer_preference, submit_vertex, Effects, check, of_dag, genesis_vertex,
  new_task, retried_dag, voted_dag, answer, handle, start_pollsters,
}

-- A vertex that is submitted has a height that a `u64` holds, other than 0.
abbrev pub IsFit : {Peer : Type 0} → Action Peer → Type 0
IsFit (submit_vertex vx) = (vx.height < u64_mod) × (vx.height ≢ 0)
IsFit _ = Unit {0}

-- The task from its start on, over such actions.
pub data Steady {Peer : Type 0} ⦃key : Key Peer⦄ (hash : Vertex → Hash) (config : Config)
    : Task Peer → Type 0 where
  begun : {t : Task Peer} → new_task hash config ≡ ok t → Steady hash config t
  acted :
      {t t' : Task Peer} {fx : Effects Peer} (rounds : ℕ) (draws : Vertex → List ℕ)
      (a : Action Peer)
      → IsFit a
      → Steady hash config t
      → handle hash rounds draws t a ≡ ok (t', fx)
      → Steady hash config t'

module _ (hash : Vertex → Hash) (config : Config) where
  abbrev IsGrown : Dag → Type 0
  IsGrown d = Grown hash config.dag_config genesis_vertex d

  retried_dag-Grown :
      (d : Dag) (rounds : ℕ) (ready : List Hash) (d' : Dag)
      → IsGrown d
      → retried_dag d (retry_pending hash rounds d ready) ≡ ok d'
      → IsGrown d'
  retried_dag-Grown d rounds ready d' g h = keep (retry_pending hash rounds d ready) refl h
    where
      keep :
          (q : Result DagError (Dag × List Hash))
          → retry_pending hash rounds d ready ≡ q
          → retried_dag d q ≡ ok d'
          → IsGrown d'
      keep (ok (d″, successes)) k e =
          subst IsGrown (ok-injective e) (retried rounds ready successes g k)
      keep (err x) k e = subst IsGrown (ok-injective e) g
      keep panic k e = cc

  voted_dag-Grown :
      (d : Dag) (vhash : Hash) (preferred : Bool) (d' : Dag)
      → IsGrown d
      → voted_dag d (record_query_result d vhash preferred) ≡ ok d'
      → IsGrown d'
  voted_dag-Grown d vhash preferred d' g h = keep (record_query_result d vhash preferred) refl h
    where
      keep :
          (q : Result DagError Dag)
          → record_query_result d vhash preferred ≡ q
          → voted_dag d q ≡ ok d'
          → IsGrown d'
      keep (ok d″) k e = subst IsGrown (ok-injective e) (polled vhash preferred g k)
      keep (err x) k e = subst IsGrown (ok-injective e) g
      keep panic k e = cc

  module _ {Peer : Type 0} ⦃key : Key Peer⦄ (rounds : ℕ) (draws : Vertex → List ℕ) where
    inserted-Grown :
        (t : Task Peer) (d : Dag) (ready : List Hash) (t' : Task Peer) (fx : Effects Peer)
        → IsGrown d
        → task.inserted hash rounds draws t d ready ≡ ok (t', fx)
        → IsGrown t'.dag
    unfolding task.inserted
    inserted-Grown t d ready t' fx g h =
        let (d', e₁, h₁) = >>=-eq-ok (retried_dag d (retry_pending hash rounds d ready)) _ h in
        let (frontier, _, h₂) = >>=-eq-ok (map_err of_dag (get_frontier d')) _ h₁ in
        let (ps, _, h₃) =
          >>=-eq-ok (start_pollsters hash (record t { dag = d' }) draws frontier) _ h₂ in
        subst (λ (x : Task Peer × Effects Peer). IsGrown x.0.dag) (ok-injective h₃)
          (retried_dag-Grown d rounds ready d' g e₁)

    submitted-Grown :
        (t : Task Peer) (p : Dag × Result DagError (List Hash)) (t' : Task Peer) (fx : Effects Peer)
        → IsGrown p.0
        → task.submitted hash rounds draws t p ≡ ok (t', fx)
        → IsGrown t'.dag
    submitted-Grown t (d, ok ready) t' fx g h = inserted-Grown t d ready t' fx g h
    submitted-Grown t (d, err e) t' fx g h =
        subst (λ (x : Task Peer × Effects Peer). IsGrown x.0.dag) (ok-injective h) g
    submitted-Grown t (d, panic) t' fx g h = cc

    handle-Grown :
        (t : Task Peer) (a : Action Peer) (t' : Task Peer) (fx : Effects Peer)
        → IsFit a
        → IsGrown t.dag
        → handle hash rounds draws t a ≡ ok (t', fx)
        → IsGrown t'.dag
    unfolding handle
    handle-Grown t (add_validator peer) t' fx _ g h =
        subst (λ (x : Task Peer × Effects Peer). IsGrown x.0.dag) (ok-injective h) g
    handle-Grown t get_accepted_frontier t' fx _ g h =
        let (_, _, h₁) = >>=-eq-ok (map_err of_dag (get_frontier t.dag)) _ h in
        subst (λ (x : Task Peer × Effects Peer). IsGrown x.0.dag) (ok-injective h₁) g
    handle-Grown t (get_preference vhash) t' fx _ g h =
        let (_, _, h₁) = >>=-eq-ok (answer (query t.dag vhash)) _ h in
        subst (λ (x : Task Peer × Effects Peer). IsGrown x.0.dag) (ok-injective h₁) g
    handle-Grown t (get_vertex_action vhash) t' fx _ g h =
        subst (λ (x : Task Peer × Effects Peer). IsGrown x.0.dag) (ok-injective h) g
    handle-Grown t (record_peer_preference vhash preferred) t' fx _ g h =
        let (d', e, h₁) =
          >>=-eq-ok (voted_dag t.dag (record_query_result t.dag vhash preferred)) _ h in
        subst (λ (x : Task Peer × Effects Peer). IsGrown x.0.dag) (ok-injective h₁)
          (voted_dag-Grown t.dag vhash preferred d' g e)
    handle-Grown t (submit_vertex vx) t' fx (small, risen) g h =
        submitted-Grown t (try_insert hash t.dag vx) t' fx (submitted vx small risen g) h

  pub Steady-Grown :
      {Peer : Type 0} ⦃key : Key Peer⦄ {t : Task Peer}
      → Steady hash config t
      → Grown hash config.dag_config genesis_vertex t.dag
  unfolding new_task
  Steady-Grown {Peer} (begun {t} h) =
      let (_, _, h₁) = >>=-eq-ok (check config) _ h in
      let (d, e, h₂) =
        >>=-eq-ok (map_err of_dag (new hash config.dag_config (genesis_vertex ∷ []))) _ h₁ in
      subst (λ (x : Task Peer). IsGrown x.dag) (ok-injective h₂)
        (rooted (map_err-eq-ok of_dag (new hash config.dag_config (genesis_vertex ∷ [])) e))
  Steady-Grown {Peer} (acted {t} {t'} {fx} rounds draws a fit s h) =
      handle-Grown rounds draws t a t' fx fit (Steady-Grown s) h
