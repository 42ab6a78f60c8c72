-- ===== src/Dag/Placed.antt =====
-- A vertex of the graph stays in it.
use libtaurus.Prelude.{ℕ, ◌<◌, ◌≡◌, ap, some, List, [], arith, Result, ok, u64_mod}
use libtaurus.Map.{get, get-insert}
use libtaurus.Hash.{Hash, Hash-Key}
use libtaurus.Vertex.{Vertex}
use libtaurus.Dag.{Dag, DagError, Config, missing_parents, waiting_on_parents}
use libtaurus.Dag.Grown.{Grown, Grown-IsGood}
use libtaurus.Dag.Heights.{check_vertex-IsChecked}
use libtaurus.Dag.Pending.{on_error, retry_pending}
use libtaurus.Dag.Retried.{retry_pending-keeps}
use libtaurus.Dag.Sound.{IsSound}
use libtaurus.Dag.Total.{IsOutcome, refused, accepted, IsTried}

module _ (hash : Vertex → Hash) (h : Hash) (v : Vertex) where
  abbrev IsPlaced : Dag → Type 0
  IsPlaced dag = get dag.graph h ≡ some v

  tried-IsPlaced :
      (dag : Dag) (vx : Vertex) (r : Dag × Result DagError (List Hash))
      → IsSound hash dag
      → IsTried hash dag vx r
      → IsPlaced dag
      → IsPlaced r.0
  tried-IsPlaced dag vx r _ t f = outcome r t.outcome
    where
      same : (e : DagError) → IsPlaced (on_error hash dag vx e)
      same (missing_parents l) = f
      same (waiting_on_parents l) = f
      same e = f

      outcome : (r : Dag × Result DagError (List Hash)) → IsOutcome hash dag vx r → IsPlaced r.0
      outcome r (refused {e} c) = same e
      outcome r (accepted {dag'} c x) =
          let checked = check_vertex-IsChecked dag vx hash c in
          ground (
            arith,
            ap (λ m. get m h) x.graph,
            get-insert dag.graph (hash vx) vx h,
            f,
            checked.fresh,
          )

  -- Retries keep the vertices of the graph.
  pub retry_pending-IsPlaced :
      (config : Config) (genesis : Vertex) (root : genesis.parents ≡ [])
      (fits : genesis.height < u64_mod) {dag dag' : Dag} (rounds : ℕ) (hashes successes : List Hash)
      → Grown hash config genesis dag
      → retry_pending hash rounds dag hashes ≡ ok (dag', successes)
      → IsPlaced dag
      → IsPlaced dag'
  retry_pending-IsPlaced config genesis root fits {dag} {dag'} rounds hashes successes g e p =
      let i = Grown-IsGood hash config genesis root fits g in
      let (_, _, k) =
        retry_pending-keeps hash IsPlaced tried-IsPlaced rounds dag hashes (dag', successes) i.sound
          i.known p e in
      k
