-- ===== src/Dag/Refusals.antt =====
-- What a failed insertion leaves behind.
use libtaurus.Prelude.{◌≡◌, refl, err}
use libtaurus.Hash.{Hash}
use libtaurus.Vertex.{Vertex}
use libtaurus.Dag.{Dag, DagError, missing_parents, waiting_on_parents}
use libtaurus.Dag.Check.{check_vertex}
use libtaurus.Dag.Pending.{on_error, try_insert}

-- The part of a DAG that decides what is in the graph and what is preferred.
pub record SameDecisions (d e : Dag) : Type 0 where
  pub config : e.config ≡ d.config
  pub graph : e.graph ≡ d.graph
  pub pending_query : e.pending_query ≡ d.pending_query
  pub state : e.state ≡ d.state
  pub frontier : e.frontier ≡ d.frontier

SameDecisions-refl : (d : Dag) → SameDecisions d d
SameDecisions-refl d = record {
  config = refl;
  graph = refl;
  pending_query = refl;
  state = refl;
  frontier = refl;
}

module _ (hash : Vertex → Hash) (dag : Dag) (vx : Vertex) where
  on_error-SameDecisions : (e : DagError) → SameDecisions dag (on_error hash dag vx e)
  on_error-SameDecisions (missing_parents l) = record {
    config = refl;
    graph = refl;
    pending_query = refl;
    state = refl;
    frontier = refl;
  }
  on_error-SameDecisions (waiting_on_parents l) = record {
    config = refl;
    graph = refl;
    pending_query = refl;
    state = refl;
    frontier = refl;
  }
  on_error-SameDecisions e = SameDecisions-refl dag

  -- An insertion that `check_vertex` refuses returns that error. It changes neither the graph nor the
  -- constraints, the frontier and the pending queries.
  pub try_insert-refused :
      (e : DagError)
      → check_vertex hash dag vx ≡ err e
      → ((try_insert hash dag vx).1 ≡ err e) × SameDecisions dag (try_insert hash dag vx).0
  unfolding try_insert
  try_insert-refused e h = rw (h) (refl, on_error-SameDecisions e)
