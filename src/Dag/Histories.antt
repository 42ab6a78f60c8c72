-- ===== src/Dag/Histories.antt =====
-- Histories of DAGs, on the vertices of the tests of src/consensus/dag.rs.
use libtaurus.Prelude.{
  ℕ, ◌+◌, ◌≡◌, refl, Bool, true, false, List, [], ◌∷◌, Result, Option, some, ◌>>=◌, ok, err, panic,
  arith,
}
use libtaurus.Hash.{Hash}
use libtaurus.Vertex.{Vertex}
use libtaurus.Dag.{Dag, DagError, default_config}
use libtaurus.Constraint.{unity}
use libtaurus.Dag.Ancestors.{decision_of}
use libtaurus.Dag.Answered.{IsLost}
use libtaurus.Dag.Grown.{
  Grown, rooted, submitted, polled, answered, Grown-IsSound, Grown-refines, try_insert-IsOutcome,
  retry_pending-ends, record_query_result-IsLost,
}
use libtaurus.Dag.Insert.{new}
use libtaurus.Dag.Ledger.{Ledger, Admits}
use libtaurus.Dag.Pending.{try_insert, retry_pending}
use libtaurus.Dag.Refinement.{Implements}
use libtaurus.Dag.Sound.{IsSound}
use libtaurus.Dag.Total.{IsOutcome}
use libtaurus.Dag.Vote.{record_query_result}
use libtaurus.Dag.Tests.{
  root, genesis, v0, v1, v2, x2, child, hasty, hash_of, vertex, dag_of, d0, voted_once, start_runs,
  vote_runs, program,
}

pub d0-Grown : Grown root default_config genesis d0
d0-Grown = rooted start_runs

pub voted-Grown : Grown root default_config genesis voted_once
voted-Grown = polled (hash_of 1) true (submitted v0 (omega arith) (ground arith) d0-Grown) vote_runs

Grown-IsSound_example : IsSound root voted_once
Grown-IsSound_example = Grown-IsSound root default_config genesis refl (omega arith) voted-Grown

Grown-refines_example :
    (l : Ledger) × (l.answered ≡ answered voted-Grown)
    × Admits root genesis l
    × Implements root genesis voted_once l
Grown-refines_example = Grown-refines root default_config genesis refl (omega arith) voted-Grown

try_insert-IsOutcome_example : IsOutcome root voted_once v1 (try_insert root voted_once v1)
try_insert-IsOutcome_example =
    try_insert-IsOutcome root default_config genesis refl (omega arith) voted_once voted-Grown v1
      (omega arith) (ground arith)

-- A vertex that waits for its parent.
abbrev early : Dag
early = (try_insert root d0 (vertex 6 2 (1 ∷ []))).0

early-Grown : Grown root default_config genesis early
early-Grown = submitted (vertex 6 2 (1 ∷ [])) (omega arith) (ground arith) d0-Grown

retry_pending-ends_example :
    (rounds : ℕ) × (out : Dag × List Hash) × ((k : ℕ)
      → retry_pending root (k + rounds) early (hash_of 6 ∷ []) ≡ ok out)
retry_pending-ends_example =
    retry_pending-ends root default_config genesis refl (omega arith) early early-Grown
      (hash_of 6 ∷ [])

abbrev pub hasty_start : Dag
hasty_start = dag_of (new root hasty (genesis ∷ []))

pub hasty_runs : new root hasty (genesis ∷ []) ≡ ok hasty_start
unfolding program
hasty_runs = refl

abbrev pub add : Dag → Vertex → Dag
add dag vx = (try_insert root dag vx).0

abbrev pub contested : Dag
contested = add (add (add (add (add hasty_start v0) v1) v2) x2) child

pub contested-Grown : Grown root hasty genesis contested
contested-Grown = submitted child (omega arith) (ground arith) (
    submitted x2 (omega arith) (ground arith) (
      submitted v2 (omega arith) (ground arith) (
        submitted v1 (omega arith) (ground arith)
          (submitted v0 (omega arith) (ground arith) (rooted hasty_runs)))))

abbrev pub lost : Dag
lost = dag_of (record_query_result contested (hash_of 3) true)

abbrev returned : Result DagError Dag → Bool
returned (ok dag) = true
returned r = false

pub dag_of-returned : (r : Result DagError Dag) → returned r ≡ true → r ≡ ok (dag_of r)
dag_of-returned (ok dag) e = refl
dag_of-returned (err x) e = cc
dag_of-returned panic e = cc

contested_returns : returned (record_query_result contested (hash_of 3) true) ≡ true
unfolding program
contested_returns = refl

pub contested_runs : record_query_result contested (hash_of 3) true ≡ ok lost
contested_runs = dag_of-returned (record_query_result contested (hash_of 3) true) contested_returns

-- A constraint that was rejected is accepted by a later vote on its own vertex.
accepted_of : Result DagError Dag → ℕ → Result DagError (Option Bool)
accepted_of r n = do dag ← r; decision_of dag.state (unity (hash_of n))

before_vote : accepted_of (record_query_result contested (hash_of 3) true) 4 ≡ ok (some false)
unfolding program accepted_of
before_vote = refl

second_vote :
    (do
      dag ← record_query_result contested (hash_of 3) true
      accepted_of (record_query_result dag (hash_of 4) true) 4)
    ≡ ok (some true)
unfolding program accepted_of
second_vote = refl

lost_runs : record_query_result lost (hash_of 5) true ≡ panic
unfolding program
lost_runs = refl

record_query_result-IsLost_example : IsLost lost (hash_of 5) true
record_query_result-IsLost_example =
    record_query_result-IsLost root hasty genesis refl (omega arith) lost
      (polled (hash_of 3) true contested-Grown contested_runs) (hash_of 5) true lost_runs
