-- ===== src/Dag/Replies.antt =====
-- What DAGs answer, on the vertices of the tests of src/consensus/dag.rs.
use libtaurus.Prelude.{◌≡◌, refl, Bool, true, List, [], ◌∷◌, ok, arith}
use libtaurus.Vertex.{Vertex}
use libtaurus.Dag.{Dag, default_config}
use libtaurus.Dag.Answers.{here, then_polled, Grown-IsAnswer, Grown-HasFrontier, Later-stays_final}
use libtaurus.Dag.Asking.{IsAnswer}
use libtaurus.Dag.Frontier.{HasFrontier}
use libtaurus.Dag.Grown.{Grown, submitted}
use libtaurus.Dag.Histories.{
  d0-Grown, voted-Grown, contested, lost, add, contested-Grown, contested_runs,
}
use libtaurus.Dag.Query.{query, get_frontier}
use libtaurus.Dag.Tests.{root, genesis, hasty, hash_of, voted_once, d0, v0, v1, vertex, program}

Grown-IsAnswer_example : IsAnswer contested (hash_of 3) (query contested (hash_of 3))
Grown-IsAnswer_example =
    Grown-IsAnswer root hasty genesis refl (omega arith) contested contested-Grown (hash_of 3)

Grown-HasFrontier_example :
    (vs : List Vertex) × (get_frontier voted_once ≡ ok vs) × HasFrontier root voted_once vs
Grown-HasFrontier_example =
    Grown-HasFrontier root default_config genesis refl (omega arith) voted_once voted-Grown

genesis_final : query contested (hash_of 0) ≡ ok (true, true)
unfolding program
genesis_final = refl

Later-stays_final_example : (b : Bool) × (query lost (hash_of 0) ≡ ok (b, true))
Later-stays_final_example =
    Later-stays_final root hasty genesis refl (omega arith) contested contested-Grown (hash_of 0)
      true (then_polled (hash_of 3) true here contested_runs) genesis_final

-- Two vertices, each on a preferred and a contested one, leave nothing in the frontier to build on.
abbrev pub crossed : Dag
crossed =
    add
      (add
        (add
          (add
            (add (add (add (add (add d0 v0) v1) (vertex 3 1 (0 ∷ []))) (vertex 4 2 (1 ∷ 2 ∷ [])))
              (vertex 5 2 (2 ∷ 1 ∷ [])))
            (vertex 6 2 (2 ∷ 3 ∷ [])))
          (vertex 7 2 (3 ∷ 2 ∷ [])))
        (vertex 8 3 (6 ∷ 5 ∷ [])))
      (vertex 9 3 (4 ∷ 7 ∷ []))

pub crossed_frontier : get_frontier crossed ≡ ok []
unfolding program
crossed_frontier = refl

pub crossed-Grown : Grown root default_config genesis crossed
crossed-Grown = submitted (vertex 9 3 (4 ∷ 7 ∷ [])) (omega arith) (ground arith) (
    submitted (vertex 8 3 (6 ∷ 5 ∷ [])) (omega arith) (ground arith) (
      submitted (vertex 7 2 (3 ∷ 2 ∷ [])) (omega arith) (ground arith) (
        submitted (vertex 6 2 (2 ∷ 3 ∷ [])) (omega arith) (ground arith) (
          submitted (vertex 5 2 (2 ∷ 1 ∷ [])) (omega arith) (ground arith) (
            submitted (vertex 4 2 (1 ∷ 2 ∷ [])) (omega arith) (ground arith) (
              submitted (vertex 3 1 (0 ∷ [])) (omega arith) (ground arith) (
                submitted v1 (omega arith) (ground arith)
                  (submitted v0 (omega arith) (ground arith) d0-Grown))))))))
