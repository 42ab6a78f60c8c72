-- ===== src/Dag/Pending.antt =====
-- src/consensus/dag.rs: `try_insert` and `retry_pending`.
use libtaurus.Prelude.{
  ℕ, zero, suc, not, none, some, List, [], ◌∷◌, ◌++◌, filter, reverse, Result, ok, err, panic,
  ◌>>=◌, insert,
}
use libtaurus.Map
use libtaurus.Map.{get, contains_key}
use libtaurus.Hash.{Hash, Hash-Key}
use libtaurus.Vertex.{Vertex}
use libtaurus.Dag.{Dag, DagError, missing_parents, waiting_on_parents, not_found}
use libtaurus.Dag.Insert.{map_child, insert_vertex}
use libtaurus.Dag.Check.{check_vertex}

-- `get_known_children`
abbrev pub get_known_children : Dag → Hash → Result DagError (List Hash)
get_known_children dag vhash = elim (get dag.children vhash) [
  | some children ↦ ok children
  | none ↦ err not_found
]

-- The known children that are not in the graph yet.
abbrev pub waiting_children : Dag → Result DagError (List Hash) → Result DagError (List Hash)
waiting_children dag (ok children) = ok (filter (λ c. not (contains_key dag.graph c)) children)
waiting_children dag (err e) = err e
waiting_children dag panic = panic

-- The queue of `retry_pending` with its last element first, and the vertices that were inserted.
pub record Retry : Type 0 where
  pub dag : Dag
  pub queue : List Hash
  pub successes : List Hash

module _ (hash : Vertex → Hash) where
  -- A vertex that waits for parents becomes known, and known as a child.
  abbrev pub remember : Dag → Vertex → Dag
  remember dag vx = record dag {
    children = map_child dag.children (hash vx) vx.parents;
    vertex = Map.insert dag.vertex (hash vx) vx;
  }

  -- What the closure of `map_err` in `try_insert` does on an error.
  abbrev pub on_error : Dag → Vertex → DagError → Dag
  on_error dag vx (missing_parents l) = remember dag vx
  on_error dag vx (waiting_on_parents l) = remember dag vx
  on_error dag vx _ = dag

  abbrev pub after_insert : Dag → Vertex → Result DagError Dag → Dag × Result DagError (List Hash)
  after_insert dag vx (ok dag') = (dag', waiting_children dag' (get_known_children dag' (hash vx)))
  after_insert dag vx (err e) = (dag, err e)
  after_insert dag vx panic = (dag, panic)

  abbrev pub after_check :
      Dag → Vertex → Result DagError (Unit {0}) → Dag × Result DagError (List Hash)
  after_check dag vx (ok _) = after_insert dag vx (insert_vertex hash dag vx)
  after_check dag vx (err e) = (on_error dag vx e, err e)
  after_check dag vx panic = (dag, panic)

  -- `try_insert`
  unfoldable pub try_insert : Dag → Vertex → Dag × Result DagError (List Hash)
  try_insert dag vx = after_check dag vx (check_vertex hash dag vx)

  abbrev pub retried :
      Retry → Hash → List Hash → Dag × Result DagError (List Hash) → Result DagError Retry
  retried r vhash rest (dag, ok ready) =
      ok (record { dag = dag; queue = reverse ready ++ rest; successes = insert vhash r.successes })
  retried r vhash rest (dag, err e) = ok (record r { dag = dag; queue = rest })
  retried r vhash rest (dag, panic) = panic

  -- One round of the loop of `retry_pending`.
  unfoldable pub retry_one : Retry → Hash → List Hash → Result DagError Retry
  retry_one r vhash rest = elim (get r.dag.vertex vhash) [
    | some vx ↦ retried r vhash rest (try_insert r.dag vx)
    | none ↦ ok (record r { queue = rest })
  ]

  -- The loop, with the rounds that are allowed.
  unfoldable pub retry_loop : ℕ → Retry → Result DagError Retry
  retry_loop zero r = elim r.queue [ [] ↦ ok r | vhash ∷ rest ↦ panic ]
  retry_loop (suc rounds) r = elim r.queue [
    | [] ↦ ok r
    | vhash ∷ rest ↦ (do r' ← retry_one r vhash rest; retry_loop rounds r')
  ]

  -- `retry_pending`
  unfoldable pub retry_pending : ℕ → Dag → List Hash → Result DagError (Dag × List Hash)
  retry_pending rounds dag hashes = do
    r ← retry_loop rounds (record { dag = dag; queue = reverse hashes; successes = [] })
    ok (r.dag, r.successes)
