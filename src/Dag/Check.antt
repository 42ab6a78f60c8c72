-- ===== src/Dag/Check.antt =====
-- src/consensus/dag.rs: `check_vertex`.
use libtaurus.Prelude.{
  ℕ, Bool, false, not, ◌&&◌, none, some, List, if◌then◌else◌, ◌==◌, ℕ-Key, any, contains, filter,
  is_empty, maximum, add64, Result, ok, err, ◌>>=◌, unwrap, try_map, map_err,
}
use libtaurus.Map.{contains_key}
use libtaurus.Hash.{Hash, Hash-Key}
use libtaurus.Constraint.{Constraint, Constraint-Key, conflict}
use libtaurus.Vertex.{Vertex, sanity_checks}
use libtaurus.Dag.{
  Dag, DagError, already_inserted, bad_height, conflicting_ancestors, missing_parents, of_vertex,
  waiting_on_parents,
}
use libtaurus.Dag.Ancestors.{vertex_at, get_active_ancestor_constraints}

abbrev pub missing : Dag → Vertex → List Hash
missing dag vx = filter (λ p. not (contains_key dag.vertex p)) vx.parents

abbrev pub waiting : Dag → Vertex → List Hash
waiting dag vx =
    filter (λ p. contains_key dag.vertex p && not (contains_key dag.graph p)) vx.parents

abbrev pub has_conflict_in : List Constraint → Constraint → Bool
has_conflict_in constraints c = elim (conflict c) [
  | some opposite ↦ contains constraints opposite
  | none ↦ false
]

abbrev pub height_at : Dag → Hash → Result DagError ℕ
height_at dag p = do vx ← vertex_at dag p; ok vx.height

-- `1 + vx.parents.iter().map(|p| self.vertex[p].height).max().unwrap()`
unfoldable pub expected_height : Dag → Vertex → Result DagError ℕ
expected_height dag vx = do
  heights ← try_map (height_at dag) vx.parents
  highest ← unwrap (maximum heights)
  ok (add64 1 highest)

-- The search for conflicts in the ancestry, at the end of `check_vertex`.
unfoldable pub check_conflicts : Dag → Vertex → Result DagError (Unit {0})
check_conflicts dag vx = do
  constraints ← get_active_ancestor_constraints dag vx
  if any (has_conflict_in constraints) constraints then err conflicting_ancestors else ok tt

module _ (hash : Vertex → Hash) where
  -- `check_vertex`
  unfoldable pub check_vertex : Dag → Vertex → Result DagError (Unit {0})
  check_vertex dag vx = do
    _ ← map_err of_vertex (sanity_checks vx)
    if contains_key dag.graph (hash vx)
        then err already_inserted
        else if not (is_empty (missing dag vx))
        then err (missing_parents (missing dag vx))
        else if not (is_empty (waiting dag vx))
        then err (waiting_on_parents (waiting dag vx))
        else (do
          expected ← expected_height dag vx
          if not (expected == vx.height)
              then err (bad_height expected vx.height)
              else check_conflicts dag vx)
