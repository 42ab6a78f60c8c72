-- ===== src/Dag/Tests.antt =====
-- Runs of src/consensus/dag.rs, on vertices whose hash is their root.
use libtaurus.Prelude.{
  ℕ, ◌≡◌, refl, Bool, true, false, List, [], ◌∷◌, Result, ok, err, panic, ◌>>=◌, ℕ_discrete, arith,
  map, try_fold, try_map, insert_all, filter, maximum, minimum, flat_map, sorted_by,
}
use libtaurus.Map.{get, values}
use libtaurus.Map
use libtaurus.Hash
use libtaurus.Hash.{Hash, Hash-Key, Hash-discrete}
use libtaurus.Constraint.{Constraint-discrete, ConflictSetKey-discrete, conflict}
use libtaurus.Vertex.{Vertex}
use libtaurus.Dag.{Dag, Config, default_config, DagError, conflicting_ancestors, missing_parents}
use libtaurus.Dag.Ancestors.{
  decided_height, gather_ancestors, get_active_ancestors, get_active_ancestor_constraints,
}
use libtaurus.Dag.Insert.{
  map_child, add_child, register, remove_all, insert_vertex, accept_initial, insert_initial, new,
}
use libtaurus.Dag.Check.{expected_height, check_conflicts, check_vertex}
use libtaurus.Dag.Pending.{try_insert, retry_one, retry_loop, retry_pending}
use libtaurus.Dag.Vote.{
  progeny_with_chits, reject_progeny, count_vote, all_accepted, can_accept, accept, vote_for,
  vote_against, award_chit, record_pending, record_query_result,
}
use libtaurus.Dag.Query.{
  all_preferred, is_preferred, ancestor_status, query, preferred_of, get_frontier,
}
use libtaurus.Dag.{check, new_conflict_set}
use libtaurus.Vertex.{sanity_checks, parent_constraints}
use libtaurus.Constraint.{conflict_set_key}
use libtaurus.Map.{contains_key}
use libtaurus.Dag.{already_recorded}
use libtaurus.Dag as dag
use libtaurus.Vertex.{with_parents}
use libtaurus.Dag.Shape.{IsGrounded, try_insert-IsGrounded}
use libtaurus.Dag.Origin.{new-IsGrounded}
use libtaurus.Dag.Ballot.{record_query_result-once}
use libtaurus.Dag.Heights.{IsChecked, check_vertex-IsChecked}
use libtaurus.Dag.Orphan.{record_query_result-rejected_parent}
use libtaurus.Dag.Built.{with_parents-expected}

abbrev pub hash_of : ℕ → Hash
hash_of n = record { bytes = n ∷ [] }

abbrev pub vertex : ℕ → ℕ → List ℕ → Vertex
vertex id height parents = record {
  version = 1;
  height = height;
  parents = map hash_of parents;
  namespace_id = Hash.default;
  root = hash_of id;
  timestamp = id;
}

abbrev pub root : Vertex → Hash
root vx = vx.root

unfoldable pub program : Unit {0}
unfolding try_fold try_map insert_all filter maximum minimum flat_map sorted_by with_parents Map.get
    Map.insert Map.remove Map.try_insert Hash.hash_lt conflict conflict_set_key ℕ_discrete
    Hash-discrete Constraint-discrete ConflictSetKey-discrete check new_conflict_set sanity_checks
    parent_constraints decided_height gather_ancestors get_active_ancestors
    get_active_ancestor_constraints map_child add_child register remove_all insert_vertex
    accept_initial insert_initial new expected_height check_conflicts check_vertex try_insert
    retry_one retry_loop retry_pending progeny_with_chits reject_progeny count_vote all_accepted
    can_accept accept vote_for vote_against award_chit record_pending record_query_result
    all_preferred is_preferred ancestor_status query preferred_of get_frontier
program = tt

abbrev inserted : Result DagError Dag → Vertex → Result DagError Dag
inserted (ok dag) vx = ok (try_insert root dag vx).0
inserted r vx = r

abbrev pub genesis : Vertex
genesis = vertex 0 0 []

abbrev pub v0 : Vertex
v0 = vertex 1 1 (0 ∷ [])

abbrev pub v1 : Vertex
v1 = vertex 2 1 (0 ∷ [])

abbrev pub v2 : Vertex
v2 = vertex 3 2 (1 ∷ 2 ∷ [])

abbrev pub x2 : Vertex
x2 = vertex 4 2 (2 ∷ 1 ∷ [])

abbrev start : Result DagError Dag
start = new root default_config (genesis ∷ [])

abbrev frontier_of : Result DagError Dag → Result DagError (List Vertex)
frontier_of r = do dag ← r; get_frontier dag

abbrev four : Result DagError Dag
four = inserted (inserted (inserted (inserted start v0) v1) v2) x2

test_query_genesis : (do dag ← start; query dag (hash_of 0)) ≡ ok (true, true)
unfolding program
test_query_genesis = refl

test_get_frontier_two : frontier_of (inserted (inserted start v0) v1) ≡ ok (v0 ∷ v1 ∷ [])
unfolding program
test_get_frontier_two = refl

test_get_frontier_preferred : frontier_of four ≡ ok (v2 ∷ [])
unfolding program
test_get_frontier_preferred = refl

test_is_preferred_second : (do dag ← four; is_preferred dag (hash_of 4)) ≡ ok false
unfolding program
test_is_preferred_second = refl

test_try_insert_conflicting :
    (do dag ← four; ok (try_insert root dag (vertex 5 3 (3 ∷ 4 ∷ []))).1)
    ≡ ok (err conflicting_ancestors)
unfolding program
test_try_insert_conflicting = refl

abbrev pub dag_of : Result DagError Dag → Dag
dag_of (ok dag) = dag
dag_of (err e) = dag.empty default_config
dag_of panic = dag.empty default_config

abbrev pub d0 : Dag
d0 = dag_of start

abbrev pub d1 : Dag
d1 = (try_insert root d0 v0).0

-- After a vote for the second vertex.
abbrev pub voted_once : Dag
voted_once = dag_of (record_query_result d1 (hash_of 1) true)

-- A vertex on an unknown parent.
abbrev pub orphan : Vertex
orphan = vertex 9 3 (8 ∷ [])

pub start_runs : start ≡ ok d0
unfolding program
start_runs = refl

pub vote_runs : record_query_result d1 (hash_of 1) true ≡ ok voted_once
unfolding program
vote_runs = refl

pub orphan_refused : check_vertex root d0 orphan ≡ err (missing_parents (hash_of 8 ∷ []))
unfolding program
orphan_refused = refl

d1-IsGrounded : IsGrounded root d1
unfolding program
d1-IsGrounded =
    try_insert-IsGrounded root d0 v0
      (new-IsGrounded root default_config genesis refl (omega arith) d0 start_runs) (omega arith)
      (ground arith)

record_query_result-once_example :
    record_query_result voted_once (hash_of 1) false ≡ err already_recorded
unfolding program
record_query_result-once_example =
    record_query_result-once d1 (hash_of 1) true false voted_once refl refl

check_vertex-IsChecked_example : IsChecked d0 v0 root
unfolding program
check_vertex-IsChecked_example = check_vertex-IsChecked d0 v0 root refl

with_parents-expected_example : (expected_height d0 v0 ≡ ok 1) × (sanity_checks v0 ≡ ok tt)
unfolding program
with_parents-expected_example =
    with_parents-expected root d0 (vertex 1 0 []) (genesis ∷ []) v0 refl (refl, tt) refl

-- One vote is enough to accept.
abbrev pub hasty : Config
hasty = record { genesis = Hash.default; thresh_accepted = 1; thresh_safe_early_commit = 1 }

-- A child of the vertex whose order of parents loses.
abbrev pub child : Vertex
child = vertex 5 3 (4 ∷ [])

abbrev pub after_vote : Result DagError Dag → ℕ → Bool → Result DagError Dag
after_vote r n preferred = do dag ← r; record_query_result dag (hash_of n) preferred

abbrev with_loser : Dag
with_loser = dag_of (
    after_vote
      (inserted
        (inserted (inserted (inserted (inserted (new root hasty (genesis ∷ [])) v0) v1) v2) x2)
        child)
      3 true)

record_query_result-rejected_parent_example :
    record_query_result with_loser (hash_of 5) false ≡ panic
unfolding program
record_query_result-rejected_parent_example =
    record_query_result-rejected_parent with_loser (hash_of 5) child (hash_of 4) [] refl refl refl
      refl
