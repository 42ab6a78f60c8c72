-- ===== src/Dag/Suite.antt =====
-- The tests of src/consensus/dag.rs, as functions that return whether their assertions hold. A random
-- vertex is one with a hash of its own.
mod Votes
mod Ancestry
use libtaurus.Prelude.{
  same_list, ℕ, zero, suc, ◌≡◌, refl, Bool, true, false, not, ◌&&◌, Option, none, some, List, [],
  ◌∷◌, if◌then◌else◌, ◌==◌, map, contains, is_empty, length, Result, ok, err, panic, ◌>>=◌, unwrap,
  ℕ-Key,
}
use libtaurus.Map
use libtaurus.Map.{get, contains_key}
use libtaurus.Hash.{Hash, Hash-Key}
use libtaurus.Constraint.{unity}
use libtaurus.Vertex.{Vertex}
use libtaurus.Dag.{
  Dag, Config, DagError, default_config, missing_parents, waiting_on_parents, already_inserted,
  conflicting_ancestors, self_referential_parent, bad_height, already_recorded, waiting_on_insert,
  not_found, bad_cfg_threshold,
}
use libtaurus.Dag.Check.{check_vertex}
use libtaurus.Dag.Insert.{map_child, insert_vertex, new}
use libtaurus.Dag.Pending.{get_known_children, try_insert, retry_pending}
use libtaurus.Dag.Query.{is_preferred, query, get_frontier}
use libtaurus.Dag.Vote.{record_query_result}
use libtaurus.Dag.Tests.{root, genesis, hash_of, vertex, v0, v1, v2, x2, program}

-- `assert_matches!` on the errors that the tests expect.
module _ {A : Type 0} where
  abbrev is_missing : List Hash → Result DagError A → Bool
  is_missing expected (err (missing_parents actual)) = same_list expected actual
  is_missing expected _ = false

  abbrev is_waiting : List Hash → Result DagError A → Bool
  is_waiting expected (err (waiting_on_parents actual)) = same_list expected actual
  is_waiting expected _ = false

  abbrev pub is_ok : Result DagError A → Bool
  is_ok (ok a) = true
  is_ok _ = false

  abbrev pub fails : (DagError → Bool) → Result DagError A → Bool
  fails p (err e) = p e
  fails p _ = false

abbrev pub is_ready : List Hash → Result DagError (List Hash) → Bool
is_ready expected (ok actual) = same_list expected actual
is_ready expected _ = false

abbrev pub is_answer : Bool → Bool → Result DagError (Bool × Bool) → Bool
is_answer preferred final (ok (p, f)) =
    (if preferred then p else not p) && (if final then f else not f)
is_answer preferred final _ = false

abbrev pub is_true : Result DagError Bool → Bool
is_true (ok b) = b
is_true _ = false

abbrev pub is_false : Result DagError Bool → Bool
is_false (ok b) = not b
is_false _ = false

abbrev frontier_is : List Hash → Dag → Bool
frontier_is expected dag = elim (get_frontier dag) [
  | ok vertices ↦ same_list expected (map root vertices)
  | err e ↦ false
  | panic ↦ false
]

abbrev pub is_not_found : DagError → Bool
is_not_found not_found = true
is_not_found _ = false

abbrev pub is_waiting_on_insert : DagError → Bool
is_waiting_on_insert waiting_on_insert = true
is_waiting_on_insert _ = false

abbrev is_bad_cfg : DagError → Bool
is_bad_cfg bad_cfg_threshold = true
is_bad_cfg _ = false

abbrev is_already_inserted : DagError → Bool
is_already_inserted already_inserted = true
is_already_inserted _ = false

abbrev is_self_referential : DagError → Bool
is_self_referential self_referential_parent = true
is_self_referential _ = false

abbrev is_conflicting : DagError → Bool
is_conflicting conflicting_ancestors = true
is_conflicting _ = false

abbrev is_bad_height : ℕ → ℕ → DagError → Bool
is_bad_height expected actual (bad_height e a) = (e == expected) && (a == actual)
is_bad_height expected actual _ = false

abbrev pub start_dag : Result DagError Dag
start_dag = new root default_config (genesis ∷ [])

-- `new_dag`, on initial vertices of two heights.
abbrev third : Vertex
third = vertex 6 1 (0 ∷ [])

abbrev upper : Vertex
upper = vertex 7 2 (2 ∷ 6 ∷ [])

abbrev test_new_dag : Result DagError Bool
test_new_dag = do
  alone ← start_dag
  dag ←
      new root (record default_config { genesis = root genesis })
        (genesis ∷ v0 ∷ v1 ∷ third ∷ upper ∷ [])
  let (dag', inserted) = try_insert root dag (vertex 8 3 (7 ∷ []))
  ok (
      fails is_bad_cfg (
        new root (record default_config { thresh_safe_early_commit = 5; thresh_accepted = 4 })
          (genesis ∷ []))
      && is_empty alone.pending_query
      && is_answer true true (query alone (hash_of 0))
      && is_empty dag.pending_query
      && is_answer true true (query dag (hash_of 0))
      && is_answer true true (query dag (hash_of 1))
      && is_answer true true (query dag (hash_of 2))
      && is_answer true true (query dag (hash_of 6))
      && is_answer true true (query dag (hash_of 7))
      && fails is_not_found (query dag (hash_of 8))
      && is_ok inserted)

new_dag_passes : test_new_dag ≡ ok true
unfolding program
new_dag_passes = refl

-- `check_vertex`
abbrev v10 : Vertex
v10 = vertex 10 2 (2 ∷ 6 ∷ [])

abbrev know : Dag → Vertex → Dag
know dag vx = record dag { vertex = Map.insert dag.vertex (root vx) vx }

abbrev test_check_vertex : Result DagError Bool
test_check_vertex = do
  dag ← start_dag
  dag_a ← insert_vertex root dag v0
  let dag_b = know dag_a v1
  let dag_c = know dag_b third
  dag_d ← insert_vertex root dag_c v1
  dag_e ← insert_vertex root dag_d third
  dag_f ← insert_vertex root dag_e v10
  dag_g ← insert_vertex root dag_f (vertex 11 2 (6 ∷ 2 ∷ []))
  ok (
      fails is_already_inserted (check_vertex root dag_a v0)
      && is_missing (hash_of 2 ∷ hash_of 6 ∷ []) (check_vertex root dag_a v10)
      && is_missing (hash_of 6 ∷ []) (check_vertex root dag_b v10)
      && is_waiting (hash_of 2 ∷ hash_of 6 ∷ []) (check_vertex root dag_c v10)
      && is_waiting (hash_of 6 ∷ []) (check_vertex root dag_d v10)
      && is_ok (check_vertex root dag_e v10)
      && is_ok (check_vertex root dag_f (vertex 12 3 (1 ∷ 10 ∷ [])))
      && fails is_self_referential (check_vertex root dag_f (vertex 13 3 (2 ∷ 10 ∷ [])))
      && fails (is_bad_height 3 2) (check_vertex root dag_f (vertex 15 2 (10 ∷ [])))
      && fails is_conflicting (check_vertex root dag_g (vertex 14 3 (10 ∷ 11 ∷ [])))
      && is_ok (check_vertex root dag_g (vertex 16 3 (1 ∷ 10 ∷ []))))

check_vertex_passes : test_check_vertex ≡ ok true
unfolding program
check_vertex_passes = refl

-- `map_child`
abbrev count_is : Map.Map Hash (List Hash) → ℕ → ℕ → Bool
count_is children id n = elim (get children (hash_of id)) [
  | some known ↦ length known == n
  | none ↦ false
]

abbrev counts_are : Map.Map Hash (List Hash) → ℕ → ℕ → ℕ → ℕ → Bool
counts_are children a b c d =
    count_is children 0 a && count_is children 1 b && count_is children 2 c && count_is children 3 d

abbrev test_map_child : Result DagError Bool
test_map_child = do
  dag ← start_dag
  let none_yet =
      Map.insert (Map.insert (Map.insert dag.children (hash_of 1) []) (hash_of 2) []) (hash_of 3) []
  let one = map_child none_yet (hash_of 1) v0.parents
  let two = map_child one (hash_of 2) v1.parents
  let three = map_child two (hash_of 3) v2.parents
  ok (
      counts_are none_yet 0 0 0 0
      && counts_are one 1 0 0 0
      && counts_are two 2 0 0 0
      && counts_are three 2 1 1 0)

map_child_passes : test_map_child ≡ ok true
unfolding program
map_child_passes = refl

abbrev pub v3 : Vertex
v3 = vertex 5 3 (3 ∷ [])

-- `retry_pending`
abbrev test_retry_pending : Result DagError Bool
test_retry_pending = do
  dag ← start_dag
  let (dag_a, a) = try_insert root dag v0
  let (dag_b, b) = try_insert root dag_a v2
  let (dag_c, c) = try_insert root dag_b v3
  let (dag_d, d) = try_insert root dag_c v1
  waiting ← d
  (dag_e, successes) ← retry_pending root 8 dag_d waiting
  ok (
      is_ok a
      && is_missing (hash_of 2 ∷ []) b
      && is_waiting (hash_of 3 ∷ []) c
      && contains successes (hash_of 3)
      && contains successes (hash_of 5)
      && frontier_is (hash_of 5 ∷ []) dag_e)

retry_pending_passes : test_retry_pending ≡ ok true
unfolding program
retry_pending_passes = refl

-- `try_insert`
abbrev test_try_insert : Result DagError Bool
test_try_insert = do
  dag ← start_dag
  let (dag_a, a) = try_insert root dag v2
  let (dag_b, b) = try_insert root dag_a v0
  let (dag_c, c) = try_insert root dag_b v2
  let (dag_d, d) = try_insert root dag_c x2
  let (dag_e, e) = try_insert root dag_d v1
  let (dag_f, f) = try_insert root dag_e v3
  let (dag_g, g) = try_insert root dag_f v2
  let (dag_h, h) = try_insert root dag_g v3
  let (dag_i, i) = try_insert root dag_h x2
  let (dag_j, j) = try_insert root dag_i (vertex 17 3 (3 ∷ 4 ∷ []))
  ok (
      is_missing (hash_of 1 ∷ hash_of 2 ∷ []) a
      && is_ready (hash_of 3 ∷ []) b
      && frontier_is (hash_of 1 ∷ []) dag_b
      && is_true (is_preferred dag_b (hash_of 1))
      && is_missing (hash_of 2 ∷ []) c
      && is_missing (hash_of 2 ∷ []) d
      && frontier_is (hash_of 1 ∷ []) dag_d
      && is_ready (hash_of 3 ∷ hash_of 4 ∷ []) e
      && frontier_is (hash_of 1 ∷ hash_of 2 ∷ []) dag_e
      && is_true (is_preferred dag_e (hash_of 2))
      && is_waiting (hash_of 3 ∷ []) f
      && frontier_is (hash_of 1 ∷ hash_of 2 ∷ []) dag_f
      && is_ready (hash_of 5 ∷ []) g
      && frontier_is (hash_of 3 ∷ []) dag_g
      && is_true (is_preferred dag_g (hash_of 3))
      && is_ready [] h
      && frontier_is (hash_of 5 ∷ []) dag_h
      && is_true (is_preferred dag_h (hash_of 5))
      && is_ready [] i
      && frontier_is (hash_of 5 ∷ []) dag_i
      && is_false (is_preferred dag_i (hash_of 4))
      && fails is_conflicting j)

try_insert_passes : test_try_insert ≡ ok true
unfolding program
try_insert_passes = refl

-- `get_known_children`
abbrev test_get_known_children : Result DagError Bool
test_get_known_children = do
  dag ← start_dag
  dag_a ← insert_vertex root dag v0
  dag_b ← insert_vertex root dag_a v1
  ok (
      is_ready [] (get_known_children dag (hash_of 0))
      && fails is_not_found (get_known_children dag (hash_of 1))
      && is_ready (hash_of 1 ∷ []) (get_known_children dag_a (hash_of 0))
      && is_ready (hash_of 1 ∷ hash_of 2 ∷ []) (get_known_children dag_b (hash_of 0)))

get_known_children_passes : test_get_known_children ≡ ok true
unfolding program
get_known_children_passes = refl
