-- ===== src/Dag/Suite/Ancestry.antt =====
-- The tests of src/consensus/dag.rs about the ancestors of a vertex and their constraints. What the tests
-- sort, since its order is not specified, is compared here in the order of the model.
use libtaurus.Prelude.{
  same_list, ℕ, ◌≡◌, refl, Bool, true, false, not, ◌&&◌, none, some, List, [], ◌∷◌, Result, ok,
  ◌>>=◌, ◌==◌, ℕ-Key, length, is_empty,
}
use libtaurus.Map
use libtaurus.Map.{get}
use libtaurus.Constraint.{Constraint, Constraint-Key, unity}
use libtaurus.Vertex.{Vertex, parent_constraints}
use libtaurus.Dag.{DagError, ConflictSet, rejected_ancestor, new_conflict_set}
use libtaurus.Dag.Ancestors.{get_active_ancestors, get_active_ancestor_constraints}
use libtaurus.Dag.Pending.{try_insert}
use libtaurus.Dag.Suite.{start_dag, is_ok, fails, is_not_found, is_ready}
use libtaurus.Dag.Suite.Votes.{set_decision}
use libtaurus.Dag.Tests.{root, hash_of, vertex, v0, v1, v2, program}

abbrev is_rejected : DagError → Bool
is_rejected rejected_ancestor = true
is_rejected _ = false

abbrev second : Vertex
second = vertex 6 1 (0 ∷ [])

abbrev v20 : Vertex
v20 = vertex 5 3 (3 ∷ [])

abbrev v30 : Vertex
v30 = vertex 7 4 (5 ∷ [])

-- `get_active_ancestors`
abbrev test_get_active_ancestors : Result DagError Bool
test_get_active_ancestors = do
  dag ← start_dag
  let (dag_a, a) = try_insert root dag v0
  let (dag_b, b) = try_insert root dag_a v1
  let (dag_c, c) = try_insert root dag_b second
  let (dag_d, d) = try_insert root dag_c v2
  let (dag_e, e) = try_insert root dag_d v20
  let (dag_f, f) = try_insert root dag_e v30
  dag_g ← set_decision dag_f (unity (hash_of 3)) (some false)
  dag_h ← set_decision dag_g (unity (hash_of 3)) (some true)
  ok (
      is_ok a
      && is_ok b
      && is_ok c
      && is_ok d
      && is_ok e
      && is_ready (hash_of 1 ∷ hash_of 2 ∷ hash_of 3 ∷ hash_of 5 ∷ [])
          (get_active_ancestors dag_e v30)
      && is_ok f
      && is_ready (hash_of 1 ∷ hash_of 2 ∷ hash_of 3 ∷ hash_of 5 ∷ [])
          (get_active_ancestors dag_f v30)
      && fails is_rejected (get_active_ancestors dag_g v30)
      && is_ready (hash_of 5 ∷ []) (get_active_ancestors dag_h v30))

get_active_ancestors_passes : test_get_active_ancestors ≡ ok true
unfolding program
get_active_ancestors_passes = refl

abbrev constraints_are : List Constraint → Result DagError (List Constraint) → Bool
constraints_are expected (ok actual) = same_list expected actual
constraints_are expected _ = false

-- `get_active_ancestor_constraints`
abbrev test_get_active_ancestor_constraints : Result DagError Bool
test_get_active_ancestor_constraints = do
  dag ← start_dag
  let (dag_a, a) = try_insert root dag v0
  let (dag_b, b) = try_insert root dag_a v1
  let (dag_c, c) = try_insert root dag_b v2
  dag_d ← set_decision dag_c (unity (hash_of 3)) (some true)
  dag_e ← set_decision dag_d (unity (hash_of 3)) (some false)
  dag_f ← set_decision dag_e (unity (hash_of 3)) none
  let (dag_g, g) = try_insert root dag_f second
  let (dag_h, h) = try_insert root dag_g v20
  let (dag_i, i) = try_insert root dag_h (vertex 8 4 (5 ∷ 6 ∷ []))
  ok (
      is_ok a
      && is_ok b
      && fails is_not_found (get_active_ancestor_constraints dag_b v20)
      && is_ok c
      && constraints_are
          (record { left = hash_of 1; right = hash_of 2 }
            ∷ unity (hash_of 2)
            ∷ unity (hash_of 1)
            ∷ unity (hash_of 3)
            ∷ [])
          (get_active_ancestor_constraints dag_c v20)
      && constraints_are [] (get_active_ancestor_constraints dag_d v20)
      && fails is_rejected (get_active_ancestor_constraints dag_e v20)
      && is_ok g
      && is_ok h
      && is_ok i
      && constraints_are [] (get_active_ancestor_constraints dag_i second))

get_active_ancestor_constraints_passes : test_get_active_ancestor_constraints ≡ ok true
unfolding program
get_active_ancestor_constraints_passes = refl

-- `new_conflict_set`
abbrev holds_zero : Map.Map Constraint ℕ → Constraint → Bool
holds_zero m c = elim (get m c) [ some n ↦ n == 0 | none ↦ false ]

abbrev holds_false : Map.Map Constraint Bool → Constraint → Bool
holds_false m c = elim (get m c) [ some b ↦ not b | none ↦ false ]

abbrev holds : Map.Map Constraint (List Constraint) → Constraint → List Constraint → Bool
holds m c expected = elim (get m c) [ some cs ↦ same_list expected cs | none ↦ false ]

-- What a new conflict set holds about one of its constraints, with these parents.
abbrev is_new_for : ConflictSet → List Constraint → Constraint → Bool
is_new_for cs parents c =
    holds_false cs.chit c
    && holds_zero cs.confidence c
    && holds_zero cs.count c
    && holds cs.parents c parents
    && holds cs.children c []

abbrev has_size : ConflictSet → ℕ → Bool
has_size cs n =
    (length cs.chit == n)
    && (length cs.confidence == n)
    && (length cs.count == n)
    && (length cs.parents == n)
    && (length cs.children == n)
    && is_empty cs.decision

abbrev test_new_conflict_set : Bool
test_new_conflict_set =
    let pair : Constraint = record { left = hash_of 3; right = hash_of 2 } in
    let opposite : Constraint = record { left = hash_of 2; right = hash_of 3 } in
    let own = unity (hash_of 3) in
    let cs = new_conflict_set pair (parent_constraints v2) in
    let us = new_conflict_set own (parent_constraints v2) in
    (cs.preferred == pair)
    && (cs.last == pair)
    && has_size cs 2
    && is_new_for cs (parent_constraints v2) pair
    && is_new_for cs [] opposite
    && (us.preferred == own)
    && (us.last == own)
    && has_size us 1
    && is_new_for us (parent_constraints v2) own

new_conflict_set_passes : test_new_conflict_set ≡ true
unfolding program
new_conflict_set_passes = refl
