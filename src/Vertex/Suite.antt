-- ===== src/Vertex/Suite.antt =====
-- The tests of src/consensus/vertex.rs, as functions that return whether their assertions hold. The hash
-- of a vertex is a parameter of the model: here it is the vertex's height.
use libtaurus.Prelude.{
  same_list, ℕ, ◌≡◌, refl, Bool, true, false, not, ◌&&◌, Option, none, some, List, [], ◌∷◌, ◌==◌,
  ℕ-Key, is_empty, insert_all, maximum, Result, ok, err, ℕ_discrete,
}
use libtaurus.Hash
use libtaurus.Hash.{Hash, Hash-Key, Hash-discrete}
use libtaurus.Constraint.{
  Constraint, Constraint-Key, Constraint-discrete, ConflictSetKey-Key, ConflictSetKey-discrete,
  conflict_set_key, conflict, is_unity, constraints_of,
}
use libtaurus.Vertex.{
  Vertex, VertexError, version, empty, with_parents, sanity_checks, parent_constraints, bad_version,
  missing_field, parents_field, duplicate_parents,
}

abbrev by_height : Vertex → Hash
by_height vx = record { bytes = vx.height ∷ [] }

abbrev at_height : ℕ → Vertex
at_height n = record (empty 0) { height = n }

module _ {A : Type 0} where
  abbrev misses_parents : Result VertexError A → Bool
  misses_parents (err (missing_field parents_field)) = true
  misses_parents _ = false

  abbrev has_duplicates : Result VertexError A → Bool
  has_duplicates (err duplicate_parents) = true
  has_duplicates _ = false

  abbrev is_ok : Result VertexError A → Bool
  is_ok (ok a) = true
  is_ok _ = false

abbrev built : List Vertex → Result VertexError Vertex
built parents = with_parents by_height (empty 0) parents

abbrev height_is : ℕ → Result VertexError Vertex → Bool
height_is n (ok vx) = vx.height == n
height_is n _ = false

abbrev parents_are : List Hash → Result VertexError Vertex → Bool
parents_are expected (ok vx) = same_list vx.parents expected
parents_are expected _ = false

-- `empty`
abbrev test_empty : Bool
test_empty =
    ((empty 0).version == version)
    && is_empty (empty 0).parents
    && ((empty 0).namespace_id == Hash.default)
    && ((empty 0).root == Hash.default)

-- `with_parents`
abbrev test_with_parents : Bool
test_with_parents =
    let p1 = at_height 0 in
    let p2 = at_height 1 in
    let p3 = at_height 100 in
    misses_parents (built [])
    && has_duplicates (built (p1 ∷ p2 ∷ p2 ∷ []))
    && height_is 2 (built (p1 ∷ p2 ∷ []))
    && height_is 101 (built (p1 ∷ p2 ∷ p3 ∷ []))
    && height_is 101 (built (p3 ∷ []))
    && height_is 101 (built (p1 ∷ p2 ∷ p3 ∷ []))
    && parents_are (by_height p1 ∷ by_height p2 ∷ by_height p3 ∷ []) (built (p1 ∷ p2 ∷ p3 ∷ []))
    && parents_are (by_height p3 ∷ by_height p1 ∷ by_height p2 ∷ []) (built (p3 ∷ p1 ∷ p2 ∷ []))

-- `Vertex::default()`
abbrev blank : Vertex
blank = record {
  version = 0;
  height = 0;
  parents = [];
  namespace_id = Hash.default;
  root = Hash.default;
  timestamp = 0;
}

abbrev is_bad_version : ℕ → ℕ → Result VertexError (Unit {0}) → Bool
is_bad_version expected actual (err (bad_version e a)) = (e == expected) && (a == actual)
is_bad_version expected actual _ = false

abbrev is_sane : Result VertexError Vertex → Bool
is_sane (ok vx) = is_ok (sanity_checks vx)
is_sane _ = false

-- `sanity_checks`
abbrev test_sanity_checks : Bool
test_sanity_checks =
    let current = record blank { version = version } in
    let doubled = record current { parents = Hash.default ∷ Hash.default ∷ [] } in
    let single = record doubled { parents = Hash.default ∷ [] } in
    is_bad_version version 0 (sanity_checks blank)
    && misses_parents (sanity_checks current)
    && has_duplicates (sanity_checks doubled)
    && is_sane (with_parents by_height single (blank ∷ []))

abbrev hash_of : ℕ → Hash
hash_of n = record { bytes = n ∷ [] }

abbrev on : ℕ → ℕ → Constraint
on a b = record { left = hash_of a; right = hash_of b }

abbrev constraints_are : List Constraint → Result VertexError Vertex → Bool
constraints_are expected (ok vx) = same_list (parent_constraints vx) expected
constraints_are expected _ = false

-- `parent_constraints`
abbrev test_parent_constraints : Bool
test_parent_constraints =
    let p1 = at_height 1 in
    let p2 = at_height 2 in
    let p3 = at_height 3 in
    constraints_are (on 1 1 ∷ []) (built (p1 ∷ []))
    && constraints_are (on 1 2 ∷ on 2 2 ∷ on 1 1 ∷ []) (built (p1 ∷ p2 ∷ []))
    && constraints_are (on 1 2 ∷ on 1 3 ∷ on 2 3 ∷ on 3 3 ∷ on 2 2 ∷ on 1 1 ∷ [])
        (built (p1 ∷ p2 ∷ p3 ∷ []))

-- The hashes `H1`, `H2`, `H3` and `H4` of the tests, by the first bytes in which they differ: 0, 10, 11
-- and 12.
-- `constraint_conflict_set_key`
abbrev test_constraint_conflict_set_key : Bool
test_constraint_conflict_set_key =
    (conflict_set_key (on 0 10) == conflict_set_key (on 10 0))
    && (conflict_set_key (on 11 12) == conflict_set_key (on 12 11))

abbrev conflict_is : Option Constraint → Option Constraint → Bool
conflict_is none none = true
conflict_is (some c) (some d) = c == d
conflict_is _ _ = false

-- `constraint_conflict`
abbrev test_constraint_conflict : Bool
test_constraint_conflict =
    (on 0 10 == on 0 10)
    && not (on 0 10 == on 10 0)
    && conflict_is (conflict (on 0 0)) none
    && conflict_is (conflict (on 0 10)) (some (on 10 0))
    && conflict_is (conflict (on 11 12)) (some (on 12 11))

-- `unity_constraint`
abbrev test_unity_constraint : Bool
test_unity_constraint = is_unity (on 0 0) && not (is_unity (on 10 0))

abbrev yields : List Hash → List Constraint → Bool
yields vs expected = same_list (constraints_of vs) expected

-- `new_constraint_iter`
abbrev test_new_constraint_iter : Bool
test_new_constraint_iter =
    yields (hash_of 0 ∷ []) (on 0 0 ∷ [])
    && yields (hash_of 0 ∷ hash_of 10 ∷ []) (on 0 10 ∷ on 10 10 ∷ on 0 0 ∷ [])
    && yields (hash_of 11 ∷ hash_of 10 ∷ []) (on 11 10 ∷ on 10 10 ∷ on 11 11 ∷ [])
    && yields (hash_of 0 ∷ hash_of 10 ∷ hash_of 11 ∷ [])
        (on 0 10 ∷ on 0 11 ∷ on 10 11 ∷ on 11 11 ∷ on 10 10 ∷ on 0 0 ∷ [])
    && yields (hash_of 0 ∷ hash_of 10 ∷ hash_of 11 ∷ hash_of 12 ∷ []) (
        on 0 10
        ∷ on 0 11
        ∷ on 0 12
        ∷ on 10 11
        ∷ on 10 12
        ∷ on 11 12
        ∷ on 12 12
        ∷ on 11 11
        ∷ on 10 10
        ∷ on 0 0
        ∷ [])

vertex_suite_passes :
    (test_empty && test_with_parents && test_sanity_checks && test_parent_constraints
      && test_constraint_conflict_set_key && test_constraint_conflict && test_unity_constraint
      && test_new_constraint_iter)
    ≡ true
unfolding insert_all maximum with_parents sanity_checks parent_constraints conflict conflict_set_key
    constraints_of Hash.hash_lt ℕ_discrete Hash-discrete Constraint-discrete ConflictSetKey-discrete
vertex_suite_passes = refl
