-- ===== src/Dag/Orphan.antt =====
-- A vote on a vertex with a rejected parent.
use libtaurus.Prelude.{
  ℕ, suc, ◌≡◌, refl, false, not, some, List, ◌∷◌, ok, err, panic, try_map, any, length,
}
use libtaurus.Map
use libtaurus.Map.{get, contains_key}
use libtaurus.Hash.{Hash, Hash-Key}
use libtaurus.Vertex.{Vertex}
use libtaurus.Constraint.{Constraint-Key, ConflictSetKey-Key, unity}
use libtaurus.Dag.{Dag, rejected_ancestor}
use libtaurus.Dag.Ancestors.{
  decision_of, decided_height, get_active_ancestors, get_active_ancestor_constraints,
}
use libtaurus.Dag.Vote.{award_chit, record_pending, record_query_result}

decided_height-rejected :
    (fuel : ℕ) (dag : Dag) (p : Hash)
    → decision_of dag.state (unity p) ≡ ok (some false)
    → decided_height (suc fuel) dag p ≡ err rejected_ancestor
unfolding decided_height
decided_height-rejected fuel dag p h = rw (h) refl

get_active_ancestors-rejected :
    (dag : Dag) (vx : Vertex) (p : Hash) (ps : List Hash)
    → vx.parents ≡ p ∷ ps
    → any (λ q. not (contains_key dag.vertex q)) vx.parents ≡ false
    → decision_of dag.state (unity p) ≡ ok (some false)
    → get_active_ancestors dag vx ≡ err rejected_ancestor
unfolding get_active_ancestors try_map
get_active_ancestors-rejected dag vx p ps e known h =
    rw (known, e, decided_height-rejected (length dag.graph) dag p h) refl

get_active_ancestor_constraints-rejected :
    (dag : Dag) (vx : Vertex) (p : Hash) (ps : List Hash)
    → vx.parents ≡ p ∷ ps
    → any (λ q. not (contains_key dag.vertex q)) vx.parents ≡ false
    → decision_of dag.state (unity p) ≡ ok (some false)
    → get_active_ancestor_constraints dag vx ≡ err rejected_ancestor
unfolding get_active_ancestor_constraints
get_active_ancestor_constraints-rejected dag vx p ps e known h =
    rw (get_active_ancestors-rejected dag vx p ps e known h) refl

-- A vote against a pending vertex panics if the unity constraint of its first parent is rejected, where
-- all of its parents are known.
pub record_query_result-rejected_parent :
    (dag : Dag) (vhash : Hash) (vx : Vertex) (p : Hash) (ps : List Hash)
    → get dag.pending_query vhash ≡ some vx
    → vx.parents ≡ p ∷ ps
    → any (λ q. not (contains_key dag.vertex q)) vx.parents ≡ false
    → decision_of dag.state (unity p) ≡ ok (some false)
    → record_query_result dag vhash false ≡ panic
unfolding record_query_result record_pending award_chit
record_query_result-rejected_parent dag vhash vx p ps asked e known h =
    let refused =
      get_active_ancestor_constraints-rejected
        (record dag { pending_query = Map.remove dag.pending_query vhash }) vx p ps e known h in
    rw (asked, record_query_result) (rw (refused) refl)
