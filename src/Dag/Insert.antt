-- ===== src/Dag/Insert.antt =====
-- src/consensus/dag.rs: `map_child`, `insert` and `DAG::new`.
use libtaurus.Prelude.{
  Bool, true, false, Option, none, some, List, [], ◌∷◌, ◌++◌, if◌then◌else◌, any, unique, Result,
  ok, ◌>>=◌, unwrap, try_map, try_fold, insert,
}
use libtaurus.Map
use libtaurus.Map.{Map, get}
use libtaurus.Hash.{Hash, Hash-Key}
use libtaurus.Constraint.{Constraint, Constraint-Key, ConflictSetKey-Key, unity, conflict_set_key}
use libtaurus.Vertex.{Vertex, parent_constraints}
use libtaurus.Dag.{Dag, DagError, ConflictSet, State, new_conflict_set, Config, check, empty}
use libtaurus.Dag.Ancestors.{state_of, decision_of}

-- One round of the loop of `map_child`.
abbrev pub map_one : Hash → Map Hash (List Hash) → Hash → Map Hash (List Hash)
map_one vhash children parent = elim (get children parent) [
  | some known ↦ Map.insert children parent (insert vhash known)
  | none ↦ Map.insert children parent (vhash ∷ [])
]

-- `map_child`
unfoldable pub map_child : Map Hash (List Hash) → Hash → List Hash → Map Hash (List Hash)
map_child children vhash [] = children
map_child children vhash (parent ∷ parents) =
    map_child (map_one vhash children parent) vhash parents

abbrev pub is_rejection : Option Bool → Bool
is_rejection (some false) = true
is_rejection _ = false

abbrev pub extended : Constraint → Option (List Constraint) → List Constraint
extended c none = c ∷ []
extended c (some known) = insert c known

-- Registers `c` as a child of one of its parent constraints.
unfoldable pub add_child : Constraint → State → Constraint → Result DagError State
add_child c state parent = do
  p_state ← state_of state parent
  ok (
      Map.insert state (conflict_set_key parent) (record p_state {
        children = Map.insert p_state.children parent (extended c (get p_state.children parent));
      }))

-- The constraints that a constraint depends on: those that its two vertices commit to.
abbrev pub constraint_parents : Vertex → Vertex → List Constraint
constraint_parents left right = unique (parent_constraints left ++ parent_constraints right)

-- A new conflict set, with a rejection if a parent is rejected.
abbrev pub initial_state : Constraint → List Constraint → Bool → ConflictSet
initial_state c c_parents rejected =
    let fresh = new_conflict_set c c_parents in
    if rejected then record fresh { decision = Map.insert fresh.decision c false } else fresh

-- One round of the loop over the constraints in `insert`.
unfoldable pub register : Map Hash Vertex → State → Constraint → Result DagError State
register vertex state c = do
  left ← unwrap (get vertex c.left)
  right ← unwrap (get vertex c.right)
  let c_parents = constraint_parents left right
  decisions ← try_map (decision_of state) c_parents
  linked ← try_fold (add_child c) state c_parents
  ok (
      Map.try_insert linked (conflict_set_key c)
        (initial_state c c_parents (any is_rejection decisions)))

unfoldable pub remove_all : Map Hash Vertex → List Hash → Map Hash Vertex
remove_all frontier [] = frontier
remove_all frontier (parent ∷ parents) = remove_all (Map.remove frontier parent) parents

module _ (hash : Vertex → Hash) where
  -- The constraints that `insert` registers for a vertex, its unity last.
  abbrev pub new_constraints : Vertex → List Constraint
  new_constraints vx = unique (parent_constraints vx) ++ unity (hash vx) ∷ []

  -- `insert`
  unfoldable pub insert_vertex : Dag → Vertex → Result DagError Dag
  insert_vertex dag vx = do
    let vhash = hash vx
    let vertex = Map.insert dag.vertex vhash vx
    state ← try_fold (register vertex) dag.state (new_constraints vx)
    ok (record dag {
      vertex = vertex;
      children = map_child (Map.try_insert dag.children vhash []) vhash vx.parents;
      state = state;
      graph = Map.insert dag.graph vhash vx;
      pending_query = Map.insert dag.pending_query vhash vx;
      frontier = Map.insert (remove_all dag.frontier vx.parents) vhash vx;
    })

  -- Marks one constraint of an initial vertex as accepted.
  unfoldable pub accept_initial : State → Constraint → Result DagError State
  accept_initial state c = do
    s ← state_of state c
    ok (
        Map.insert state (conflict_set_key c)
          (record s { decision = Map.insert s.decision c true }))

  -- One round of the loop of `DAG::new`.
  unfoldable pub insert_initial : Dag → Vertex → Result DagError Dag
  insert_initial dag vx = do
    dag' ← insert_vertex dag vx
    state ← try_fold accept_initial dag'.state (parent_constraints vx ++ unity (hash vx) ∷ [])
    ok (record dag' { pending_query = Map.remove dag'.pending_query (hash vx); state = state })

  -- `DAG::new`
  unfoldable pub new : Config → List Vertex → Result DagError Dag
  new config init = do _ ← check config; try_fold insert_initial (empty config) init
