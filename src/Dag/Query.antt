-- ===== src/Dag/Query.antt =====
-- src/consensus/dag.rs: `is_preferred`, `query`, `get_vertex` and `get_frontier`.
use libtaurus.Prelude.{
  Bool, true, false, not, ◌||◌, Option, none, some, List, [], ◌∷◌, if◌then◌else◌, ◌==◌, all,
  sorted_by, Result, ok, err, panic, ◌>>=◌, ok_or, try_map,
}
use libtaurus.Map.{get, contains_key, Map}
use libtaurus.Hash.{Hash, Hash-Key}
use libtaurus.Constraint.{Constraint, Constraint-Key, ConflictSetKey-Key, unity}
use libtaurus.Vertex.{Vertex, parent_constraints}
use libtaurus.Dag.{Dag, DagError, State, waiting_on_insert, not_found}
use libtaurus.Dag.Ancestors.{state_of, decision_of, get_active_ancestor_constraints}

-- Whether every constraint is the preferred one of its conflict set; it stops at the first that is
-- not.
unfoldable pub all_preferred : State → List Constraint → Result DagError Bool
all_preferred state [] = ok true
all_preferred state (c ∷ cs) = do
  s ← state_of state c
  elim (s.preferred == c) [ true ↦ all_preferred state cs | false ↦ ok false ]

-- `is_preferred`
unfoldable pub is_preferred : Dag → Hash → Result DagError Bool
is_preferred dag vhash = do
  vx ← ok_or (get dag.vertex vhash) not_found
  _ ← ok_or (get dag.graph vhash) waiting_on_insert
  all_preferred dag.state (parent_constraints vx)

abbrev pub status : Option Bool → Bool → Bool × Bool
status (some true) preferred = (true, true)
status (some false) preferred = (false, true)
status none preferred = (preferred, false)

-- The preference of one ancestor constraint; a rejected one fails the assertion.
unfoldable pub ancestor_status : State → Constraint → Result DagError (Bool × Bool)
ancestor_status state c = do
  s ← state_of state c
  let (preferred, final) = status (get s.decision c) (s.preferred == c)
  if preferred || not final then ok (preferred, final) else panic

-- `query`
unfoldable pub query : Dag → Hash → Result DagError (Bool × Bool)
query dag vhash = elim (get dag.graph vhash) [
  | some vx ↦ (do
    decision ← decision_of dag.state (unity vhash)
    elim decision [
      | some true ↦ ok (true, true)
      | some false ↦ ok (false, true)
      | none ↦ (do
        constraints ← get_active_ancestor_constraints dag vx
        states ← try_map (ancestor_status dag.state) constraints
        ok (all (λ s. s.0) states, false))
    ])
  | none ↦ if contains_key dag.vertex vhash then err waiting_on_insert else err not_found
]

-- `get_vertex`
abbrev pub get_vertex : Dag → Hash → Option Vertex
get_vertex dag vhash = get dag.vertex vhash

-- Whether `query` says that a vertex is strongly preferred; an error counts as no.
abbrev pub says_preferred : Result DagError (Bool × Bool) → Result DagError Bool
says_preferred (ok (preferred, final)) = ok preferred
says_preferred (err e) = ok false
says_preferred panic = panic

-- The vertices of the frontier that are strongly preferred.
unfoldable pub preferred_of : Dag → Map Hash Vertex → Result DagError (List Vertex)
preferred_of dag [] = ok []
preferred_of dag ((vhash, vx) ∷ m) = do
  preferred ← says_preferred (query dag vhash)
  rest ← preferred_of dag m
  ok (if preferred then vx ∷ rest else rest)

-- `get_frontier`
unfoldable pub get_frontier : Dag → Result DagError (List Vertex)
get_frontier dag = do
  vertices ← preferred_of dag dag.frontier
  ok (sorted_by (λ vx. vx.timestamp) vertices)
