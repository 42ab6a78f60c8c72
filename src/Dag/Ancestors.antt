-- ===== src/Dag/Ancestors.antt =====
-- src/consensus/dag.rs: `get_active_ancestors` and `get_active_ancestor_constraints`.
use libtaurus.Prelude.{
  ℕ, zero, suc, ◌-◌, Bool, true, false, not, Option, none, some, List, [], ◌∷◌, ◌++◌, map, foldr,
  if◌then◌else◌, ltb, any, contains, unique, filter, flat_map, minimum, min, sorted_by, u64_mod,
  Result, ok, err, panic, ◌>>=◌, unwrap, try_map,
}
use libtaurus.Map.{get, contains_key}
use libtaurus.Hash.{Hash, Hash-Key}
use libtaurus.Constraint.{Constraint, Constraint-Key, ConflictSetKey-Key, unity, conflict_set_key}
use libtaurus.Vertex.{Vertex, parent_constraints}
use libtaurus.Dag.{
  Dag, DagError, not_found, rejected_ancestor, self_referential_parent, State, ConflictSet, depth,
}

abbrev pub u64_max : ℕ
u64_max = u64_mod - 1

-- `self.vertex[vhash]`
abbrev pub vertex_at : Dag → Hash → Result DagError Vertex
vertex_at dag vhash = unwrap (get dag.vertex vhash)

-- `self.state[&c.conflict_set_key()]`
abbrev pub state_of : State → Constraint → Result DagError ConflictSet
state_of state c = unwrap (get state (conflict_set_key c))

-- `s.decision.get(&c)`
abbrev pub decision_of : State → Constraint → Result DagError (Option Bool)
decision_of state c = do s ← state_of state c; ok (get s.decision c)

-- `decided_height`
unfoldable pub decided_height : ℕ → Dag → Hash → Result DagError ℕ
decided_height zero dag vhash = panic
decided_height (suc fuel) dag vhash = do
  decision ← decision_of dag.state (unity vhash)
  elim decision [
    | some false ↦ err rejected_ancestor
    | some true ↦ (do vx ← vertex_at dag vhash; ok vx.height)
    | none ↦ (do
      vx ← vertex_at dag vhash
      heights ← try_map (decided_height fuel dag) vx.parents
      ok (foldr min u64_max heights))
  ]

-- `gather_ancestors`
unfoldable pub gather_ancestors : ℕ → Dag → ℕ → Hash → Result DagError (List Hash)
gather_ancestors zero dag to_height vhash = panic
gather_ancestors (suc fuel) dag to_height vhash = do
  vx ← vertex_at dag vhash
  elim (ltb to_height vx.height) [
    | true ↦ (do
      further ← try_map (gather_ancestors fuel dag to_height) vx.parents
      ok (unique (vx.parents ++ flat_map (λ l. l) further)))
    | false ↦ ok []
  ]

-- Whether the unity constraint of a vertex is undecided.
abbrev pub is_active : Dag → Hash → Result DagError (Hash × Bool)
is_active dag vhash = do
  s ← state_of dag.state (unity vhash)
  ok (vhash, not (contains_key s.decision (unity vhash)))

abbrev pub active : List (Hash × Bool) → List Hash
active [] = []
active ((vhash, keep) ∷ l) = if keep then vhash ∷ active l else active l

abbrev pub with_height : Dag → Hash → Result DagError (ℕ × Hash)
with_height dag vhash = do vx ← vertex_at dag vhash; ok (vx.height, vhash)

-- `get_active_ancestors`
unfoldable pub get_active_ancestors : Dag → Vertex → Result DagError (List Hash)
get_active_ancestors dag vx =
    if any (λ p. not (contains_key dag.vertex p)) vx.parents then err not_found else (do
      min_heights ← try_map (decided_height (depth dag) dag) vx.parents
      to_height ← unwrap (minimum min_heights)
      gathered ← try_map (gather_ancestors (depth dag) dag to_height) vx.parents
      let ancestors_of_parents = unique (flat_map (λ l. l) gathered)
      if any (contains ancestors_of_parents) vx.parents then err self_referential_parent else (do
        marked ← try_map (is_active dag) (ancestors_of_parents ++ vx.parents)
        keyed ← try_map (with_height dag) (active marked)
        ok (map (λ e. e.1) (sorted_by (λ e. e.0) keyed))))

-- Whether no decision is recorded for a constraint.
abbrev pub is_undecided : State → Constraint → Bool
is_undecided state c = elim (get state (conflict_set_key c)) [
  | none ↦ true
  | some s ↦ not (contains_key s.decision c)
]

-- `get_active_ancestor_constraints`
unfoldable pub get_active_ancestor_constraints : Dag → Vertex → Result DagError (List Constraint)
get_active_ancestor_constraints dag vx = do
  ancestors ← get_active_ancestors dag vx
  vertices ← try_map (vertex_at dag) ancestors
  ok (
      filter (is_undecided dag.state)
        (unique (flat_map parent_constraints vertices ++ parent_constraints vx)))
