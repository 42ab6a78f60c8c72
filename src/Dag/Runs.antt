-- ===== src/Dag/Runs.antt =====
-- The DAGs that the consensus task can reach: it starts from the genesis vertex, and then inserts
-- vertices and records queries in any order.
use mathlib.Core.Path.{subst}
use libtaurus.Prelude.{
  ◌≡◌, refl, Bool, true, some, List, [], ◌∷◌, ◌++◌, arith, ok, try_fold, >>=-eq-ok, ok-injective,
}
use libtaurus.Map
use libtaurus.Map.{get, get-insert, get-nil}
use libtaurus.Hash.{Hash, Hash-Key}
use libtaurus.Vertex.{Vertex, parent_constraints}
use libtaurus.Constraint.{
  Constraint, Constraint-Key, ConflictSetKey-Key, conflict_set_key, conflict, unity,
}
use libtaurus.Constraint.Pairs.{constraints_of_lem, pairs}
use libtaurus.Dag.{Dag, ConflictSet, Config, State, check, empty}
use libtaurus.Dag.Ancestors.{state_of}
use libtaurus.Dag.Insert.{new, insert_initial, insert_vertex, accept_initial}
use libtaurus.Dag.Pending.{try_insert}
use libtaurus.Dag.Vote.{record_query_result}
use libtaurus.Dag.Safety.{
  IsConsistent, OneMore-mark, OneMore-IsConsistent, insert_vertex-NoNew, NoNew-IsConsistent,
  record_query_result-IsConsistent, try_insert-IsConsistent,
}

pub data Reach (hash : Vertex → Hash) (config : Config) (genesis : Vertex) : Dag → Type 0 where
  started : {dag : Dag} → new hash config (genesis ∷ []) ≡ ok dag → Reach hash config genesis dag
  inserted :
      {dag : Dag} (vx : Vertex)
      → Reach hash config genesis dag
      → Reach hash config genesis (try_insert hash dag vx).0
  voted :
      {dag dag' : Dag} (vhash : Hash) (preferred : Bool)
      → Reach hash config genesis dag
      → record_query_result dag vhash preferred ≡ ok dag'
      → Reach hash config genesis dag'

conflict-unity : (vhash : Hash) (o : Constraint) → conflict (unity vhash) ≡ some o → ⊥
unfolding conflict
conflict-unity vhash o h = ground arith

module _ (hash : Vertex → Hash) where
  empty-IsConsistent : (config : Config) → IsConsistent (empty config).state
  empty-IsConsistent config = record {
    apart = λ c o e p q. ground (arith, get-nil {V = ConflictSet} (conflict_set_key c));
  }

  parent_constraints-nil : (vx : Vertex) → vx.parents ≡ [] → parent_constraints vx ≡ []
  unfolding parent_constraints pairs
  parent_constraints-nil vx e = rw (e, constraints_of_lem)

  -- Marking a unity constraint keeps the state consistent, since it has no conflict.
  accept_initial-IsConsistent :
      (state : State) (vhash : Hash) (t : State)
      → accept_initial hash state (unity vhash) ≡ ok t
      → IsConsistent state
      → IsConsistent t
  unfolding accept_initial
  accept_initial-IsConsistent state vhash t h i =
      let (s, e, h₁) = >>=-eq-ok (state_of state (unity vhash)) _ h in
      subst IsConsistent (ok-injective h₁) (
        OneMore-IsConsistent (unity vhash)
          (OneMore-mark state (unity vhash) s
            (record s { decision = Map.insert s.decision (unity vhash) true }) refl e)
          (λ o k. absurd (conflict-unity vhash o k)) i)

  accept_one :
      (state : State) (vhash : Hash) (cs : List Constraint) (t : State)
      → cs ≡ []
      → try_fold (accept_initial hash) state (cs ++ unity vhash ∷ []) ≡ ok t
      → IsConsistent state
      → IsConsistent t
  unfolding try_fold
  accept_one state vhash [] t e h i =
      let (u, k, h₁) = >>=-eq-ok (accept_initial hash state (unity vhash)) _ h in
      subst IsConsistent (ok-injective h₁) (accept_initial-IsConsistent state vhash u k i)
  accept_one state vhash (c ∷ cs) t e h i = cc

  insert_initial-IsConsistent :
      (start : Dag) (genesis : Vertex) (dag : Dag)
      → genesis.parents ≡ []
      → insert_initial hash start genesis ≡ ok dag
      → IsConsistent start.state
      → IsConsistent dag.state
  unfolding insert_initial
  insert_initial-IsConsistent start genesis dag root h i =
      let (d, e, h₁) = >>=-eq-ok (insert_vertex hash start genesis) _ h in
      let marks = parent_constraints genesis ++ unity (hash genesis) ∷ [] in
      let (s, k, h₂) = >>=-eq-ok (try_fold (accept_initial hash) d.state marks) _ h₁ in
      subst (λ (x : Dag). IsConsistent x.state) (ok-injective h₂)
        (accept_one d.state (hash genesis) (parent_constraints genesis) s
          (parent_constraints-nil genesis root) k
          (NoNew-IsConsistent (insert_vertex-NoNew hash start genesis d e) i))

  new-IsConsistent :
      (config : Config) (genesis : Vertex) (dag : Dag)
      → genesis.parents ≡ []
      → new hash config (genesis ∷ []) ≡ ok dag
      → IsConsistent dag.state
  unfolding new try_fold
  new-IsConsistent config genesis dag root h =
      let (_, _, h₁) = >>=-eq-ok (check config) _ h in
      let (dag', e, h₂) = >>=-eq-ok (insert_initial hash (empty config) genesis) _ h₁ in
      subst (λ (x : Dag). IsConsistent x.state) (ok-injective h₂)
        (insert_initial-IsConsistent (empty config) genesis dag' root e (empty-IsConsistent config))

  -- In every DAG that the task can reach from a genesis vertex with no parents, whatever vertices
  -- were submitted and whatever the peers answered, a constraint and its conflict are not both
  -- accepted.
  pub Reach-IsConsistent :
      (config : Config) (genesis : Vertex) {dag : Dag}
      → genesis.parents ≡ []
      → Reach hash config genesis dag
      → IsConsistent dag.state
  Reach-IsConsistent config genesis root (started {dag} h) =
      new-IsConsistent config genesis dag root h
  Reach-IsConsistent config genesis root (inserted {dag} vx r) =
      try_insert-IsConsistent hash dag vx (Reach-IsConsistent config genesis root r)
  Reach-IsConsistent config genesis root (voted {dag} {dag'} vhash preferred r h) =
      record_query_result-IsConsistent dag vhash preferred dag' h
        (Reach-IsConsistent config genesis root r)
