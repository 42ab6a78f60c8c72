-- ===== src/Dag/Sound.antt =====
-- A DAG with a sound graph and a sound constraint graph, and the constraint graph on a larger graph.
use libtaurus.Prelude.{
  ◌≡◌, ◌≢◌, true, some, [], ◌∷◌, arith, contains, contains-append, contains-unique, All-weaken,
  unique,
}
use libtaurus.Map.{Map, get}
use libtaurus.Hash.{Hash, Hash-Key}
use libtaurus.Constraint.{Constraint, Constraint-Key, ConflictSetKey-Key, unity}
use libtaurus.Vertex.{Vertex, parent_constraints}
use libtaurus.Dag.{Dag, State}
use libtaurus.Dag.Descent.{IsSearchable}
use libtaurus.Dag.Shape.{IsGrounded}
use libtaurus.Dag.Wired.{IsLevel, IsCommitted, IsChild, IsWired, IsComplete}

module _ (hash : Vertex → Hash) where
  pub record IsSound (dag : Dag) : Type 0 where
    pub grounded : IsGrounded hash dag
    pub asking : (h : Hash) (v : Vertex) → get dag.pending_query h ≡ some v → v.parents ≢ []
    pub wired : IsWired hash dag.graph dag.state
    pub complete : IsComplete hash dag.graph dag.state

  pub unity-IsCommitted :
      (dag : Dag)
      → IsGrounded hash dag
      → (h : Hash) (v : Vertex) → get dag.graph h ≡ some v
      → IsCommitted hash dag.graph (unity h)
  unity-IsCommitted dag i h v e = record {
    at = h;
    vertex = v;
    found = e;
    member = ground (
      arith,
      contains-append (unique (parent_constraints v)) (unity (hash v) ∷ []) (unity h),
      i.hashed h v e,
    );
  }

  pub IsCommitted-of_parents :
      (graph : Map Hash Vertex) (h : Hash) (v : Vertex) (c : Constraint)
      → get graph h ≡ some v
      → contains (parent_constraints v) c ≡ true
      → IsCommitted hash graph c
  IsCommitted-of_parents graph h v c e m = record {
    at = h;
    vertex = v;
    found = e;
    member = ground (
      arith,
      contains-append (unique (parent_constraints v)) (unity (hash v) ∷ []) c,
      contains-unique (parent_constraints v) c,
      m,
    );
  }

  pub IsSound-IsSearchable : (dag : Dag) → IsSound dag → IsSearchable dag
  IsSound-IsSearchable dag i = record {
    known = i.grounded.known;
    linked = i.grounded.linked;
    united = λ h v e.
        let r = i.complete.registered (unity h) (unity-IsCommitted dag i.grounded h v e) in
        (r.entry, r.found);
  }

  -- A graph with more vertices.
  module _ (graph graph' : Map Hash Vertex)
      (more : (h : Hash) (v : Vertex) → get graph h ≡ some v → get graph' h ≡ some v) where
    IsCommitted-more : (c : Constraint) → IsCommitted hash graph c → IsCommitted hash graph' c
    IsCommitted-more c k = record {
      at = k.at;
      vertex = k.vertex;
      found = more k.at k.vertex k.found;
      member = k.member;
    }

    IsLevel-more : (c : Constraint) {n : _} → IsLevel graph c n → IsLevel graph' c n
    IsLevel-more c l = record {
      left = l.left;
      right = l.right;
      left_found = more c.left l.left l.left_found;
      right_found = more c.right l.right l.right_found;
      level = l.level;
    }

    IsChild-more : (c d : Constraint) → IsChild hash graph c d → IsChild hash graph' c d
    IsChild-more c d k = record {
      committed = IsCommitted-more d k.committed;
      level = k.level;
      child_level = k.child_level;
      below = IsLevel-more c k.below;
      above = IsLevel-more d k.above;
      rises = k.rises;
    }

    pub IsWired-more : (state : State) → IsWired hash graph state → IsWired hash graph' state
    IsWired-more state w = record {
      entry = λ c s e.
          let k = w.entry c s e in
          record {
            chit = k.chit;
            count = k.count;
            children = k.children;
            parents = k.parents;
            below = λ ds f.
                All-weaken (IsChild hash graph c) (IsChild hash graph' c) ds (IsChild-more c)
                  (k.below ds f);
            above = λ ds f.
                All-weaken (IsCommitted hash graph) (IsCommitted hash graph') ds IsCommitted-more
                  (k.above ds f);
          };
    }
