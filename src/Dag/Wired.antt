-- ===== src/Dag/Wired.antt =====
-- The constraint graph: each conflict set has all its entries, and its links lead to constraints that
-- vertices of the graph commit to, its children to higher ones.
use mathlib.Core.Path.{subst}
use libtaurus.Prelude.{ℕ, ◌<◌, ◌≡◌, true, some, List, arith, ◌≟◌, contains, max, All}
use libtaurus.Map
use libtaurus.Map.{Map, get, get-insert, contains_key}
use libtaurus.Hash.{Hash, Hash-Key}
use libtaurus.Constraint.{Constraint, Constraint-Key, ConflictSetKey-Key, conflict_set_key}
use libtaurus.Vertex.{Vertex}
use libtaurus.Dag.{ConflictSet, State}
use libtaurus.Dag.Insert.{new_constraints}

-- The constraint has a conflict set.
pub record IsRegistered (state : State) (c : Constraint) : Type 0 where
  pub entry : ConflictSet
  pub found : get state (conflict_set_key c) ≡ some entry

-- Both vertices of the constraint are in the graph, the higher one at this height.
pub record IsLevel (graph : Map Hash Vertex) (c : Constraint) (n : ℕ) : Type 0 where
  pub left : Vertex
  pub right : Vertex
  pub left_found : get graph c.left ≡ some left
  pub right_found : get graph c.right ≡ some right
  pub level : n ≡ max left.height right.height

pub IsLevel-unique :
    (graph : Map Hash Vertex) (c : Constraint) (m n : ℕ)
    → IsLevel graph c m
    → IsLevel graph c n
    → m ≡ n
IsLevel-unique graph c m n p q =
    ground (arith, p.level, q.level, p.left_found, p.right_found, q.left_found, q.right_found)

module _ (hash : Vertex → Hash) where
  -- A vertex of the graph commits to the constraint, or it is the vertex's own unity.
  pub record IsCommitted (graph : Map Hash Vertex) (c : Constraint) : Type 0 where
    pub at : Hash
    pub vertex : Vertex
    pub found : get graph at ≡ some vertex
    pub member : contains (new_constraints hash vertex) c ≡ true

  pub record IsChild (graph : Map Hash Vertex) (c d : Constraint) : Type 0 where
    pub committed : IsCommitted graph d
    pub level : ℕ
    pub child_level : ℕ
    pub below : IsLevel graph c level
    pub above : IsLevel graph d child_level
    pub rises : level < child_level

  -- What the conflict set of `c` holds about `c`.
  pub record IsFilled (graph : Map Hash Vertex) (c : Constraint) (s : ConflictSet) : Type 0 where
    pub chit : contains_key s.chit c ≡ true
    pub count : contains_key s.count c ≡ true
    pub children : contains_key s.children c ≡ true
    pub parents : contains_key s.parents c ≡ true
    pub below : (ds : List Constraint) → get s.children c ≡ some ds → All (IsChild graph c) ds
    pub above : (ds : List Constraint) → get s.parents c ≡ some ds → All (IsCommitted graph) ds

  pub record IsWired (graph : Map Hash Vertex) (state : State) : Type 0 where
    pub entry :
        (c : Constraint) (s : ConflictSet)
        → get state (conflict_set_key c) ≡ some s
        → IsFilled graph c s

  -- What every vertex of the graph commits to is registered.
  pub record IsComplete (graph : Map Hash Vertex) (state : State) : Type 0 where
    pub registered : (c : Constraint) → IsCommitted graph c → IsRegistered state c

  -- One conflict set is replaced.
  pub IsWired-insert :
      (graph : Map Hash Vertex) (state : State) (c : Constraint) (s : ConflictSet)
      → IsWired graph state
      → ((d : Constraint) → conflict_set_key c ≡ conflict_set_key d → IsFilled graph d s)
      → IsWired graph (Map.insert state (conflict_set_key c) s)
  IsWired-insert graph state c s w k = record {
    entry = λ d t e. elim (conflict_set_key c ≟ conflict_set_key d) [
      | yes q ↦
          subst (IsFilled graph d)
            (ground (arith, get-insert state (conflict_set_key c) s (conflict_set_key d), e, q))
            (k d q)
      | no q ↦
          w.entry d t
            (ground (arith, get-insert state (conflict_set_key c) s (conflict_set_key d), e, q))
    ];
  }

-- Every conflict set of `s` has one in `t`.
pub record KeepsSets (s t : State) : Type 0 where
  pub kept : (c : Constraint) → IsRegistered s c → IsRegistered t c

pub KeepsSets-refl : (s : State) → KeepsSets s s
KeepsSets-refl s = record { kept = λ c r. r }

pub KeepsSets-trans : {s t u : State} → KeepsSets s t → KeepsSets t u → KeepsSets s u
KeepsSets-trans p q = record { kept = λ c r. q.kept c (p.kept c r) }

pub KeepsSets-insert :
    (state : State) (c : Constraint) (s : ConflictSet)
    → KeepsSets state (Map.insert state (conflict_set_key c) s)
KeepsSets-insert state c s = record {
  kept = λ d r. elim (conflict_set_key c ≟ conflict_set_key d) [
    | yes q ↦ record {
      entry = s;
      found = ground (arith, get-insert state (conflict_set_key c) s (conflict_set_key d), q);
    }
    | no q ↦ record {
      entry = r.entry;
      found =
          ground (arith, get-insert state (conflict_set_key c) s (conflict_set_key d), r.found, q);
    }
  ];
}

pub IsRegistered-insert :
    (state : State) (c : Constraint) (s : ConflictSet)
    → IsRegistered (Map.insert state (conflict_set_key c) s) c
IsRegistered-insert state c s = record {
  entry = s;
  found = ground (arith, get-insert state (conflict_set_key c) s (conflict_set_key c));
}
