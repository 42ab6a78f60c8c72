-- ===== src/Dag/Relabel.antt =====
-- Changes of a conflict set that leave its links alone: decisions, counts, chits and preferences.
use libtaurus.Prelude.{◌≡◌, refl, sym, ap, ◌∙◌, true, some, Returns, returns, Returns-bind}
use libtaurus.Map
use libtaurus.Map.{Map, get, get-insert, contains_key}
use libtaurus.Hash.{Hash, Hash-Key}
use libtaurus.Constraint.{Constraint, Constraint-Key, ConflictSetKey-Key, conflict_set_key}
use libtaurus.Vertex.{Vertex}
use libtaurus.Dag.{ConflictSet, State}
use libtaurus.Dag.Insert.{accept_initial}
use libtaurus.Dag.Registering.{state_of-registered}
use libtaurus.Dag.Wired.{
  IsRegistered, IsFilled, IsWired, IsWired-insert, KeepsSets, KeepsSets-refl, KeepsSets-trans,
  KeepsSets-insert,
}

-- The second conflict set has the links of the first, and its entries.
pub record SameLinks (s t : ConflictSet) : Type 0 where
  pub parents : t.parents ≡ s.parents
  pub children : t.children ≡ s.children
  pub chits : (c : Constraint) → contains_key s.chit c ≡ true → contains_key t.chit c ≡ true
  pub counts : (c : Constraint) → contains_key s.count c ≡ true → contains_key t.count c ≡ true

-- A change of the labels that keeps the constraint graph.
pub record Relabels (hash : Vertex → Hash) (graph : Map Hash Vertex) (s t : State) : Type 0 where
  pub wired : IsWired hash graph t
  pub keeps : KeepsSets s t

module _ (hash : Vertex → Hash) (graph : Map Hash Vertex) where
  pub IsFilled-SameLinks :
      (c : Constraint) (s t : ConflictSet)
      → SameLinks s t
      → IsFilled hash graph c s
      → IsFilled hash graph c t
  IsFilled-SameLinks c s t l k = record {
    chit = l.chits c k.chit;
    count = l.counts c k.count;
    children = ap (λ m. contains_key m c) l.children ∙ k.children;
    parents = ap (λ m. contains_key m c) l.parents ∙ k.parents;
    below = λ ds e. k.below ds (ap (λ m. get m c) (sym l.children) ∙ e);
    above = λ ds e. k.above ds (ap (λ m. get m c) (sym l.parents) ∙ e);
  }

  pub Relabels-refl : (state : State) → IsWired hash graph state → Relabels hash graph state state
  Relabels-refl state w = record { wired = w; keeps = KeepsSets-refl state }

  pub Relabels-trans :
      {s t u : State} → Relabels hash graph s t → Relabels hash graph t u → Relabels hash graph s u
  Relabels-trans p q = record { wired = q.wired; keeps = KeepsSets-trans p.keeps q.keeps }

  pub insert-Relabels :
      (state : State) (c : Constraint) (s t : ConflictSet)
      → IsWired hash graph state
      → get state (conflict_set_key c) ≡ some s
      → SameLinks s t
      → Relabels hash graph state (Map.insert state (conflict_set_key c) t)
  insert-Relabels state c s t w e l = record {
    wired =
        IsWired-insert hash graph state c t w
          λ d q. IsFilled-SameLinks d s t l (w.entry d s (ap (λ k. get state k) (sym q) ∙ e));
    keeps = KeepsSets-insert state c t;
  }

  pub accept_initial-Returns :
      (state : State) (c : Constraint)
      → IsWired hash graph state
      → IsRegistered state c
      → Returns (Relabels hash graph state) (accept_initial hash state c)
  unfolding accept_initial
  accept_initial-Returns state c w r = Returns-bind (state_of-registered state c r) λ s e. returns (
      insert-Relabels state c s (record s { decision = Map.insert s.decision c true }) w e
        (record { parents = refl; children = refl; chits = λ d k. k; counts = λ d k. k }))
