-- ===== src/Dag/Knowing.antt =====
-- The known vertices, and how many of them are not in the graph.
use mathlib.Core.Path.{subst}
use libtaurus.Prelude.{
  ℕ, ◌+◌, ◌≤◌, ◌<◌, ◌≡◌, ◌≢◌, sym, ap, ◌∙◌, true, false, some, List, [], ◌∷◌, ◌⊎◌, arith, ◌≟◌,
  if◌then◌else◌, Result,
}
use libtaurus.Map
use libtaurus.Map.{Map, get, get-insert, contains_key}
use libtaurus.Hash.{Hash, Hash-Key}
use libtaurus.Vertex.{Vertex}
use libtaurus.Dag.{Dag, DagError, missing_parents, waiting_on_parents}
use libtaurus.Dag.Pending.{on_error}
use libtaurus.Dag.Total.{IsOutcome, refused, accepted}

-- A vertex that can be submitted, or the genesis vertex.
abbrev pub IsRaised : Vertex → Type 0
IsRaised v = (v.height ≢ 0) ⊎ (v.parents ≡ [])

-- Each vertex is under its hash.
pub record IsKnown (hash : Vertex → Hash) (vertex : Map Hash Vertex) : Type 0 where
  pub named : (h : Hash) (v : Vertex) → get vertex h ≡ some v → hash v ≡ h
  pub raised : (h : Hash) (v : Vertex) → get vertex h ≡ some v → IsRaised v

pub IsKnown-insert :
    (hash : Vertex → Hash) (vertex : Map Hash Vertex) (vx : Vertex)
    → IsRaised vx
    → IsKnown hash vertex
    → IsKnown hash (Map.insert vertex (hash vx) vx)
IsKnown-insert hash vertex vx r k = record {
  named = λ h v e. elim (hash vx ≟ h) [
    | yes q ↦ ap hash (sym (ground (arith, get-insert vertex (hash vx) vx h, e, q))) ∙ q
    | no q ↦ k.named h v (ground (arith, get-insert vertex (hash vx) vx h, e, q))
  ];
  raised = λ h v e. elim (hash vx ≟ h) [
    | yes q ↦
        let same : vx ≡ v = ground (arith, get-insert vertex (hash vx) vx h, e, q) in
        subst IsRaised same r
    | no q ↦ k.raised h v (ground (arith, get-insert vertex (hash vx) vx h, e, q))
  ];
}

-- The known vertices that are not in the graph.
abbrev pub unplaced : Map Hash Vertex → Map Hash Vertex → ℕ
unplaced graph [] = 0
unplaced graph ((k, v) ∷ m) = (if contains_key graph k then 0 else 1) + unplaced graph m

-- A vertex that is known again.
pub unplaced-known :
    (graph m : Map Hash Vertex) (h : Hash) (v : Vertex)
    → contains_key m h ≡ true
    → unplaced graph (Map.insert m h v) ≡ unplaced graph m
unfolding get Map.insert
unplaced-known graph [] h v e = cc
unplaced-known graph ((k, w) ∷ m) h v e = elim (k ≟ h) [
  | yes q ↦ ground (arith, q)
  | no q ↦ ground (arith, unplaced-known graph m h v, q, e)
]

pub unplaced-le :
    (graph m : Map Hash Vertex) (h : Hash) (v : Vertex)
    → unplaced (Map.insert graph h v) m ≤ unplaced graph m
unplaced-le graph [] h v = omega arith
unplaced-le graph ((k, w) ∷ m) h v = ground (arith, unplaced-le graph m h v, get-insert graph h v k)

-- A known vertex that enters the graph.
pub unplaced-lt :
    (graph m : Map Hash Vertex) (h : Hash) (v : Vertex)
    → contains_key m h ≡ true
    → contains_key graph h ≡ false
    → unplaced (Map.insert graph h v) m < unplaced graph m
unfolding get
unplaced-lt graph [] h v e f = cc
unplaced-lt graph ((k, w) ∷ m) h v e f = elim (k ≟ h) [
  | yes q ↦ ground (arith, unplaced-le graph m h v, get-insert graph h v k, q, f)
  | no q ↦ ground (arith, unplaced-lt graph m h v, get-insert graph h v k, q, e, f)
]

-- An attempt to insert a vertex that can be submitted keeps the known vertices so.
pub IsKnown-outcome :
    (hash : Vertex → Hash) (dag : Dag) (vx : Vertex) (r : Dag × Result DagError (List Hash))
    → IsRaised vx
    → IsKnown hash dag.vertex
    → IsOutcome hash dag vx r
    → IsKnown hash r.0.vertex
IsKnown-outcome hash dag vx r raised k (accepted c x) =
    subst (IsKnown hash) (sym x.vertex) (IsKnown-insert hash dag.vertex vx raised k)
IsKnown-outcome hash dag vx r raised k (refused {e} c) = remembered e
  where
    remembered : (e : DagError) → IsKnown hash (on_error hash dag vx e).vertex
    remembered (missing_parents l) = IsKnown-insert hash dag.vertex vx raised k
    remembered (waiting_on_parents l) = IsKnown-insert hash dag.vertex vx raised k
    remembered e = k
