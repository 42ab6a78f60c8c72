-- ===== src/Dag/Ledger.antt =====
-- What the DAG is to its users: vertices in the order in which they were placed, each on vertices that
-- were placed before and are lower, and the queries that were answered. A query waits from the time its
-- vertex is placed until it is answered.
use libtaurus.Prelude.{
  ◌<◌, ◌≡◌, Bool, true, not, ◌&&◌, Option, none, some, List, [], ◌∷◌, ite, arith, ◌≟◌, ◌==◌, any,
  contains, Bool-cases, inl, inr,
}
use libtaurus.Map.{is_some}
use libtaurus.Hash.{Hash, Hash-Key}
use libtaurus.Vertex.{Vertex}

-- The vertices that were placed and the hashes that were answered, the last ones first.
pub record Ledger : Type 0 where
  pub placed : List Vertex
  pub answered : List Hash

abbrev pub is_parent : List Vertex → Hash → Bool
is_parent placed h = any (λ v. contains v.parents h) placed

module _ (hash : Vertex → Hash) where
  unfoldable pub find : List Vertex → Hash → Option Vertex
  find [] h = none
  find (v ∷ vs) h = ite (hash v ≟ h) (some v) (find vs h)

  -- A placed vertex that no placed vertex is on.
  abbrev pub is_tip : List Vertex → Hash → Bool
  is_tip placed h = is_some (find placed h) && not (is_parent placed h)

  abbrev pub place : Ledger → Vertex → Ledger
  place l vx = record l { placed = vx ∷ l.placed }

  abbrev pub answer : Ledger → Hash → Ledger
  answer l h = record l { answered = h ∷ l.answered }

  -- A placed vertex other than the genesis that was not answered.
  abbrev pub is_waiting : Vertex → Ledger → Hash → Bool
  is_waiting genesis l h =
      is_some (find l.placed h) && (not (h == hash genesis) && not (contains l.answered h))

  -- The ledgers that can come of the genesis vertex.
  pub data Admits (genesis : Vertex) : Ledger → Type 0 where
    founded : Admits genesis (record { placed = genesis ∷ []; answered = [] })
    on_parents :
        {l : Ledger} (vx : Vertex)
        → find l.placed (hash vx) ≡ none
        → ((p : Hash)
            → contains vx.parents p ≡ true
            → (u : Vertex) × (find l.placed p ≡ some u) × (u.height < vx.height))
        → Admits genesis l
        → Admits genesis (place l vx)
    settled :
        {l : Ledger} (h : Hash)
        → is_waiting genesis l h ≡ true
        → Admits genesis l
        → Admits genesis (answer l h)

  -- The parents of placed vertices are placed.
  pub Admits-closed :
      (genesis : Vertex) (l : Ledger) (h : Hash)
      → genesis.parents ≡ []
      → Admits genesis l
      → is_parent l.placed h ≡ true
      → is_some (find l.placed h) ≡ true
  unfolding find
  Admits-closed genesis l h root founded e = ground (arith, root, e)
  Admits-closed genesis _ h root (on_parents {l} vx fresh below a) e =
      elim (Bool-cases (contains vx.parents h)) [
        | inl c ↦ let (u, f, _) = below h c in ground (arith, f)
        | inr c ↦ ground (arith, Admits-closed genesis l h root a, e, c)
      ]
  Admits-closed genesis l h root (settled k c a) e = Admits-closed genesis _ h root a e

  -- The genesis vertex stays placed.
  pub Admits-genesis :
      (genesis : Vertex) (l : Ledger)
      → Admits genesis l
      → is_some (find l.placed (hash genesis)) ≡ true
  unfolding find
  Admits-genesis genesis l founded = ground arith
  Admits-genesis genesis _ (on_parents {l} vx fresh below a) =
      ground (arith, Admits-genesis genesis l a)
  Admits-genesis genesis _ (settled {l} k c a) = Admits-genesis genesis l a

  -- What was answered was placed.
  pub Admits-answered :
      (genesis : Vertex) (l : Ledger) (h : Hash)
      → Admits genesis l
      → contains l.answered h ≡ true
      → is_some (find l.placed h) ≡ true
  unfolding find
  Admits-answered genesis l h founded e = ground (arith, e)
  Admits-answered genesis _ h (on_parents {l} vx fresh below a) e =
      ground (arith, Admits-answered genesis l h a e)
  Admits-answered genesis _ h (settled {l} k c a) e = elim (Bool-cases (k == h)) [
    | inl same ↦ ground (arith, same, c)
    | inr other ↦ Admits-answered genesis l h a (ground (arith, e, other))
  ]
