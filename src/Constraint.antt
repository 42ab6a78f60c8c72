-- ===== src/Constraint.antt =====
-- src/consensus/vertex.rs: ordering constraints, the keys of their conflict sets, and the iterator
-- over the constraints that a vertex commits to.
pub mod Keys
pub mod Pairs
pub mod Ends
use libtaurus.Prelude.{
  ℕ, zero, suc, ◌+◌, ◌≡◌, refl, ap, Bool, true, false, not, Option, none, some, List, [], ◌∷◌,
  if◌then◌else◌, ◌==◌, Key, ℕ-Key, leb, length, get_elem?, ◌*◌, ℕ_discrete,
}
use libtaurus.Hash.{Hash, Hash-Key, Hash-discrete, hash_lt}

-- `Constraint(left, right)`: the left vertex comes before the right.
pub record Constraint : Type 0 where
  pub left : Hash
  pub right : Hash

-- The array of 64 bytes, by its first and its last 32.
pub record ConflictSetKey : Type 0 where
  pub lt : Hash
  pub gt : Hash

unfoldable pub Constraint-discrete : Discrete Constraint
unfolding Hash-discrete
Constraint-discrete c d = both (Hash-discrete c.left d.left) (Hash-discrete c.right d.right)
  where
    both : Dec (c.left ≡ d.left) → Dec (c.right ≡ d.right) → Dec (c ≡ d)
    both (yes p) (yes q) = yes (λ i. record { left = p i; right = q i })
    both (yes p) (no q) = no (λ e. q (ap (λ x. x.right) e))
    both (no p) x = no (λ e. p (ap (λ x. x.left) e))

instance abbrev pub Constraint-Key : Key Constraint
Constraint-Key = record { dec = Constraint-discrete }

unfoldable pub ConflictSetKey-discrete : Discrete ConflictSetKey
unfolding Hash-discrete
ConflictSetKey-discrete c d = both (Hash-discrete c.lt d.lt) (Hash-discrete c.gt d.gt)
  where
    both : Dec (c.lt ≡ d.lt) → Dec (c.gt ≡ d.gt) → Dec (c ≡ d)
    both (yes p) (yes q) = yes (λ i. record { lt = p i; gt = q i })
    both (yes p) (no q) = no (λ e. q (ap (λ x. x.gt) e))
    both (no p) x = no (λ e. p (ap (λ x. x.lt) e))

instance abbrev pub ConflictSetKey-Key : Key ConflictSetKey
ConflictSetKey-Key = record { dec = ConflictSetKey-discrete }

-- `Constraint(vhash, vhash)`
abbrev pub unity : Hash → Constraint
unity vhash = record { left = vhash; right = vhash }

unfoldable pub conflict_set_key : Constraint → ConflictSetKey
conflict_set_key c =
    if hash_lt c.left c.right
    then record { lt = c.left; gt = c.right }
    else record { lt = c.right; gt = c.left }

abbrev pub is_unity : Constraint → Bool
is_unity c = c.left == c.right

unfoldable pub conflict : Constraint → Option Constraint
conflict c = if not (is_unity c) then some (record { left = c.right; right = c.left }) else none

-- `Constraints`, the iterator's state.
pub record Constraints : Type 0 where
  pub vertices : List Hash
  pub idx1 : ℕ
  pub idx2 : ℕ

abbrev pub new : List Hash → Constraints
new vertices = record { vertices = vertices; idx1 = 0; idx2 = 1 }

-- `Vec::pop`: the last element, and what is left.
unfoldable pub pop : List Hash → Option (Hash × List Hash)
pop [] = none
pop (x ∷ []) = some (x, [])
pop (x ∷ y ∷ xs) = elim (pop (y ∷ xs)) [ none ↦ none | some (z, rest) ↦ some (z, x ∷ rest) ]

-- What `next` did: it ended, it yielded an item, or an index was out of bounds.
pub data Step : Type 0 where
  end : Step
  item : Constraint → Constraints → Step
  out_of_bounds : Step

abbrev pop_unity : Option (Hash × List Hash) → Constraints → Step
pop_unity none s = end
pop_unity (some (vhash, rest)) s = item (unity vhash) (record s { vertices = rest })

abbrev pair_at : Option Hash → Option Hash → Constraints → Step
pair_at (some a) (some b) s =
    item (record { left = a; right = b })
      (if s.idx2 + 1 == length s.vertices
        then record s { idx1 = s.idx1 + 1; idx2 = s.idx1 + 1 + 1 }
        else record s { idx2 = s.idx2 + 1 })
pair_at _ _ s = out_of_bounds

-- `Iterator::next`
unfoldable pub next : Constraints → Step
unfolding pop
next s =
    if leb (length s.vertices) (s.idx1 + 1)
    then pop_unity (pop s.vertices) s
    else pair_at (get_elem? s.vertices s.idx1) (get_elem? s.vertices s.idx2) s

-- The iterator run to its end: `none` if an index is out of bounds or the rounds do not suffice.
unfoldable pub collect : ℕ → Constraints → Option (List Constraint)
unfolding next
collect zero s = none
collect (suc rounds) s = elim (next s) [
  | end ↦ some []
  | item c s' ↦ elim (collect rounds s') [ none ↦ none | some cs ↦ some (c ∷ cs) ]
  | out_of_bounds ↦ none
]

-- More rounds than the iterator has items.
unfoldable pub rounds : List Hash → ℕ
rounds vs = length vs * length vs + length vs + 1

-- All that `Constraints::new(vs)` yields.
unfoldable pub constraints_of : List Hash → List Constraint
unfolding collect rounds
constraints_of vs = elim (collect (rounds vs) (new vs)) [ none ↦ [] | some cs ↦ cs ]

abbrev hash_of : ℕ → Hash
hash_of n = record { bytes = n ∷ [] }

abbrev ordered : ℕ → ℕ → Constraint
ordered a b = record { left = hash_of a; right = hash_of b }

new_constraint_iter :
    constraints_of (hash_of 1 ∷ hash_of 2 ∷ hash_of 3 ∷ [])
    ≡ ordered 1 2 ∷ ordered 1 3 ∷ ordered 2 3 ∷ ordered 3 3 ∷ ordered 2 2 ∷ ordered 1 1 ∷ []
unfolding constraints_of ℕ_discrete
new_constraint_iter = refl
