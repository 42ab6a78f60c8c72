-- ===== src/Constraint/Pairs.antt =====
-- The iterator yields every ordered pair, then the unities from the last vertex to the first.
use mathlib.Core.List.{reverse-append, reverse-reverse}
use mathlib.Core.List.{append_assoc}
use native.Mathlib.Numerals.{add-one}
use libtaurus.Prelude.{
  length-reverse, length-map, ◌==◌, if◌then◌else◌, ℕ-Key, ℕ, zero, suc, ◌+◌, ◌*◌, ◌≤◌, ◌<◌, ◌≡◌,
  refl, some, List, [], ◌∷◌, ◌++◌, map, reverse, arith, length, get_elem?, drop, drop-cons,
  length-append,
}
use libtaurus.Hash.{Hash}
use libtaurus.Constraint.{
  Constraint, Constraints, unity, pop, end, item, next, collect, new, rounds, constraints_of,
}

-- A specification: each vertex before each later one.
unfoldable pub pairs : List Hash → List Constraint
pairs [] = []
pairs (x ∷ xs) = map (λ y. record { left = x; right = y }) xs ++ pairs xs

abbrev pub unities : List Hash → List Constraint
unities vs = map unity (reverse vs)

data Yields : Constraints → List Constraint → Type 0 where
  stop : {s : Constraints} → next s ≡ end → Yields s []
  more :
      {s t : Constraints} {c : Constraint} {cs : List Constraint}
      → next s ≡ item c t
      → Yields t cs
      → Yields s (c ∷ cs)

collect-Yields :
    {s : Constraints} {cs : List Constraint} (fuel : ℕ)
    → Yields s cs
    → length cs < fuel
    → collect fuel s ≡ some cs
unfolding collect
collect-Yields zero y h = elim h [ ]
collect-Yields (suc fuel) (stop e) h = rw (e, collect)
collect-Yields (suc fuel) (more e y) h = rw (e, collect-Yields fuel y (omega arith), collect)

abbrev at : List Hash → ℕ → ℕ → Constraints
at vs i j = record { vertices = vs; idx1 = i; idx2 = j }

pop-concat : (xs : List Hash) (z : Hash) → pop (xs ++ z ∷ []) ≡ some (z, xs)
unfolding pop
pop-concat [] z = refl
pop-concat (x ∷ []) z = refl
pop-concat (x ∷ y ∷ xs) z = rw (pop-concat (y ∷ xs) z, pop)

next-unity :
    (xs : List Hash) (z : Hash) (i j : ℕ)
    → length xs ≤ i
    → next (at (xs ++ z ∷ []) i j) ≡ item (unity z) (at xs i j)
unfolding next
next-unity xs z i j h = ground (arith, pop-concat xs z, length-append xs (z ∷ []))

pop_rounds :
    (rs : List Hash) (i j : ℕ) → length rs ≤ i + 1 → Yields (at (reverse rs) i j) (map unity rs)
unfolding next pop
pop_rounds [] i j h = stop (ground arith)
pop_rounds (r ∷ rs) i j h =
    more
      (rw (reverse-append (r ∷ []) rs)
        (next-unity (reverse rs) r i j (omega (arith, length-reverse rs))))
      (pop_rounds rs i j (omega arith))

unity_rounds : (vs : List Hash) (i j : ℕ) → length vs ≤ i + 1 → Yields (at vs i j) (unities vs)
unity_rounds vs i j h =
    rw (reverse-reverse vs) at (pop_rounds (reverse vs) i j (omega (arith, length-reverse vs)))

next-pair :
    (vs : List Hash) (i j : ℕ) (x y : Hash)
    → get_elem? vs i ≡ some x
    → get_elem? vs j ≡ some y
    → i + 1 < length vs
    → next (at vs i j)
      ≡ item
          (record { left = x; right = y })
          (if j + 1 == length vs then at vs (i + 1) (i + 1 + 1) else at vs i (j + 1))
unfolding next
next-pair vs i j x y hx hy h = ground arith

row :
    (rest : List Hash) (y : Hash) (vs : List Hash) (i j : ℕ) (x : Hash) (cs : List Constraint)
    → get_elem? vs i ≡ some x
    → i + 1 < length vs
    → drop j vs ≡ y ∷ rest
    → Yields (at vs (i + 1) (i + 1 + 1)) cs
    → Yields (at vs i j) (map (λ z. record { left = x; right = z }) (y ∷ rest) ++ cs)
row [] y vs i j x cs hx hi hj k =
    let (hy, _, n) = drop-cons vs j y [] hj in
    more (ground (arith, next-pair vs i j x y hx hy hi)) k
row (z ∷ rest) y vs i j x cs hx hi hj k =
    let (hy, hz, n) = drop-cons vs j y (z ∷ rest) hj in
    more {t = at vs i (j + 1)} (ground (arith, next-pair vs i j x y hx hy hi))
      (row rest z vs i (j + 1) x cs hx hi (rw add-one hz) k)

rows :
    (xs : List Hash) (x : Hash) (vs : List Hash) (i : ℕ)
    → drop i vs ≡ x ∷ xs
    → Yields (at vs i (i + 1)) (pairs (x ∷ xs) ++ unities vs)
unfolding pairs
rows [] x vs i h = let (_, _, n) = drop-cons vs i x [] h in unity_rounds vs i (i + 1) (omega arith)
rows (y ∷ xs) x vs i h =
    let (hx, hy, n) = drop-cons vs i x (y ∷ xs) h in
    rw append_assoc (
      row xs y vs i (i + 1) x (pairs (y ∷ xs) ++ unities vs) hx (omega arith) (rw add-one hy)
        (rows xs y vs (i + 1) (rw add-one hy)))

all_rounds : (vs : List Hash) → Yields (new vs) (pairs vs ++ unities vs)
unfolding pairs
all_rounds [] = unity_rounds [] 0 1 (omega arith)
all_rounds (x ∷ xs) = rows xs x (x ∷ xs) 0 refl

length-pairs-le : (vs : List Hash) → length (pairs vs) ≤ length vs * length vs
unfolding pairs
length-pairs-le [] = omega arith
length-pairs-le (x ∷ xs) = grind (
  arith,
  length-pairs-le xs,
  length-append (map (λ y. record { left = x; right = y }) xs) (pairs xs),
  length-map {A = Hash} {B = Constraint} xs (λ y. record { left = x; right = y }),
)

-- The iterator over the constraints of `vs` ends within the rounds that `parent_constraints`
-- allows, reads no index out of bounds, and yields every vertex paired with each later one,
-- followed by the unities from the last vertex to the first.
pub collect-pairs : (vs : List Hash) → collect (rounds vs) (new vs) ≡ some (pairs vs ++ unities vs)
unfolding rounds
collect-pairs vs = collect-Yields (rounds vs) (all_rounds vs) (
    omega (
      arith,
      length-append (pairs vs) (unities vs),
      length-pairs-le vs,
      length-map (reverse vs) unity,
      length-reverse vs,
    ))

pub constraints_of_lem : (vs : List Hash) → constraints_of vs ≡ pairs vs ++ unities vs
unfolding constraints_of
constraints_of_lem vs = rw (collect-pairs vs, constraints_of)
