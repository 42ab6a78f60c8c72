-- ===== src/Constraint/Ends.antt =====
-- The vertices that the constraints of a vertex are on.
use libtaurus.Prelude.{
  ◌≡◌, refl, true, List, [], ◌∷◌, map, reverse, arith, contains, contains-append, All, All-append,
  All-map, All-of_contains, All-weaken,
}
use mathlib.Core.List.{reverse-append}
use libtaurus.Hash.{Hash, Hash-Key}
use libtaurus.Constraint.{Constraint, unity, constraints_of}
use libtaurus.Constraint.Pairs.{pairs, unities, constraints_of_lem}

-- Both vertices of the constraint are in the list.
pub record IsOn (vs : List Hash) (c : Constraint) : Type 0 where
  pub left : contains vs c.left ≡ true
  pub right : contains vs c.right ≡ true

contains-reverse : (xs : List Hash) (a : Hash) → contains (reverse xs) a ≡ contains xs a
contains-reverse [] a = refl
contains-reverse (x ∷ xs) a =
    rw (reverse-append (x ∷ []) xs)
      (ground (arith, contains-append (reverse xs) (x ∷ []) a, contains-reverse xs a))

pairs-IsOn : (vs : List Hash) → All (IsOn vs) (pairs vs)
unfolding pairs
pairs-IsOn [] = tt
pairs-IsOn (x ∷ xs) =
    All-append (IsOn (x ∷ xs)) (map (λ y. record { left = x; right = y }) xs) (pairs xs)
      (All-map (IsOn (x ∷ xs)) (λ y. record { left = x; right = y }) xs
        (All-of_contains (λ y. IsOn (x ∷ xs) (record { left = x; right = y })) xs
          λ y c. record { left = ground arith; right = ground (arith, c) }))
      (All-weaken (IsOn xs) (IsOn (x ∷ xs)) (pairs xs)
        (λ c o. record { left = ground (arith, o.left); right = ground (arith, o.right) })
        (pairs-IsOn xs))

pub constraints_of-IsOn : (vs : List Hash) → All (IsOn vs) (constraints_of vs)
constraints_of-IsOn vs = rw (constraints_of_lem vs) (
    All-append (IsOn vs) (pairs vs) (unities vs) (pairs-IsOn vs) (
      All-map (IsOn vs) unity (reverse vs) (
        All-of_contains (λ v. IsOn vs (unity v)) (reverse vs)
          λ v c. record {
            left = ground (arith, contains-reverse vs v, c);
            right = ground (arith, contains-reverse vs v, c);
          })))
