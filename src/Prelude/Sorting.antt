-- ===== src/Prelude/Sorting.antt =====
-- What a sort keeps, and that it sorts.
use mathlib.Core.Path.{◌≡◌, refl}
use mathlib.Core.Bool.{Bool, true, false}
use mathlib.Core.List.{List, [], ◌∷◌, map}
use native.Mathlib.Omega.{arith}
use Prim.Native.Nat.{ℕ, ◌≤◌}
use libtaurus.Prelude.Tests.{Key, if◌then◌else◌, leb}
use libtaurus.Prelude.Lists.{contains, distinct, insert_by, sorted_by}

module _ {ℓ} {A : Type ℓ} (key : A → ℕ) where
  -- The first element is not above any of the list.
  abbrev pub IsLeast : ℕ → List A → Type 0
  IsLeast n [] = Unit {0}
  IsLeast n (x ∷ xs) = (n ≤ key x) × IsLeast n xs

  -- The keys ascend.
  abbrev pub IsAscending : List A → Type 0
  IsAscending [] = Unit {0}
  IsAscending (x ∷ xs) = IsLeast (key x) xs × IsAscending xs

  IsLeast-trans : (m n : ℕ) (xs : List A) → m ≤ n → IsLeast n xs → IsLeast m xs
  IsLeast-trans m n [] h p = tt
  IsLeast-trans m n (x ∷ xs) h (p, ps) = (omega (arith, h, p), IsLeast-trans m n xs h ps)

  IsLeast-insert_by :
      (n : ℕ) (x : A) (xs : List A) → n ≤ key x → IsLeast n xs → IsLeast n (insert_by key x xs)
  unfolding insert_by
  IsLeast-insert_by n x [] h p = (h, tt)
  IsLeast-insert_by n x (y ∷ ys) h (p, ps) =
      place (leb (key x) (key y)) (IsLeast-insert_by n x ys h ps)
    where
      place :
          (t : Bool)
          → IsLeast n (insert_by key x ys)
          → IsLeast n (if t then x ∷ y ∷ ys else y ∷ insert_by key x ys)
      place true r = (h, (p, ps))
      place false r = (p, r)

  IsAscending-insert_by : (x : A) (xs : List A) → IsAscending xs → IsAscending (insert_by key x xs)
  unfolding insert_by
  IsAscending-insert_by x [] p = (tt, tt)
  IsAscending-insert_by x (y ∷ ys) (p, ps) =
      place (leb (key x) (key y)) refl (IsAscending-insert_by x ys ps)
    where
      place :
          (t : Bool)
          → leb (key x) (key y) ≡ t
          → IsAscending (insert_by key x ys)
          → IsAscending (if t then x ∷ y ∷ ys else y ∷ insert_by key x ys)
      place true e r =
          let below : key x ≤ key y = ground (arith, e) in
          ((below, IsLeast-trans (key x) (key y) ys below p), (p, ps))
      place false e r = (IsLeast-insert_by (key y) x ys (ground (arith, e)) p, r)

  -- A sorted list ascends.
  pub sorted_by-IsAscending : (xs : List A) → IsAscending (sorted_by key xs)
  unfolding sorted_by
  sorted_by-IsAscending [] = tt
  sorted_by-IsAscending (x ∷ xs) =
      IsAscending-insert_by x (sorted_by key xs) (sorted_by-IsAscending xs)

  -- The images of the elements stay.
  module _ {κ} {B : Type κ} ⦃k : Key B⦄ (f : A → B) where
    contains-map-insert_by :
        (x : A) (xs : List A) (b : B)
        → contains (map f (insert_by key x xs)) b ≡ contains (map f (x ∷ xs)) b
    unfolding insert_by
    contains-map-insert_by x [] b = refl
    contains-map-insert_by x (y ∷ ys) b =
        place (leb (key x) (key y)) (contains-map-insert_by x ys b)
      where
        place :
            (t : Bool)
            → contains (map f (insert_by key x ys)) b ≡ contains (map f (x ∷ ys)) b
            → contains (map f (if t then x ∷ y ∷ ys else y ∷ insert_by key x ys)) b
              ≡ contains (map f (x ∷ y ∷ ys)) b
        place true r = refl
        place false r = ground (arith, r)

    pub contains-map-sorted_by :
        (xs : List A) (b : B) → contains (map f (sorted_by key xs)) b ≡ contains (map f xs) b
    unfolding sorted_by
    contains-map-sorted_by [] b = refl
    contains-map-sorted_by (x ∷ xs) b =
        ground (arith, contains-map-insert_by x (sorted_by key xs) b, contains-map-sorted_by xs b)

    distinct-map-insert_by :
        (x : A) (xs : List A) → distinct (map f (insert_by key x xs)) ≡ distinct (map f (x ∷ xs))
    unfolding insert_by
    distinct-map-insert_by x [] = refl
    distinct-map-insert_by x (y ∷ ys) =
        place (leb (key x) (key y)) (distinct-map-insert_by x ys)
          (contains-map-insert_by x ys (f y))
      where
        place :
            (t : Bool)
            → distinct (map f (insert_by key x ys)) ≡ distinct (map f (x ∷ ys))
            → contains (map f (insert_by key x ys)) (f y) ≡ contains (map f (x ∷ ys)) (f y)
            → distinct (map f (if t then x ∷ y ∷ ys else y ∷ insert_by key x ys))
              ≡ distinct (map f (x ∷ y ∷ ys))
        place true r c = refl
        place false r c = ground (arith, r, c)

    pub distinct-map-sorted_by :
        (xs : List A) → distinct (map f (sorted_by key xs)) ≡ distinct (map f xs)
    unfolding sorted_by
    distinct-map-sorted_by [] = refl
    distinct-map-sorted_by (x ∷ xs) = ground (
      arith,
      distinct-map-insert_by x (sorted_by key xs),
      distinct-map-sorted_by xs,
      contains-map-sorted_by xs (f x),
    )
