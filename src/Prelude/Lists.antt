-- ===== src/Prelude/Lists.antt =====
-- Lists measured by native numbers, and the iterator adaptors that the program uses.
use Prim.Native.Nat.{ℕ, zero, suc, ◌+◌, ◌≤◌}
use mathlib.Core.Path.{◌≡◌, refl, ap}
use mathlib.Core.Logic.{ite, ◌↔◌, inl, inr}
use mathlib.Core.Bool.{Bool, true, false, not, ◌&&◌, ◌||◌}
use mathlib.Core.List.{List, [], ◌∷◌, ◌++◌, map, reverse, reverse-append}
use mathlib.Core.Option.{Option, none, some}
use native.Mathlib.Omega.{arith}
use libtaurus.Prelude.Tests.{Key, ◌≟◌, if◌then◌else◌, leb, max, min, ℕ-Key, Option-cases}

module _ {ℓ} {A : Type ℓ} where
  abbrev pub length : List A → ℕ
  length [] = 0
  length (x ∷ xs) = suc (length xs)

  abbrev pub get_elem? : List A → ℕ → Option A
  get_elem? [] i = none
  get_elem? (x ∷ xs) zero = some x
  get_elem? (x ∷ xs) (suc i) = get_elem? xs i

  abbrev pub replicate : ℕ → A → List A
  replicate zero a = []
  replicate (suc n) a = a ∷ replicate n a

  abbrev pub any : (A → Bool) → List A → Bool
  any p [] = false
  any p (x ∷ xs) = p x || any p xs

  abbrev pub all : (A → Bool) → List A → Bool
  all p [] = true
  all p (x ∷ xs) = p x && all p xs

  unfoldable pub filter : (A → Bool) → List A → List A
  filter p [] = []
  filter p (x ∷ xs) = let rest = filter p xs in if p x then x ∷ rest else rest

  abbrev pub is_empty : List A → Bool
  is_empty [] = true
  is_empty (x ∷ xs) = false

  abbrev pub drop : ℕ → List A → List A
  drop zero xs = xs
  drop (suc n) [] = []
  drop (suc n) (x ∷ xs) = drop n xs

  abbrev pub take : ℕ → List A → List A
  take zero xs = []
  take (suc n) [] = []
  take (suc n) (x ∷ xs) = x ∷ take n xs

  -- What stands at the head of a tail.
  pub drop-cons :
      (vs : List A) (i : ℕ) (x : A) (xs : List A)
      → drop i vs ≡ x ∷ xs
      → (get_elem? vs i ≡ some x) × (drop (suc i) vs ≡ xs) × (length vs ≡ i + 1 + length xs)
  drop-cons [] zero x xs h = cc
  drop-cons [] (suc i) x xs h = cc
  drop-cons (v ∷ vs) zero x xs h = ground arith
  drop-cons (v ∷ vs) (suc i) x xs h = ground (arith, drop-cons vs i x xs h)

  pub length-append : (xs ys : List A) → length (xs ++ ys) ≡ length xs + length ys
  length-append [] ys = omega arith
  length-append (x ∷ xs) ys = omega (arith, length-append xs ys)

  pub length-reverse : (xs : List A) → length (reverse xs) ≡ length xs
  length-reverse [] = refl
  length-reverse (x ∷ xs) =
      rw (reverse-append (x ∷ []) xs)
        (omega (arith, length-append (reverse xs) (x ∷ []), length-reverse xs))

pub length-map {ℓ κ} :
    {A : Type ℓ} {B : Type κ} (xs : List A) (f : A → B) → length (map f xs) ≡ length xs
length-map [] f = refl
length-map (x ∷ xs) f = ap suc (length-map xs f)

unfoldable pub flat_map {ℓ κ} : {A : Type ℓ} {B : Type κ} → (A → List B) → List A → List B
flat_map f [] = []
flat_map f (x ∷ xs) = f x ++ flat_map f xs

-- `Iterator::max` and `itertools::min`.
unfoldable pub maximum : List ℕ → Option ℕ
maximum [] = none
maximum (x ∷ xs) = elim (maximum xs) [ none ↦ some x | some m ↦ some (max x m) ]

unfoldable pub minimum : List ℕ → Option ℕ
minimum [] = none
minimum (x ∷ xs) = elim (minimum xs) [ none ↦ some x | some m ↦ some (min x m) ]

-- `sorted_by(|a, b| Ord::cmp(&key(a), &key(b)))`: a stable sort.
module _ {ℓ} {A : Type ℓ} (key : A → ℕ) where
  unfoldable pub insert_by : A → List A → List A
  insert_by x [] = x ∷ []
  insert_by x (y ∷ ys) =
      let rest = insert_by x ys in if leb (key x) (key y) then x ∷ y ∷ ys else y ∷ rest

  unfoldable pub sorted_by : List A → List A
  unfolding insert_by
  sorted_by [] = []
  sorted_by (x ∷ xs) = insert_by x (sorted_by xs)

module _ {ℓ} {A : Type ℓ} ⦃k : Key A⦄ where
  abbrev pub contains : List A → A → Bool
  contains [] a = false
  contains (x ∷ xs) a = ite (x ≟ a) true (contains xs a)

  -- `==` of two vectors.
  abbrev pub same_list : List A → List A → Bool
  same_list [] [] = true
  same_list (x ∷ xs) (y ∷ ys) = ite (x ≟ y) (same_list xs ys) false
  same_list _ _ = false

  -- `HashSet::insert`
  unfoldable pub insert : A → List A → List A
  insert a xs = if contains xs a then xs else xs ++ a ∷ []

  unfoldable pub insert_all : List A → List A → List A
  unfolding insert
  insert_all acc [] = acc
  insert_all acc (x ∷ xs) = insert_all (insert x acc) xs

  -- `Itertools::unique`, and `collect::<HashSet<_>>()`: the first of each group of equals.
  abbrev pub unique : List A → List A
  unique xs = insert_all [] xs

  pub contains-append :
      (xs ys : List A) (a : A) → contains (xs ++ ys) a ≡ (contains xs a || contains ys a)
  contains-append [] ys a = refl
  contains-append (x ∷ xs) ys a = ground (arith, contains-append xs ys a)

  pub contains-insert :
      (x : A) (xs : List A) (a : A)
      → contains (insert x xs) a ≡ (contains xs a || ite (x ≟ a) true false)
  unfolding insert
  contains-insert x xs a = ground (arith, contains-append xs (x ∷ []) a)

  pub contains-insert_all :
      (acc xs : List A) (a : A) → contains (insert_all acc xs) a ≡ (contains acc a || contains xs a)
  unfolding insert_all
  contains-insert_all acc [] a = ground arith
  contains-insert_all acc (x ∷ xs) a =
      ground (arith, contains-insert_all (insert x acc) xs a, contains-insert x acc a)

  pub contains-unique : (xs : List A) (a : A) → contains (unique xs) a ≡ contains xs a
  contains-unique xs a = ground (arith, contains-insert_all [] xs a)

  pub contains-filter :
      (p : A → Bool) (xs : List A) (a : A) → contains (filter p xs) a ≡ (contains xs a && p a)
  unfolding filter
  contains-filter p [] a = refl
  contains-filter p (x ∷ xs) a = ground (arith, contains-filter p xs a)

  -- No element twice.
  abbrev pub distinct : List A → Bool
  distinct [] = true
  distinct (x ∷ xs) = not (contains xs x) && distinct xs

  pub distinct-append :
      (xs : List A) (x : A)
      → distinct xs ≡ true
      → contains xs x ≡ false
      → distinct (xs ++ x ∷ []) ≡ true
  distinct-append [] x d n = refl
  distinct-append (y ∷ xs) x d n =
      ground (arith, distinct-append xs x, contains-append xs (x ∷ []) y)

  pub distinct-insert_all :
      (acc xs : List A) → distinct acc ≡ true → distinct (insert_all acc xs) ≡ true
  unfolding insert_all insert
  distinct-insert_all acc [] d = d
  distinct-insert_all acc (x ∷ xs) d =
      distinct-insert_all (insert x acc) xs (ground (arith, distinct-append acc x))

  pub length-insert :
      (x : A) (xs : List A)
      → length (insert x xs) ≡ (if contains xs x then length xs else length xs + 1)
  unfolding insert
  length-insert x xs = ground (arith, length-append xs (x ∷ []))

  pub length-insert_all-le : (acc xs : List A) → length (insert_all acc xs) ≤ length acc + length xs
  unfolding insert_all
  length-insert_all-le acc [] = omega arith
  length-insert_all-le acc (x ∷ xs) =
      ground (arith, length-insert_all-le (insert x acc) xs, length-insert x acc)

  -- The elements are distinct and new exactly when none is dropped.
  pub distinct_of_length :
      (acc xs : List A)
      → length (insert_all acc xs) ≡ length acc + length xs
      → (distinct xs ≡ true) × ((a : A) → contains xs a ≡ true → contains acc a ≡ false)
  unfolding insert_all
  distinct_of_length acc [] h = (refl, λ a m. cc)
  distinct_of_length acc (x ∷ xs) h =
      let fresh : contains acc x ≡ false =
        ground (arith, length-insert_all-le (insert x acc) xs, length-insert x acc) in
      let (d, new) = distinct_of_length (insert x acc) xs (ground (arith, length-insert x acc)) in
      (
        ground (arith, new x, contains-insert x acc x),
        λ a m. ground (arith, new a, contains-insert x acc a),
      )

  pub length_of_distinct :
      (acc xs : List A)
      → distinct xs ≡ true
      → ((a : A) → contains xs a ≡ true → contains acc a ≡ false)
      → length (insert_all acc xs) ≡ length acc + length xs
  unfolding insert_all
  length_of_distinct acc [] d new = omega arith
  length_of_distinct acc (x ∷ xs) d new = ground (
    arith,
    new x,
    length-insert x acc,
    length_of_distinct (insert x acc) xs (ground arith)
        (λ a m. ground (arith, new a, contains-insert x acc a)),
  )

  pub unique_iff : (xs : List A) → (length (unique xs) ≡ length xs) ↔ (distinct xs ≡ true)
  unique_iff xs = (
    λ h. (distinct_of_length [] xs (omega arith)).0,
    λ d. omega (arith, length_of_distinct [] xs d (λ a m. refl)),
  )

pub maximum-none : (xs : List ℕ) (x : ℕ) → maximum xs ≡ none → contains xs x ≡ false
unfolding maximum
maximum-none [] x h = refl
maximum-none (y ∷ ys) x h = ground arith

-- A maximum bounds the list, and stands in it.
pub le-maximum : (xs : List ℕ) (m x : ℕ) → maximum xs ≡ some m → contains xs x ≡ true → x ≤ m
unfolding maximum
le-maximum [] m x h c = cc
le-maximum (y ∷ ys) m x h c = elim (Option-cases (maximum ys)) [
  | inl e ↦ ground (arith, maximum-none ys x e)
  | inr (k, e) ↦ ground (arith, le-maximum ys k x e)
]

pub maximum-mem : (xs : List ℕ) (m : ℕ) → maximum xs ≡ some m → contains xs m ≡ true
unfolding maximum
maximum-mem [] m h = cc
maximum-mem (y ∷ ys) m h = elim (Option-cases (maximum ys)) [
  | inl e ↦ ground arith
  | inr (k, e) ↦ ground (arith, maximum-mem ys k e)
]
