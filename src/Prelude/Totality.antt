-- ===== src/Prelude/Totality.antt =====
-- Calls that do not panic, with what holds of the values that they return; and predicates of the
-- elements of a list.
use mathlib.Core.Path.{◌≡◌, refl, ap, subst}
use mathlib.Core.Logic.{◌≢◌}
use mathlib.Core.Bool.{Bool, true, false}
use mathlib.Core.List.{List, [], ◌∷◌, ◌++◌, map}
use native.Mathlib.Omega.{arith}
use Prim.Native.Nat.{ℕ, suc}
use libtaurus.Prelude.Tests.{Key, ◌≟◌, if◌then◌else◌, leb}
use libtaurus.Prelude.Lists.{
  contains, filter, flat_map, insert, insert_all, insert_by, sorted_by, length,
}
use libtaurus.Prelude.Outcome.{
  Result, ok, err, panic, ok-injective, ◌>>=◌, map_err, try_map, try_fold,
}

-- Every element satisfies the predicate.
abbrev pub All {ℓ κ} : {A : Type ℓ} → (A → Type κ) → List A → Type κ
All P [] = Unit
All P (x ∷ xs) = P x × All P xs

module _ {ℓ κ} {A : Type ℓ} (P : A → Type κ) where
  pub All-append : (xs ys : List A) → All P xs → All P ys → All P (xs ++ ys)
  All-append [] ys p q = q
  All-append (x ∷ xs) ys (p, ps) q = (p, All-append xs ys ps q)

  pub All-filter : (b : A → Bool) (xs : List A) → All P xs → All P (filter b xs)
  unfolding filter
  All-filter b [] p = p
  All-filter b (x ∷ xs) (p, ps) = keep (b x) (All-filter b xs ps)
    where
      keep : (t : Bool) → All P (filter b xs) → All P (if t then x ∷ filter b xs else filter b xs)
      keep true q = (p, q)
      keep false q = q

  pub All-insert_by :
      (key : A → ℕ) (x : A) (xs : List A) → P x → All P xs → All P (insert_by key x xs)
  unfolding insert_by
  All-insert_by key x [] p q = (p, q)
  All-insert_by key x (y ∷ ys) p (q, qs) = place (leb (key x) (key y)) (All-insert_by key x ys p qs)
    where
      place :
          (t : Bool)
          → All P (insert_by key x ys)
          → All P (if t then x ∷ y ∷ ys else y ∷ insert_by key x ys)
      place true r = (p, (q, qs))
      place false r = (q, r)

  pub All-sorted_by : (key : A → ℕ) (xs : List A) → All P xs → All P (sorted_by key xs)
  unfolding sorted_by
  All-sorted_by key [] p = p
  All-sorted_by key (x ∷ xs) (p, ps) =
      All-insert_by key x (sorted_by key xs) p (All-sorted_by key xs ps)

  pub All-insert : ⦃k : Key A⦄ (x : A) (xs : List A) → P x → All P xs → All P (insert x xs)
  unfolding insert
  All-insert x xs p ps = place (contains xs x)
    where
      place : (t : Bool) → All P (if t then xs else xs ++ x ∷ [])
      place true = ps
      place false = All-append xs (x ∷ []) ps (p, tt)

  pub All-insert_all :
      ⦃k : Key A⦄ (acc xs : List A) → All P acc → All P xs → All P (insert_all acc xs)
  unfolding insert_all
  All-insert_all acc [] p q = p
  All-insert_all acc (x ∷ xs) p (q, qs) = All-insert_all (insert x acc) xs (All-insert x acc q p) qs

  -- The elements of a list, by membership.
  pub All-of_contains :
      ⦃k : Key A⦄ (xs : List A) → ((a : A) → contains xs a ≡ true → P a) → All P xs
  All-of_contains [] h = tt
  All-of_contains (x ∷ xs) h =
      (h x (ground arith), All-of_contains xs (λ a c. h a (ground (arith, c))))

  pub contains-All : ⦃k : Key A⦄ (xs : List A) (a : A) → All P xs → contains xs a ≡ true → P a
  contains-All [] a p c = cc
  contains-All (x ∷ xs) a (p, ps) c = elim (x ≟ a) [
    | yes e ↦ subst P e p
    | no n ↦ contains-All xs a ps (ground (arith, c, n))
  ]

pub All-map {ℓ κ μ} :
    {A : Type ℓ} {B : Type κ} (P : B → Type μ) (f : A → B) (xs : List A)
    → All (λ a. P (f a)) xs
    → All P (map f xs)
All-map P f [] p = p
All-map P f (x ∷ xs) (p, ps) = (p, All-map P f xs ps)

pub All-weaken {ℓ κ μ} :
    {A : Type ℓ} (P : A → Type κ) (Q : A → Type μ) (xs : List A)
    → ((a : A) → P a → Q a)
    → All P xs
    → All Q xs
All-weaken P Q [] f p = tt
All-weaken P Q (x ∷ xs) f (p, ps) = (f x p, All-weaken P Q xs f ps)

pub All-flat_map {ℓ κ μ} :
    {A : Type ℓ} {B : Type κ} (P : B → Type μ) (f : A → List B) (xs : List A)
    → All (λ a. All P (f a)) xs
    → All P (flat_map f xs)
unfolding flat_map
All-flat_map P f [] p = p
All-flat_map P f (x ∷ xs) (p, ps) = All-append P (f x) (flat_map f xs) p (All-flat_map P f xs ps)

-- A call that does not panic, and whose value satisfies `P` if there is one.
pub data Returns {ℓ κ μ} {E : Type ℓ} {A : Type κ} (P : A → Type μ)
    : Result E A → Type (ℓ ⊔ κ ⊔ μ) where
  returns : {a : A} → P a → Returns P (ok a)
  fails : {e : E} → Returns P (err e)

module _ {ℓ κ μ} {E : Type ℓ} {A : Type κ} {P : A → Type μ} where
  pub Returns-panic : {r : Result E A} → Returns P r → r ≢ panic
  Returns-panic (returns p) e = cc
  Returns-panic fails e = cc

  pub Returns-ok : {r : Result E A} {a : A} → Returns P r → r ≡ ok a → P a
  Returns-ok {r} {a} (returns p) e = subst P (ok-injective e) p
  Returns-ok fails e = cc

pub Returns-bind {ℓ κ μ ν ξ} :
    {E : Type ℓ} {A : Type κ} {B : Type μ} {P : A → Type ν} {Q : B → Type ξ} {m : Result E A}
    {f : A → Result E B}
    → Returns P m
    → ((a : A) → P a → Returns Q (f a))
    → Returns Q (m >>= f)
Returns-bind (returns {a} p) k = k a p
Returns-bind fails k = fails

pub Returns-weaken {ℓ κ μ ν} :
    {E : Type ℓ} {A : Type κ} {P : A → Type μ} {Q : A → Type ν} {r : Result E A}
    → Returns P r
    → ((a : A) → P a → Q a)
    → Returns Q r
Returns-weaken (returns {a} p) k = returns (k a p)
Returns-weaken fails k = fails

pub Returns-map_err {ℓ κ μ ν} :
    {E : Type ℓ} {F : Type κ} {A : Type μ} {P : A → Type ν} (f : E → F) {r : Result E A}
    → Returns P r
    → Returns P (map_err f r)
Returns-map_err f (returns p) = returns p
Returns-map_err f fails = fails

-- A guard.
pub Returns-if {ℓ κ μ} :
    {E : Type ℓ} {A : Type κ} {P : A → Type μ} (b : Bool) (e : E) {r : Result E A}
    → (b ≡ false → Returns P r)
    → Returns P (if b then err e else r)
Returns-if true e k = fails
Returns-if false e k = k refl

-- The results of a list, as many as its elements.
pub Returns-try_map {ℓ κ μ ν ξ} :
    {E : Type ℓ} {A : Type κ} {B : Type μ} (P : A → Type ν) (Q : B → Type ξ) (f : A → Result E B)
    → ((a : A) → P a → Returns Q (f a))
    → (xs : List A) → All P xs
    → Returns (λ ys. All Q ys × (length ys ≡ length xs)) (try_map f xs)
unfolding try_map
Returns-try_map P Q f k [] p = returns (tt, refl)
Returns-try_map P Q f k (x ∷ xs) (p, ps) =
    Returns-bind (k x p)
      λ y q. Returns-bind (Returns-try_map P Q f k xs ps) λ ys qs. returns ((q, qs.0), ap suc qs.1)

-- A loop over a state that keeps an invariant.
pub Returns-try_fold {ℓ κ μ ν ξ} :
    {E : Type ℓ} {A : Type κ} {S : Type μ} (P : A → Type ν) (I : S → Type ξ)
    (f : S → A → Result E S)
    → ((s : S) (a : A) → P a → I s → Returns I (f s a))
    → (xs : List A) (s : S) → All P xs
    → I s
    → Returns I (try_fold f s xs)
unfolding try_fold
Returns-try_fold P I f k [] s p i = returns i
Returns-try_fold P I f k (x ∷ xs) s (p, ps) i =
    Returns-bind (k s x p i) λ t j. Returns-try_fold P I f k xs t ps j

pub Returns-try_fold_append {ℓ κ μ ν ξ} :
    {E : Type ℓ} {A : Type κ} {S : Type μ} {P : S → Type ν} {Q : S → Type ξ}
    (f : S → A → Result E S) (s : S) (xs ys : List A)
    → Returns P (try_fold f s xs)
    → ((t : S) → P t → Returns Q (try_fold f t ys))
    → Returns Q (try_fold f s (xs ++ ys))
unfolding try_fold
Returns-try_fold_append f s [] ys (returns p) k = k s p
Returns-try_fold_append {P = P} {Q = Q} f s (x ∷ xs) ys r k =
    step (f s x) (λ t r'. Returns-try_fold_append f t xs ys r' k) r
  where
    step :
        (m : Result _ _)
        → ((t : _) → Returns P (try_fold f t xs) → Returns Q (try_fold f t (xs ++ ys)))
        → Returns P (m >>= λ t. try_fold f t xs)
        → Returns Q (m >>= λ t. try_fold f t (xs ++ ys))
    step (ok t) rest r' = rest t r'
    step (err e) rest r' = fails
    step panic rest r' = absurd (Returns-panic r' refl)
