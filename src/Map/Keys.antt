-- ===== src/Map/Keys.antt =====
-- The keys of a map: none stands twice, and each entry is the one that its key finds.
use libtaurus.Prelude.{
  ◌≡◌, refl, true, false, some, List, [], ◌∷◌, ite, arith, Key, ◌≟◌, contains, distinct, All,
}
use libtaurus.Map.{Map, get, insert, remove, contains_key}

module _ {K V : Type 0} ⦃key : Key K⦄ where
  abbrev pub keys : Map K V → List K
  keys [] = []
  keys ((k, v) ∷ m) = k ∷ keys m

  pub contains-keys : (m : Map K V) (k : K) → contains (keys m) k ≡ contains_key m k
  unfolding get
  contains-keys [] k = refl
  contains-keys ((j, v) ∷ m) k = ground (arith, contains-keys m k)

  contains-keys-insert :
      (m : Map K V) (k : K) (v : V) (j : K)
      → contains (keys (insert m k v)) j ≡ ite (k ≟ j) true (contains (keys m) j)
  unfolding insert
  contains-keys-insert [] k v j = refl
  contains-keys-insert ((i, w) ∷ m) k v j = ground (arith, contains-keys-insert m k v j)

  pub distinct-keys-insert :
      (m : Map K V) (k : K) (v : V)
      → distinct (keys m) ≡ true
      → distinct (keys (insert m k v)) ≡ true
  unfolding insert
  distinct-keys-insert [] k v d = refl
  distinct-keys-insert ((i, w) ∷ m) k v d =
      ground (arith, distinct-keys-insert m k v, contains-keys-insert m k v i)

  contains-keys-remove :
      (m : Map K V) (k j : K)
      → contains (keys (remove m k)) j ≡ ite (k ≟ j) false (contains (keys m) j)
  unfolding remove
  contains-keys-remove [] k j = ground arith
  contains-keys-remove ((i, w) ∷ m) k j = ground (arith, contains-keys-remove m k j)

  pub distinct-keys-remove :
      (m : Map K V) (k : K) → distinct (keys m) ≡ true → distinct (keys (remove m k)) ≡ true
  unfolding remove
  distinct-keys-remove [] k d = refl
  distinct-keys-remove ((i, w) ∷ m) k d =
      ground (arith, distinct-keys-remove m k, contains-keys-remove m k i)

  -- What holds of all that is found holds of all entries.
  pub All-entries {κ} :
      (P : K × V → Type κ) (m : Map K V)
      → distinct (keys m) ≡ true
      → ((k : K) (v : V) → get m k ≡ some v → P (k, v))
      → All P m
  unfolding get
  All-entries P [] d h = tt
  All-entries P ((k, v) ∷ m) d h = (
    h k v (ground arith),
    All-entries P m (ground (arith, d)) λ j w e. h j w (ground (arith, d, e, contains-keys m j)),
  )
