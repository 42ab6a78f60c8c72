-- ===== src/Map.antt =====
-- `std::collections::HashMap`: an association list. The order in which a map is iterated is not
-- specified; here it is the order in which the keys were first inserted.
pub mod Keys
use libtaurus.Prelude.{
  suc, ◌≡◌, refl, Bool, true, false, Option, none, some, List, [], ◌∷◌, ite, arith, Key, ◌≟◌,
  if◌then◌else◌, length,
}

abbrev pub Map {ℓ κ} : Type ℓ → Type κ → Type (ℓ ⊔ κ)
Map K V = List (K × V)

abbrev pub is_some {ℓ} : {A : Type ℓ} → Option A → Bool
is_some none = false
is_some (some a) = true

module _ {ℓ} {K V : Type ℓ} ⦃key : Key K⦄ where
  unfoldable pub get : Map K V → K → Option V
  get [] k = none
  get ((j, v) ∷ m) k = ite (j ≟ k) (some v) (get m k)

  unfoldable pub insert : Map K V → K → V → Map K V
  insert [] k v = (k, v) ∷ []
  insert ((j, w) ∷ m) k v = ite (j ≟ k) ((k, v) ∷ m) ((j, w) ∷ insert m k v)

  unfoldable pub remove : Map K V → K → Map K V
  remove [] k = []
  remove ((j, w) ∷ m) k = let rest = remove m k in ite (j ≟ k) rest ((j, w) ∷ rest)

  abbrev pub contains_key : Map K V → K → Bool
  contains_key m k = is_some (get m k)

  -- `try_insert(k, v)`, its result ignored: an entry that is there stays.
  unfoldable pub try_insert : Map K V → K → V → Map K V
  unfolding get insert
  try_insert m k v = if contains_key m k then m else insert m k v

  pub get-nil : (k : K) → ◌≡◌ {A = Option V} (get [] k) none
  unfolding get
  get-nil k = refl

  pub get-insert :
      (m : Map K V) (k : K) (v : V) (j : K) → get (insert m k v) j ≡ ite (k ≟ j) (some v) (get m j)
  unfolding get insert
  get-insert [] k v j = refl
  get-insert ((i, w) ∷ m) k v j = ground (arith, get-insert m k v j)

  pub get-remove : (m : Map K V) (k j : K) → get (remove m k) j ≡ ite (k ≟ j) none (get m j)
  unfolding get remove
  get-remove [] k j = ground arith
  get-remove ((i, w) ∷ m) k j = ground (arith, get-remove m k j)

  pub get-try_insert :
      (m : Map K V) (k : K) (v : V) (j : K)
      → get (try_insert m k v) j
        ≡ (if contains_key m k then get m j else ite (k ≟ j) (some v) (get m j))
  unfolding try_insert
  get-try_insert m k v j = ground (arith, get-insert m k v j)

  pub get-insert_self : (m : Map K V) (k : K) (v : V) → get (insert m k v) k ≡ some v
  get-insert_self m k v = ground (arith, get-insert m k v k)

  pub get-remove_self : (m : Map K V) (k : K) → get (remove m k) k ≡ none
  get-remove_self m k = ground (arith, get-remove m k k)

  -- A new key makes the map one entry longer; a known key does not.
  pub length-insert :
      (m : Map K V) (k : K) (v : V)
      → length (insert m k v) ≡ (if contains_key m k then length m else suc (length m))
  unfolding get insert
  length-insert [] k v = refl
  length-insert ((i, w) ∷ m) k v = ground (arith, length-insert m k v)

  abbrev pub values : Map K V → List V
  values [] = []
  values ((k, v) ∷ m) = v ∷ values m
