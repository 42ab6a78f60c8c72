-- ===== src/Consensus/Validators.antt =====
-- The validators that the task chooses for a poll.
use libtaurus.Prelude.{
  ℕ-Key, inl, inr, ◌∙◌, Bool-cases, ℕ, zero, suc, ◌≤◌, ◌<◌, ◌≡◌, refl, ap, true, false, some, List,
  [], ◌∷◌, arith, Key, ok, unwrap, ltb, try_map, length, get_elem?, contains, unique, take,
  distinct, distinct-insert_all, contains-unique, ◌≟◌,
}
use libtaurus.Hash.{Hash}
use libtaurus.Vertex.{Vertex}
use libtaurus.Consensus.Task.{Task, TaskError, get_validators_for_query}

ltb_of_le : (a b : ℕ) → b ≤ a → ltb a b ≡ false
ltb_of_le a b h = ground arith

module _ {ℓ} {A : Type ℓ} ⦃key : Key A⦄ where
  contains-take :
      (n : ℕ) (xs : List A) (a : A) → contains xs a ≡ false → contains (take n xs) a ≡ false
  contains-take zero xs a h = refl
  contains-take (suc n) [] a h = refl
  contains-take (suc n) (x ∷ xs) a h = ground (arith, contains-take n xs a)

  distinct-take : (n : ℕ) (xs : List A) → distinct xs ≡ true → distinct (take n xs) ≡ true
  distinct-take zero xs d = refl
  distinct-take (suc n) [] d = refl
  distinct-take (suc n) (x ∷ xs) d = ground (arith, distinct-take n xs, contains-take n xs x)

  length-take : (n : ℕ) (xs : List A) → n ≤ length xs → length (take n xs) ≡ n
  length-take zero xs h = refl
  length-take (suc n) [] h = omega arith
  length-take (suc n) (x ∷ xs) h = ap suc (length-take n xs (omega arith))

  pub get_elem?-some : (xs : List A) (i : ℕ) → i < length xs → (a : A) × (get_elem? xs i ≡ some a)
  get_elem?-some [] i h = ground arith
  get_elem?-some (x ∷ xs) zero h = (x, refl)
  get_elem?-some (x ∷ xs) (suc i) h = get_elem?-some xs i (omega arith)

  get_elem?-contains :
      (xs : List A) (i : ℕ) (a : A) → get_elem? xs i ≡ some a → contains xs a ≡ true
  get_elem?-contains [] i a h = cc
  get_elem?-contains (x ∷ xs) zero a h = ground arith
  get_elem?-contains (x ∷ xs) (suc i) a h = ground (arith, get_elem?-contains xs i a h)

  -- In a list without twins, different indices hold different elements.
  get_elem?-injective :
      (xs : List A) (i j : ℕ) (a : A)
      → distinct xs ≡ true
      → get_elem? xs i ≡ some a
      → get_elem? xs j ≡ some a
      → i ≡ j
  get_elem?-injective [] i j a d h k = cc
  get_elem?-injective (x ∷ xs) zero zero a d h k = refl
  get_elem?-injective (x ∷ xs) zero (suc j) a d h k = ground (arith, get_elem?-contains xs j a k)
  get_elem?-injective (x ∷ xs) (suc i) zero a d h k = ground (arith, get_elem?-contains xs i a h)
  get_elem?-injective (x ∷ xs) (suc i) (suc j) a d h k =
      ap suc (get_elem?-injective xs i j a (ground arith) h k)

  -- The elements at distinct indices below the length: as many, and distinct.
  pub record IsPicked (xs : List A) (is : List ℕ) (ys : List A) : Type ℓ where
    pub picked : try_map {E = TaskError} (λ i. unwrap (get_elem? xs i)) is ≡ ok ys
    pub size : length ys ≡ length is
    pub origin :
        (a : A)
        → contains ys a ≡ true
        → (i : ℕ) × (contains is i ≡ true) × (get_elem? xs i ≡ some a)
    pub apart : distinct ys ≡ true

  pick :
      (xs : List A) (is : List ℕ)
      → distinct xs ≡ true
      → distinct is ≡ true
      → ((i : ℕ) → contains is i ≡ true → i < length xs)
      → (ys : List A) × IsPicked xs is ys
  unfolding try_map
  pick xs [] d e below =
      ([], record { picked = refl; size = refl; origin = λ a h. cc; apart = refl })
  pick xs (i ∷ is) d e below =
      let (ys, p) = pick xs is d (ground arith) (λ j c. below j (ground arith)) in
      let (a, here) = get_elem?-some xs i (below i (ground arith)) in
      (
        a ∷ ys,
        record {
          picked = rw (here, p.picked) refl;
          size = ap suc p.size;
          origin = λ b c. elim (a ≟ b) [
            | yes q ↦ (i, ground arith, here ∙ ap some q)
            | no q ↦ let (j, k, l) = p.origin b (ground arith) in (j, ground arith, l)
          ];
          apart = elim (Bool-cases (contains ys a)) [
            | inl c ↦
                let (j, k, l) = p.origin a c in
                let same = get_elem?-injective xs i j a d here l in ground arith
            | inr c ↦ ground (arith, p.apart)
          ];
        },
      )

  contains-take-mem :
      (n : ℕ) (xs : List A) (a : A) → contains (take n xs) a ≡ true → contains xs a ≡ true
  contains-take-mem n xs a h = ground (arith, contains-take n xs a)

module _ {Peer : Type 0} ⦃key : Key Peer⦄ (hash : Vertex → Hash) where
  -- With enough validators, and random indices below their number of which at least `query_count` are
  -- different, the task chooses exactly `query_count` different validators, all of them its own.
  pub get_validators-chooses :
      (task : Task Peer) (draws : List ℕ)
      → distinct task.validators ≡ true
      → task.config.query_count ≤ length task.validators
      → ((i : ℕ) → contains draws i ≡ true → i < length task.validators)
      → task.config.query_count ≤ length (unique draws)
      → (chosen : List Peer) × (get_validators_for_query hash task draws ≡ ok chosen)
        × (length chosen ≡ task.config.query_count)
        × (distinct chosen ≡ true)
        × ((p : Peer) → contains chosen p ≡ true → contains task.validators p ≡ true)
  unfolding get_validators_for_query
  get_validators-chooses task draws d many below enough =
      let is = take task.config.query_count (unique draws) in
      let (ys, p) =
        pick task.validators is d
          (distinct-take task.config.query_count (unique draws) (distinct-insert_all [] draws refl))
          (λ i c. below i (
            ground (
              arith,
              contains-take-mem task.config.query_count (unique draws) i c,
              contains-unique draws i,
            ))) in
      (
        ys,
        rw (ltb_of_le (length task.validators) task.config.query_count many) p.picked,
        p.size ∙ length-take task.config.query_count (unique draws) enough,
        p.apart,
        λ q c. let (i, _, l) = p.origin q c in get_elem?-contains task.validators i q l,
      )
