-- ===== src/Consensus/Choosing.antt =====
-- src/consensus/task.rs: the pollsters that the task starts for a frontier.
use mathlib.Core.Path.{ap₂}
use libtaurus.Prelude.{
  ℕ, zero, suc, ◌<◌, ◌≡◌, refl, Bool, true, false, List, [], ◌∷◌, map, Key, ℕ-Key, ok, ltb, length,
  get_elem?, unwrap, take, unique, contains, try_map, All, All-of_contains, All-insert_all,
  if◌then◌else◌, Bool-cases, inl, inr,
}
use libtaurus.Hash.{Hash, Hash-Key}
use libtaurus.Vertex.{Vertex}
use libtaurus.Consensus.Pollster.{Pollster}
use libtaurus.Consensus.Task.{Task, TaskError, start_one, start_pollsters, get_validators_for_query}
use libtaurus.Consensus.Validators.{get_elem?-some}

All-take : (n m : ℕ) (is : List ℕ) → All (λ i. i < n) is → All (λ i. i < n) (take m is)
All-take n zero is a = tt
All-take n (suc m) [] a = tt
All-take n (suc m) (i ∷ is) (p, ps) = (p, All-take n m is ps)

reads :
    {A : Type 0} ⦃key : Key A⦄ (xs : List A) (is : List ℕ)
    → All (λ i. i < length xs) is
    → (ys : List A) × (try_map {E = TaskError} (λ i. unwrap (get_elem? xs i)) is ≡ ok ys)
unfolding try_map
reads xs [] a = ([], refl)
reads xs (i ∷ is) (p, ps) =
    let (y, e) = get_elem?-some xs i p in let (ys, f) = reads xs is ps in (y ∷ ys, rw (e, f) refl)

module _ {Peer : Type 0} ⦃key : Key Peer⦄ (hash : Vertex → Hash) (t : Task Peer)
    (draws : Vertex → List ℕ) where
  -- The random indices are below the number of validators.
  abbrev pub AreBelow : Type 0
  AreBelow = (vx : Vertex) (i : ℕ) → contains (draws vx) i ≡ true → i < length t.validators

  abbrev pub too_few : Bool
  too_few = ltb (length t.validators) t.config.query_count

  -- The pollsters of a frontier: one for each vertex, with the quorum of the configuration, or none
  -- where the validators are too few.
  abbrev pub ArePolled : List Vertex → List (Pollster Peer) → Type 0
  ArePolled vs ps =
      (map (λ (p : Pollster Peer). p.vhash) ps ≡ (if too_few then [] else map hash vs))
      × All (λ (p : Pollster Peer). p.quorum_size ≡ t.config.quorum_size) ps

  choosing-few :
      (v : Vertex)
      → too_few ≡ true
      → start_one hash t v (get_validators_for_query hash t (draws v)) ≡ ok []
  unfolding get_validators_for_query
  choosing-few v e = rw (e) refl

  choosing-many :
      (v : Vertex)
      → AreBelow
      → too_few ≡ false
      → (p : Pollster Peer) × (start_one hash t v (get_validators_for_query hash t (draws v))
          ≡ ok (p ∷ []))
        × (p.vhash ≡ hash v)
        × (p.quorum_size ≡ t.config.quorum_size)
  unfolding get_validators_for_query
  choosing-many v below e =
      let (ys, f) = reads t.validators (take t.config.query_count (unique (draws v))) (
        All-take (length t.validators) t.config.query_count (unique (draws v)) (
          All-insert_all (λ i. i < length t.validators) [] (draws v) tt
            (All-of_contains (λ i. i < length t.validators) (draws v) (below v)))) in
      (
        record { vhash = hash v; peers_to_poll = ys; quorum_size = t.config.quorum_size },
        rw (e, f) refl,
        refl,
        refl,
      )

  polling-few : (vs : List Vertex) → too_few ≡ true → start_pollsters hash t draws vs ≡ ok []
  unfolding start_pollsters
  polling-few [] e = refl
  polling-few (v ∷ vs) e = rw (choosing-few v e, polling-few vs e) refl

  polling-many :
      (vs : List Vertex)
      → AreBelow
      → too_few ≡ false
      → (ps : List (Pollster Peer)) × (start_pollsters hash t draws vs ≡ ok ps)
        × (map (λ (p : Pollster Peer). p.vhash) ps ≡ map hash vs)
        × All (λ (p : Pollster Peer). p.quorum_size ≡ t.config.quorum_size) ps
  unfolding start_pollsters
  polling-many [] below e = ([], refl, refl, tt)
  polling-many (v ∷ vs) below e =
      let (p, f, h, q) = choosing-many v below e in
      let (ps, fs, hs, qs) = polling-many vs below e in
      (p ∷ ps, rw (f, fs) refl, ap₂ ◌∷◌ h hs, (q, qs))

  pub start_pollsters-ends :
      AreBelow
      → (vs : List Vertex)
      → (ps : List (Pollster Peer)) × (start_pollsters hash t draws vs ≡ ok ps) × ArePolled vs ps
  start_pollsters-ends below vs = elim (Bool-cases too_few) [
    | inl e ↦ ([], polling-few vs e, (rw (e) refl, tt))
    | inr e ↦ let (ps, f, h, q) = polling-many vs below e in (ps, f, (rw (e) h, q))
  ]
