-- ===== src/Dag/Frontier.antt =====
-- What `get_frontier` returns on a sound DAG.
use libtaurus.Prelude.{
  ◌≡◌, refl, ap, ◌∙◌, Bool, true, false, ◌&&◌, some, List, [], ◌∷◌, arith, if◌then◌else◌, ◌≟◌, map,
  contains, distinct, sorted_by, Result, ok, err, panic, All, All-weaken, All-sorted_by,
  IsAscending, sorted_by-IsAscending, contains-map-sorted_by, distinct-map-sorted_by,
}
use libtaurus.Map.{Map, get, contains_key}
use libtaurus.Map.Keys.{keys, contains-keys, All-entries}
use libtaurus.Hash.{Hash, Hash-Key}
use libtaurus.Vertex.{Vertex}
use libtaurus.Dag.{Dag, DagError}
use libtaurus.Dag.Asking.{IsAnswer, unknown, waits, settled, unsettled, orphaned, query-IsAnswer}
use libtaurus.Dag.Founded.{IsFounded}
use libtaurus.Dag.Query.{query, says_preferred, preferred_of, get_frontier}
use libtaurus.Dag.Sound.{IsSound}

-- Whether the answer is that the vertex is strongly preferred.
abbrev pub is_strong : Result DagError (Bool × Bool) → Bool
is_strong (ok (preferred, final)) = preferred
is_strong (err e) = false
is_strong panic = false

says_preferred-answer :
    (dag : Dag) (h : Hash) {r : Result DagError (Bool × Bool)}
    → IsAnswer dag h r
    → says_preferred r ≡ ok (is_strong r)
says_preferred-answer dag h (unknown e k) = refl
says_preferred-answer dag h (waits e k) = refl
says_preferred-answer dag h (settled e d) = refl
says_preferred-answer dag h (unsettled e d s) = refl
says_preferred-answer dag h (orphaned e d s) = refl

-- The strongly preferred vertices of a map.
strong : Dag → Map Hash Vertex → List Vertex
strong dag [] = []
strong dag ((h, v) ∷ m) = if is_strong (query dag h) then v ∷ strong dag m else strong dag m

module _ (hash : Vertex → Hash) (dag : Dag) where
  All-strong :
      (P : Vertex → Type 0) (m : Map Hash Vertex)
      → All (λ (e : Hash × Vertex). P e.1) m
      → All P (strong dag m)
  unfolding strong
  All-strong P [] a = tt
  All-strong P ((h, v) ∷ m) (p, ps) = keep (is_strong (query dag h)) (All-strong P m ps)
    where
      keep :
          (b : Bool) → All P (strong dag m) → All P (if b then v ∷ strong dag m else strong dag m)
      keep true q = (p, q)
      keep false q = q

  -- Each entry stands under the hash of its vertex.
  abbrev IsNamed : Map Hash Vertex → Type 0
  IsNamed m = All (λ (e : Hash × Vertex). hash e.1 ≡ e.0) m

  contains-strong :
      (m : Map Hash Vertex) (k : Hash)
      → IsNamed m
      → contains (map hash (strong dag m)) k ≡ (contains_key m k && is_strong (query dag k))
  unfolding strong get
  contains-strong [] k a = refl
  contains-strong ((h, v) ∷ m) k (p, ps) =
      branch (is_strong (query dag h)) refl (contains-strong m k ps)
    where
      branch :
          (b : Bool)
          → is_strong (query dag h) ≡ b
          → contains (map hash (strong dag m)) k ≡ (contains_key m k && is_strong (query dag k))
          → contains (map hash (if b then v ∷ strong dag m else strong dag m)) k
            ≡ (contains_key ((h, v) ∷ m) k && is_strong (query dag k))
      branch true e r = elim (h ≟ k) [
        | yes q ↦ ground (arith, p, q, e, ap (λ j. is_strong (query dag j)) q)
        | no n ↦ ground (arith, p, n, r)
      ]
      branch false e r = elim (h ≟ k) [
        | yes q ↦ ground (arith, p, q, e, r, ap (λ j. is_strong (query dag j)) q)
        | no n ↦ ground (arith, p, n, r)
      ]

  distinct-strong :
      (m : Map Hash Vertex)
      → IsNamed m
      → distinct (keys m) ≡ true
      → distinct (map hash (strong dag m)) ≡ true
  unfolding strong
  distinct-strong [] a d = refl
  distinct-strong ((h, v) ∷ m) (p, ps) d =
      branch (is_strong (query dag h)) (distinct-strong m ps (ground (arith, d)))
        (contains-strong m h ps)
    where
      branch :
          (b : Bool)
          → distinct (map hash (strong dag m)) ≡ true
          → contains (map hash (strong dag m)) h ≡ (contains_key m h && is_strong (query dag h))
          → distinct (map hash (if b then v ∷ strong dag m else strong dag m)) ≡ true
      branch true r c =
          ground
            (arith, ap (λ j. contains (map hash (strong dag m)) j) p, contains-keys m h, c, d, r)
      branch false r c = r

  -- The vertices, without a vertex twice, in the order of their timestamps: exactly the vertices of the
  -- frontier that are strongly preferred.
  pub record HasFrontier (vs : List Vertex) : Type 0 where
    pub ascending : IsAscending (λ (v : Vertex). v.timestamp) vs
    pub inside : All (λ v. get dag.graph (hash v) ≡ some v) vs
    pub once : distinct (map hash vs) ≡ true
    pub exact :
        (h : Hash)
        → contains (map hash vs) h ≡ (contains_key dag.frontier h && is_strong (query dag h))

  module _ (i : IsSound hash dag) (f : IsFounded dag) where
    preferred_of-strong : (m : Map Hash Vertex) → preferred_of dag m ≡ ok (strong dag m)
    unfolding preferred_of strong
    preferred_of-strong [] = refl
    preferred_of-strong ((h, v) ∷ m) =
        rw (says_preferred-answer dag h (query-IsAnswer hash dag i f h), preferred_of-strong m) refl

    frontier-inside :
        All
          (λ (e : Hash × Vertex). (hash e.1 ≡ e.0) × (get dag.graph (hash e.1) ≡ some e.1))
          dag.frontier
    frontier-inside =
        All-entries
          (λ (e : Hash × Vertex). (hash e.1 ≡ e.0) × (get dag.graph (hash e.1) ≡ some e.1))
          dag.frontier f.keyed
          λ h v e.
            let t = i.grounded.tip h v e in
            let n = i.grounded.hashed h v t in (n, ap (λ j. get dag.graph j) n ∙ t)

    pub get_frontier-HasFrontier : (vs : List Vertex) × (get_frontier dag ≡ ok vs) × HasFrontier vs
    unfolding get_frontier
    get_frontier-HasFrontier =
        let vs = strong dag dag.frontier in
        let named =
          All-weaken
            (λ (e : Hash × Vertex). (hash e.1 ≡ e.0) × (get dag.graph (hash e.1) ≡ some e.1))
            (λ (e : Hash × Vertex). hash e.1 ≡ e.0) dag.frontier (λ e p. p.0) frontier-inside in
        let held =
          All-weaken
            (λ (e : Hash × Vertex). (hash e.1 ≡ e.0) × (get dag.graph (hash e.1) ≡ some e.1))
            (λ (e : Hash × Vertex). get dag.graph (hash e.1) ≡ some e.1) dag.frontier (λ e p. p.1)
            frontier-inside in
        (
          sorted_by (λ v. v.timestamp) vs,
          rw (preferred_of-strong dag.frontier) refl,
          record {
            ascending = sorted_by-IsAscending (λ v. v.timestamp) vs;
            inside =
                All-sorted_by (λ v. get dag.graph (hash v) ≡ some v) (λ v. v.timestamp) vs
                  (All-strong (λ v. get dag.graph (hash v) ≡ some v) dag.frontier held);
            once =
                distinct-map-sorted_by (λ (v : Vertex). v.timestamp) hash vs
                ∙ distinct-strong dag.frontier named f.keyed;
            exact = λ h.
                contains-map-sorted_by (λ (v : Vertex). v.timestamp) hash vs h
                ∙ contains-strong dag.frontier h named;
          },
        )
