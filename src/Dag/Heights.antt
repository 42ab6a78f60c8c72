-- ===== src/Dag/Heights.antt =====
-- What a vertex that passes `check_vertex` is like.
use libtaurus.Prelude.{
  ℕ, ◌≤◌, ◌≡◌, refl, true, false, not, ◌&&◌, some, List, [], ◌∷◌, arith, ok, unwrap, >>=-eq-ok,
  ok-injective, unwrap-eq-ok, if-eq-ok, map_err-eq-ok, try_map, try_map-mem, mem-try_map, contains,
  contains-filter, is_empty, maximum, le-maximum, maximum-mem, add64, map_err, ℕ-Key, ◌==◌,
}
use libtaurus.Map.{get, contains_key}
use libtaurus.Hash.{Hash, Hash-Key}
use libtaurus.Vertex.{Vertex, sanity_checks}
use libtaurus.Dag.{Dag, of_vertex}
use libtaurus.Dag.Ancestors.{vertex_at}
use libtaurus.Dag.Check.{
  missing, waiting, height_at, expected_height, check_conflicts, check_vertex,
}

pub not-contains_of_empty : (xs : List Hash) (a : Hash) → is_empty xs ≡ true → contains xs a ≡ false
not-contains_of_empty [] a e = refl
not-contains_of_empty (x ∷ xs) a e = cc

module _ (dag : Dag) (vx : Vertex) where
  height_at-eq-ok :
      (p : Hash) {n : ℕ}
      → height_at dag p ≡ ok n
      → (u : Vertex) × (get dag.vertex p ≡ some u) × (u.height ≡ n)
  height_at-eq-ok p h =
      let (u, e, h₁) = >>=-eq-ok (vertex_at dag p) _ h in
      (u, unwrap-eq-ok (get dag.vertex p) e, ok-injective h₁)

  -- The expected height is one more than the largest height of a parent.
  pub record IsAbove (n : ℕ) : Type 0 where
    pub highest : ℕ
    pub is_next : n ≡ add64 1 highest
    pub bound :
        (p : Hash)
        → contains vx.parents p ≡ true
        → (u : Vertex) × (get dag.vertex p ≡ some u) × (u.height ≤ highest)
    pub attained :
        (p : Hash) × (u : Vertex) × (contains vx.parents p ≡ true)
        × (get dag.vertex p ≡ some u)
        × (u.height ≡ highest)

  pub expected_height-IsAbove : (n : ℕ) → expected_height dag vx ≡ ok n → IsAbove n
  unfolding expected_height
  expected_height-IsAbove n h =
      let (hs, e, h₁) = >>=-eq-ok (try_map (height_at dag) vx.parents) _ h in
      let (m, e₁, h₂) = >>=-eq-ok (unwrap (maximum hs)) _ h₁ in
      let top = unwrap-eq-ok (maximum hs) e₁ in
      record {
        highest = m;
        is_next = ground (arith, ok-injective h₂);
        bound = λ p c.
            let (k, f, i) = try_map-mem (height_at dag) vx.parents hs p e c in
            let (u, g, j) = height_at-eq-ok p f in (u, g, omega (arith, le-maximum hs m k top i));
        attained =
            let (p, f, i) = mem-try_map (height_at dag) vx.parents hs m e (maximum-mem hs m top) in
            let (u, g, j) = height_at-eq-ok p f in (p, u, i, g, j);
      }

  module _ (hash : Vertex → Hash) where
    pub record IsChecked : Type 0 where
      pub sane : sanity_checks vx ≡ ok tt
      pub fresh : contains_key dag.graph (hash vx) ≡ false
      pub present : (p : Hash) → contains vx.parents p ≡ true → contains_key dag.graph p ≡ true
      pub above : IsAbove vx.height
      pub clear : check_conflicts dag vx ≡ ok tt

    -- A vertex that `check_vertex` passes is sane and not in the graph, its parents are all in the graph,
    -- its height is the 64-bit sum of one and the largest height of a parent, which some parent attains,
    -- and the search for conflicts in its ancestry finds none.
    pub check_vertex-IsChecked : check_vertex hash dag vx ≡ ok tt → IsChecked
    unfolding check_vertex
    check_vertex-IsChecked h =
        let (_, s, h₁) = >>=-eq-ok (map_err of_vertex (sanity_checks vx)) _ h in
        let (fresh, h₂) = if-eq-ok (contains_key dag.graph (hash vx)) _ _ h₁ in
        let (known, h₃) = if-eq-ok (not (is_empty (missing dag vx))) _ _ h₂ in
        let (ready, h₄) = if-eq-ok (not (is_empty (waiting dag vx))) _ _ h₃ in
        let (n, e, h₅) = >>=-eq-ok (expected_height dag vx) _ h₄ in
        let (level, h₆) = if-eq-ok (not (n == vx.height)) _ _ h₅ in
        record {
          sane = map_err-eq-ok of_vertex (sanity_checks vx) s;
          fresh = fresh;
          present = λ p c. ground (
            arith,
            not-contains_of_empty (missing dag vx) p,
            contains-filter (λ q. not (contains_key dag.vertex q)) vx.parents p,
            not-contains_of_empty (waiting dag vx) p,
            contains-filter (λ q. contains_key dag.vertex q && not (contains_key dag.graph q))
                vx.parents p,
          );
          above = expected_height-IsAbove vx.height (ground (arith, e));
          clear = h₆;
        }
