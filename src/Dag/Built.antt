-- ===== src/Dag/Built.antt =====
-- Vertices that a client builds with `with_parents` on vertices of the DAG.
use mathlib.Core.Path.{subst}
use libtaurus.Prelude.{
  ℕ, ◌≡◌, refl, false, not, some, List, [], ◌∷◌, map, ok, unwrap, >>=-eq-ok, ok-injective, if-eq-ok,
  try_map, is_empty, length, unique, ◌==◌, ℕ-Key, maximum, unwrap-eq-ok, add64, ℕ_discrete,
}
use libtaurus.Map.{get}
use libtaurus.Hash.{Hash, Hash-Key}
use libtaurus.Vertex.{Vertex, version, sanity_checks, with_parents}
use libtaurus.Dag.{Dag}
use libtaurus.Dag.Check.{height_at, expected_height}

module _ (hash : Vertex → Hash) (dag : Dag) where
  -- The DAG knows each of the vertices under its hash.
  abbrev pub AreKnown : List Vertex → Type 0
  AreKnown [] = Unit {0}
  AreKnown (p ∷ ps) = (get dag.vertex (hash p) ≡ some p) × AreKnown ps

  heights_of :
      (ps : List Vertex)
      → AreKnown ps
      → try_map (height_at dag) (map hash ps) ≡ ok (map (λ (p : Vertex). p.height) ps)
  unfolding try_map
  heights_of [] k = refl
  heights_of (p ∷ ps) (k, ks) = rw (k, heights_of ps ks) refl

  expected_of :
      (u : Vertex) (ps : List Vertex) (m : ℕ)
      → u.parents ≡ map hash ps
      → AreKnown ps
      → maximum (map (λ (p : Vertex). p.height) ps) ≡ some m
      → expected_height dag u ≡ ok (add64 1 m)
  unfolding expected_height
  expected_of u ps m e known top = rw (e, heights_of ps known, top) refl

  sane_of :
      (u : Vertex) (ps : List Vertex)
      → u.version ≡ version
      → u.parents ≡ map hash ps
      → is_empty (map (λ (p : Vertex). p.height) ps) ≡ false
      → not (length (map hash ps) == length (unique (map hash ps))) ≡ false
      → sanity_checks u ≡ ok tt
  unfolding sanity_checks ℕ_discrete
  sane_of u [] v e n t = cc
  sane_of u (p ∷ ps) v e n t = rw (e, v, t) refl

  -- A vertex of the current version that was built on vertices that the DAG knows has the height
  -- that the DAG expects of it, and passes the sanity checks.
  pub with_parents-expected :
      (vx : Vertex) (ps : List Vertex) (u : Vertex)
      → vx.version ≡ version
      → AreKnown ps
      → with_parents hash vx ps ≡ ok u
      → (expected_height dag u ≡ ok u.height) × (sanity_checks u ≡ ok tt)
  unfolding with_parents
  with_parents-expected vx ps u current known h =
      let heights = map (λ (p : Vertex). p.height) ps in
      let (some_parents, h₁) = if-eq-ok (is_empty heights) _ _ h in
      let (no_twins, h₂) =
        if-eq-ok (not (length (map hash ps) == length (unique (map hash ps)))) _ _ h₁ in
      let (m, e, h₃) = >>=-eq-ok (unwrap (maximum heights)) _ h₂ in
      let v : Vertex = record vx { height = add64 1 m; parents = map hash ps } in
      subst (λ (v : Vertex). (expected_height dag v ≡ ok v.height) × (sanity_checks v ≡ ok tt))
        (ok-injective h₃)
        (
          expected_of v ps m refl known (unwrap-eq-ok (maximum heights) e),
          sane_of v ps current refl some_parents no_twins,
        )
