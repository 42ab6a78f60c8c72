-- ===== src/Dag/Descent.antt =====
-- The searches through the ancestors end, and find what they index.
use mathlib.Core.Path.{subst}
use libtaurus.Prelude.{
  ℕ, zero, suc, ◌≤◌, ◌<◌, ◌≡◌, ◌≢◌, refl, Bool, true, false, not, Option, none, some, List, [], ◌∷◌,
  ◌++◌, inl, inr, arith, Option-cases, if◌then◌else◌, ltb, any, contains, unique, flat_map, minimum,
  min, foldr, sorted_by, length, Result, ok, err, ◌>>=◌, unwrap, try_map, All, All-append,
  All-filter, All-sorted_by, All-insert_all, All-of_contains, All-map, All-weaken, All-flat_map,
  Returns, returns, fails, Returns-bind, Returns-weaken, Returns-if, Returns-try_map,
}
use libtaurus.Map.{get, contains_key}
use libtaurus.Hash.{Hash, Hash-Key}
use libtaurus.Constraint.{Constraint, Constraint-Key, ConflictSetKey-Key, unity, conflict_set_key}
use libtaurus.Vertex.{Vertex, parent_constraints}
use libtaurus.Dag.{Dag, DagError, ConflictSet, depth, rejected_ancestor}
use libtaurus.Dag.Ancestors.{
  vertex_at, state_of, decision_of, decided_height, gather_ancestors, is_active, active,
  with_height, get_active_ancestors, is_undecided, get_active_ancestor_constraints, u64_max,
}
use libtaurus.Dag.Levels.{upto, upto-lt, upto-pos, upto-le-length}

-- What the searches rely on: the parents of the graph's vertices are in the graph and lower, and each
-- vertex has the conflict set of its unity constraint.
pub record IsSearchable (dag : Dag) : Type 0 where
  pub known : (h : Hash) (v : Vertex) → get dag.graph h ≡ some v → get dag.vertex h ≡ some v
  pub linked :
      (h p : Hash) (v : Vertex)
      → get dag.graph h ≡ some v
      → contains v.parents p ≡ true
      → (u : Vertex) × (get dag.graph p ≡ some u) × (u.height < v.height)
  pub united :
      (h : Hash) (v : Vertex)
      → get dag.graph h ≡ some v
      → (s : ConflictSet) × (get dag.state (conflict_set_key (unity h)) ≡ some s)

module _ (dag : Dag) (i : IsSearchable dag) where
  -- A hash of a vertex of the graph.
  pub record IsMember (h : Hash) : Type 0 where
    pub vertex : Vertex
    pub found : get dag.graph h ≡ some vertex

  -- And one that is lower than `n`.
  pub record IsLower (n : ℕ) (h : Hash) : Type 0 where
    pub vertex : Vertex
    pub found : get dag.graph h ≡ some vertex
    pub lower : vertex.height < n

  pub parents-IsLower :
      (h : Hash) (v : Vertex) → get dag.graph h ≡ some v → All (IsLower v.height) v.parents
  parents-IsLower h v e =
      All-of_contains (IsLower v.height) v.parents
        λ p c. let (u, f, l) = i.linked h p v e c in record { vertex = u; found = f; lower = l }

  vertex_at-Returns :
      (h : Hash) (v : Vertex) → get dag.graph h ≡ some v → Returns (λ u. v ≡ u) (vertex_at dag h)
  vertex_at-Returns h v e = rw (i.known h v e) (returns refl)

  state_of-Returns :
      (h : Hash) (v : Vertex)
      → get dag.graph h ≡ some v
      → Returns (λ _. Unit {0}) (state_of dag.state (unity h))
  state_of-Returns h v e = let (s, k) = i.united h v e in rw (k) (returns tt)

  decision_of-Returns :
      (h : Hash) (v : Vertex)
      → get dag.graph h ≡ some v
      → Returns (λ _. Unit {0}) (decision_of dag.state (unity h))
  decision_of-Returns h v e = Returns-bind (state_of-Returns h v e) λ s _. returns tt

  decided_height-Returns :
      (fuel : ℕ) (h : Hash) (v : Vertex)
      → get dag.graph h ≡ some v
      → upto v.height dag.graph ≤ fuel
      → Returns (λ _. Unit {0}) (decided_height fuel dag h)
  unfolding decided_height
  decided_height-Returns zero h v e enough =
      absurd (omega (arith, upto-pos dag.graph h v e, enough))
  decided_height-Returns (suc fuel) h v e enough = Returns-bind (decision_of-Returns h v e) λ o _.
      branch o (
        Returns-try_map (IsLower v.height) (λ _. Unit {0}) (decided_height fuel dag)
          (λ p b.
            decided_height-Returns fuel p b.vertex b.found
              (omega (arith, upto-lt dag.graph h v b.vertex.height e b.lower, enough)))
          v.parents (parents-IsLower h v e))
    where
      branch :
          (o : Option Bool)
          → Returns
              (λ (ns : List ℕ). All (λ _. Unit {0}) ns × (length ns ≡ length v.parents))
              (try_map (decided_height fuel dag) v.parents)
          → Returns
              (λ _. Unit {0})
              (elim o [
                | some false ↦ err rejected_ancestor
                | some true ↦ vertex_at dag h >>= λ vx. ok vx.height
                | none ↦ vertex_at dag h >>= λ vx.
                    try_map (decided_height fuel dag) vx.parents >>= λ heights.
                    ok (foldr min u64_max heights)
              ])
      branch (some false) r = fails
      branch (some true) r = Returns-bind (vertex_at-Returns h v e) λ u _. returns tt
      branch none r = Returns-bind (vertex_at-Returns h v e) λ u q.
          subst
            (λ (w : Vertex).
              Returns (λ _. Unit {0})
                (try_map (decided_height fuel dag) w.parents >>= λ heights.
                  ok (foldr min u64_max heights)))
            q (Returns-bind r λ ns _. returns tt)

  pub parents-IsMember : (h : Hash) (v : Vertex) → get dag.graph h ≡ some v → All IsMember v.parents
  parents-IsMember h v e =
      All-weaken (IsLower v.height) IsMember v.parents
        (λ p b. record { vertex = b.vertex; found = b.found }) (parents-IsLower h v e)

  -- What is gathered is in the graph.
  gather_ancestors-Returns :
      (fuel : ℕ) (to_height : ℕ) (h : Hash) (v : Vertex)
      → get dag.graph h ≡ some v
      → upto v.height dag.graph ≤ fuel
      → Returns (All IsMember) (gather_ancestors fuel dag to_height h)
  unfolding gather_ancestors
  gather_ancestors-Returns zero to_height h v e enough =
      absurd (omega (arith, upto-pos dag.graph h v e, enough))
  gather_ancestors-Returns (suc fuel) to_height h v e enough =
      Returns-bind (vertex_at-Returns h v e) λ u q. subst Gathers q (
        branch (ltb to_height v.height) (
          Returns-try_map (IsLower v.height) (All IsMember) (gather_ancestors fuel dag to_height)
            (λ p b.
              gather_ancestors-Returns fuel to_height p b.vertex b.found
                (omega (arith, upto-lt dag.graph h v b.vertex.height e b.lower, enough)))
            v.parents (parents-IsLower h v e)))
    where
      Further : Vertex → Result DagError (List Hash)
      Further w = try_map (gather_ancestors fuel dag to_height) w.parents >>= λ further.
          ok (unique (w.parents ++ flat_map (λ l. l) further))

      Gathers : Vertex → Type 0
      Gathers w =
          Returns (All IsMember)
            (elim (ltb to_height w.height) [ true ↦ Further w | false ↦ ok [] ])

      branch :
          (b : Bool)
          → Returns
              (λ (ls : List (List Hash)). All (All IsMember) ls × (length ls ≡ length v.parents))
              (try_map (gather_ancestors fuel dag to_height) v.parents)
          → Returns (All IsMember) (elim b [ true ↦ Further v | false ↦ ok [] ])
      branch false r = returns tt
      branch true r = Returns-bind r λ ls p. returns (
          All-insert_all IsMember [] (v.parents ++ flat_map (λ l. l) ls) tt (
            All-append IsMember v.parents (flat_map (λ l. l) ls) (parents-IsMember h v e)
              (All-flat_map IsMember (λ l. l) ls p.0)))

  active-IsMember : (l : List (Hash × Bool)) → All (λ e. IsMember e.0) l → All IsMember (active l)
  active-IsMember [] p = tt
  active-IsMember ((h, keep) ∷ l) (p, ps) = place keep (active-IsMember l ps)
    where
      place :
          (b : Bool) → All IsMember (active l) → All IsMember (if b then h ∷ active l else active l)
      place true q = (p, q)
      place false q = q

  minimum-some : (n : ℕ) (ns : List ℕ) → (m : ℕ) × (minimum (n ∷ ns) ≡ some m)
  unfolding minimum
  minimum-some n ns = elim (Option-cases (minimum ns)) [
    | inl e ↦ (n, rw (e) refl)
    | inr (m, e) ↦ (min n m, rw (e) refl)
  ]

  minimum-Returns :
      (ns : List ℕ) (ps : List Hash)
      → length ns ≡ length ps
      → ps ≢ []
      → Returns {E = DagError} (λ _. Unit {0}) (unwrap (minimum ns))
  minimum-Returns [] [] e n = absurd (n refl)
  minimum-Returns [] (p ∷ ps) e n = absurd (omega (arith, e))
  minimum-Returns (k ∷ ns) ps e n = let (m, f) = minimum-some k ns in rw (f) (returns tt)

  module _ (vx : Vertex) (some_parents : vx.parents ≢ []) (inside : All IsMember vx.parents) where
    -- The active ancestors of a vertex on parents of the graph are in the graph.
    get_active_ancestors-Returns : Returns (All IsMember) (get_active_ancestors dag vx)
    unfolding get_active_ancestors
    get_active_ancestors-Returns =
        Returns-if (any (λ p. not (contains_key dag.vertex p)) vx.parents) _ λ _.
          Returns-bind
            (Returns-try_map IsMember (λ _. Unit {0}) (decided_height (depth dag) dag)
              (λ p b.
                decided_height-Returns (depth dag) p b.vertex b.found
                  (omega (arith, upto-le-length b.vertex.height dag.graph)))
              vx.parents inside)
            λ ns a. Returns-bind (minimum-Returns ns vx.parents a.1 some_parents) λ to_height _.
              Returns-bind
                (Returns-try_map IsMember (All IsMember)
                  (gather_ancestors (depth dag) dag to_height)
                  (λ p b.
                    gather_ancestors-Returns (depth dag) to_height p b.vertex b.found
                      (omega (arith, upto-le-length b.vertex.height dag.graph)))
                  vx.parents inside)
                λ ls b.
                  let gathered =
                    All-insert_all IsMember [] (flat_map (λ l. l) ls) tt
                      (All-flat_map IsMember (λ l. l) ls b.0) in
                  Returns-if (any (contains (unique (flat_map (λ l. l) ls))) vx.parents) _ λ _.
                    Returns-bind
                      (Returns-try_map IsMember (λ (e : Hash × Bool). IsMember e.0) (is_active dag)
                        (λ h m. is_active-Returns h m) (unique (flat_map (λ l. l) ls) ++ vx.parents)
                        (All-append IsMember (unique (flat_map (λ l. l) ls)) vx.parents gathered
                          inside))
                      λ marked c.
                        Returns-bind
                          (Returns-try_map IsMember (λ (e : ℕ × Hash). IsMember e.1)
                            (with_height dag) (λ h m. with_height-Returns h m) (active marked)
                            (active-IsMember marked c.0))
                          λ keyed d. returns (
                            All-map IsMember (λ (e : ℕ × Hash). e.1)
                              (sorted_by (λ (e : ℕ × Hash). e.0) keyed)
                              (All-sorted_by (λ (e : ℕ × Hash). IsMember e.1)
                                (λ (e : ℕ × Hash). e.0) keyed d.0))
      where
        is_active-Returns :
            (h : Hash) → IsMember h → Returns (λ (e : Hash × Bool). IsMember e.0) (is_active dag h)
        is_active-Returns h m = Returns-bind (state_of-Returns h m.vertex m.found) λ s _. returns m

        with_height-Returns :
            (h : Hash) → IsMember h → Returns (λ (e : ℕ × Hash). IsMember e.1) (with_height dag h)
        with_height-Returns h m =
            Returns-bind (vertex_at-Returns h m.vertex m.found) λ u _. returns m

    -- The constraints come from vertices of the graph, and from the vertex itself.
    pub get_active_ancestor_constraints-Returns :
        (P : Constraint → Type 0)
        → ((h : Hash) (v : Vertex) → get dag.graph h ≡ some v → All P (parent_constraints v))
        → All P (parent_constraints vx)
        → Returns (All P) (get_active_ancestor_constraints dag vx)
    unfolding get_active_ancestor_constraints
    get_active_ancestor_constraints-Returns P committed own =
        Returns-bind get_active_ancestors-Returns λ hs a.
          Returns-bind
            (Returns-try_map IsMember (λ v. All P (parent_constraints v)) (vertex_at dag)
              (λ h m. Returns-weaken (vertex_at-Returns h m.vertex m.found) λ u q.
                subst (λ (w : Vertex). All P (parent_constraints w)) q
                  (committed h m.vertex m.found))
              hs a)
            λ vs b. returns (
              All-filter P (is_undecided dag.state)
                (unique (flat_map parent_constraints vs ++ parent_constraints vx))
                (All-insert_all P [] (flat_map parent_constraints vs ++ parent_constraints vx) tt (
                  All-append P (flat_map parent_constraints vs) (parent_constraints vx)
                    (All-flat_map P parent_constraints vs b.0) own)))
