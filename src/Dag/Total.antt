-- ===== src/Dag/Total.antt =====
-- `check_vertex` and `try_insert` end and do not panic on a sound DAG, and keep it sound.
use mathlib.Core.Path.{subst}
use libtaurus.Prelude.{
  ℕ, ◌<◌, ◌≡◌, ◌≢◌, refl, sym, true, not, ◌&&◌, Option, none, some, List, [], ◌∷◌, inl, inr, arith,
  contains-filter, is_empty, any, length, maximum, max, unique, u64_mod, ◌==◌, ℕ-Key, Option-cases,
  Bool-cases, All, All-of_contains, Result, ok, err, panic, unwrap, Returns, returns, fails,
  Returns-bind, Returns-if, Returns-panic, Returns-map_err, Returns-try_map, IsErrless,
}
use libtaurus.Map
use libtaurus.Map.{Map, get, get-insert, contains_key}
use libtaurus.Hash.{Hash, Hash-Key}
use libtaurus.Constraint.{Constraint-Key}
use libtaurus.Vertex.{
  Vertex, VertexError, bad_version, missing_field, parents_field, version, sanity_checks,
  parent_constraints,
}
use libtaurus.Dag.{Dag, DagError, of_vertex, missing_parents, waiting_on_parents, not_found}
use libtaurus.Dag.Check.{
  missing, waiting, height_at, expected_height, has_conflict_in, check_conflicts, check_vertex,
}
use libtaurus.Dag.Descent.{IsMember, get_active_ancestor_constraints-Returns}
use libtaurus.Dag.Decided.{KeepsDecided, KeepsDecided-refl, insert_vertex-KeepsDecided}
use libtaurus.Dag.Insert.{insert_vertex}
use libtaurus.Dag.Heights.{not-contains_of_empty, check_vertex-IsChecked}
use libtaurus.Dag.Pending.{
  on_error, after_insert, after_check, try_insert, waiting_children, get_known_children,
}
use libtaurus.Dag.Shape.{IsGrounded, IsExtended, try_insert-IsGrounded}
use libtaurus.Dag.Sound.{IsSound, IsSound-IsSearchable}
use libtaurus.Dag.Inserting.{HasInserted, insert_vertex-Returns, insert_vertex-IsErrless}

sanity_checks-Returns : (v : Vertex) → Returns (λ _. v.parents ≢ []) (sanity_checks v)
unfolding sanity_checks
sanity_checks-Returns v = Returns-if (not (v.version == version)) _ λ _.
    Returns-if (is_empty v.parents) _ λ some_parents.
      Returns-if (not (length v.parents == length (unique v.parents))) _
        λ _. returns (λ e. ground (arith, some_parents, e))

pub maximum-some : (n : ℕ) (ns : List ℕ) → (m : ℕ) × (maximum (n ∷ ns) ≡ some m)
unfolding maximum
maximum-some n ns = elim (Option-cases (maximum ns)) [
  | inl e ↦ (n, rw (e) refl)
  | inr (m, e) ↦ (max n m, rw (e) refl)
]

maximum-Returns :
    (ns : List ℕ) (ps : List Hash)
    → length ns ≡ length ps
    → ps ≢ []
    → Returns {E = DagError} (λ _. Unit {0}) (unwrap (maximum ns))
maximum-Returns [] [] e n = absurd (n refl)
maximum-Returns [] (p ∷ ps) e n = absurd (omega (arith, e))
maximum-Returns (k ∷ ns) ps e n = let (m, f) = maximum-some k ns in rw (f) (returns tt)

module _ (hash : Vertex → Hash) (dag : Dag) (i : IsSound hash dag) (vx : Vertex) where
  member :
      (p : Hash)
      → contains_key dag.graph p ≡ true
      → IsMember dag (IsSound-IsSearchable hash dag i) p
  member p c = elim (Option-cases (get dag.graph p)) [
    | inl e ↦ ground (arith, e, c)
    | inr (v, e) ↦ record { vertex = v; found = e }
  ]

  expected_height-Returns :
      vx.parents ≢ []
      → All (IsMember dag (IsSound-IsSearchable hash dag i)) vx.parents
      → Returns (λ _. Unit {0}) (expected_height dag vx)
  unfolding expected_height
  expected_height-Returns some_parents inside =
      Returns-bind
        (Returns-try_map (IsMember dag (IsSound-IsSearchable hash dag i)) (λ _. Unit {0})
          (height_at dag) (λ p m. rw (i.grounded.known p m.vertex m.found) (returns tt)) vx.parents
          inside)
        λ ns a. Returns-bind (maximum-Returns ns vx.parents a.1 some_parents) λ m _. returns tt

  check_conflicts-Returns :
      vx.parents ≢ []
      → All (IsMember dag (IsSound-IsSearchable hash dag i)) vx.parents
      → Returns (λ _. Unit {0}) (check_conflicts dag vx)
  unfolding check_conflicts
  check_conflicts-Returns some_parents inside =
      Returns-bind
        (get_active_ancestor_constraints-Returns dag (IsSound-IsSearchable hash dag i) vx
          some_parents inside (λ _. Unit {0})
          (λ h v e. All-of_contains (λ _. Unit {0}) (parent_constraints v) (λ _ _. tt))
          (All-of_contains (λ _. Unit {0}) (parent_constraints vx) (λ _ _. tt)))
        λ cs _. Returns-if (any (has_conflict_in cs) cs) _ λ _. returns tt

  inside_of :
      is_empty (missing dag vx) ≡ true
      → is_empty (waiting dag vx) ≡ true
      → All (IsMember dag (IsSound-IsSearchable hash dag i)) vx.parents
  inside_of e f = All-of_contains (IsMember dag (IsSound-IsSearchable hash dag i)) vx.parents λ p c.
      member p (
        ground (
          arith,
          not-contains_of_empty (missing dag vx) p e,
          contains-filter (λ q. not (contains_key dag.vertex q)) vx.parents p,
          not-contains_of_empty (waiting dag vx) p f,
          contains-filter (λ q. contains_key dag.vertex q && not (contains_key dag.graph q))
              vx.parents p,
          c,
        ))

  pub check_vertex-Returns : Returns (λ _. Unit {0}) (check_vertex hash dag vx)
  unfolding check_vertex
  check_vertex-Returns =
      Returns-bind (Returns-map_err of_vertex (sanity_checks-Returns vx)) λ _ some_parents.
        Returns-if (contains_key dag.graph (hash vx)) _ λ fresh.
          Returns-if (not (is_empty (missing dag vx))) _ λ known.
            Returns-if (not (is_empty (waiting dag vx))) _ λ ready.
              let inside = inside_of (ground (arith, known)) (ground (arith, ready)) in
              Returns-bind (expected_height-Returns some_parents inside) λ n _.
                Returns-if (not (n == vx.height)) _ λ _. check_conflicts-Returns some_parents inside

-- What comes of an attempt: the error of the check, with the vertex remembered at most, or the maps of
-- the graph with the vertex.
pub data IsOutcome (hash : Vertex → Hash) (dag : Dag) (vx : Vertex)
    : Dag × Result DagError (List Hash) → Type 0 where
  refused :
      {e : DagError}
      → check_vertex hash dag vx ≡ err e
      → IsOutcome hash dag vx (on_error hash dag vx e, err e)
  accepted :
      {dag' : Dag} {ready : List Hash}
      → check_vertex hash dag vx ≡ ok tt
      → IsExtended hash dag vx dag'
      → IsOutcome hash dag vx (dag', ok ready)

-- And the DAG is sound, with the decisions that it had.
pub record IsTried (hash : Vertex → Hash) (dag : Dag) (vx : Vertex)
    (r : Dag × Result DagError (List Hash)) : Type 0 where
  pub sound : IsSound hash r.0
  pub outcome : IsOutcome hash dag vx r
  pub kept : KeepsDecided dag.state r.0.state

module _ (hash : Vertex → Hash) (dag : Dag) (i : IsSound hash dag) (vx : Vertex) where
  listed-IsTried :
      (dag' : Dag)
      → HasInserted hash dag vx dag'
      → KeepsDecided dag.state dag'.state
      → check_vertex hash dag vx ≡ ok tt
      → IsTried hash dag vx (dag', waiting_children dag' (get_known_children dag' (hash vx)))
  listed-IsTried dag' t k c = list (get dag'.children (hash vx)) t.listed
    where
      list :
          (o : Option (List Hash))
          → Map.is_some o ≡ true
          → IsTried hash dag vx (
            dag',
            waiting_children dag' (elim o [ some children ↦ ok children | none ↦ err not_found ]),
          )
      list none e = cc
      list (some children) e = record { sound = t.sound; outcome = accepted c t.extended; kept = k }

  after_insert-IsTried :
      {r : Result DagError Dag}
      → Returns (HasInserted hash dag vx) r
      → insert_vertex hash dag vx ≡ r
      → check_vertex hash dag vx ≡ ok tt
      → IsErrless r
      → IsTried hash dag vx (after_insert hash dag vx r)
  after_insert-IsTried (returns {a = dag'} t) q c f =
      listed-IsTried dag' t (insert_vertex-KeepsDecided hash dag vx dag' q) c
  after_insert-IsTried (fails {e}) q c f = absurd (f.no_error e refl)

  on_error-IsSound :
      (e : DagError)
      → IsGrounded hash (on_error hash dag vx e)
      → IsSound hash (on_error hash dag vx e)
  on_error-IsSound (missing_parents l) g = record {
    grounded = g;
    asking = i.asking;
    wired = i.wired;
    complete = i.complete;
  }
  on_error-IsSound (waiting_on_parents l) g = record {
    grounded = g;
    asking = i.asking;
    wired = i.wired;
    complete = i.complete;
  }
  on_error-IsSound e g = i

  on_error-kept : (e : DagError) → KeepsDecided dag.state (on_error hash dag vx e).state
  on_error-kept (missing_parents l) = KeepsDecided-refl dag.state
  on_error-kept (waiting_on_parents l) = KeepsDecided-refl dag.state
  on_error-kept e = KeepsDecided-refl dag.state

  module _ (fits : vx.height < u64_mod) (risen : vx.height ≢ 0) where
    after_check-IsTried :
        (r : Result DagError (Unit {0}))
        → Returns (λ _. Unit {0}) r
        → check_vertex hash dag vx ≡ r
        → IsGrounded hash (after_check hash dag vx r).0
        → IsTried hash dag vx (after_check hash dag vx r)
    after_check-IsTried (ok tt) _ c g =
        after_insert-IsTried
          (insert_vertex-Returns hash dag vx i fits risen (check_vertex-IsChecked dag vx hash c))
          refl c (insert_vertex-IsErrless hash dag vx)
    after_check-IsTried (err e) _ c g = record {
      sound = on_error-IsSound e g;
      outcome = refused c;
      kept = on_error-kept e;
    }
    after_check-IsTried panic p c g = absurd (Returns-panic p refl)

    -- An attempt to insert a vertex into a sound DAG does not panic, and keeps it sound.
    pub try_insert-IsTried : IsTried hash dag vx (try_insert hash dag vx)
    unfolding try_insert
    try_insert-IsTried =
        after_check-IsTried (check_vertex hash dag vx) (check_vertex-Returns hash dag i vx) refl
          (try_insert-IsGrounded hash dag vx i.grounded fits risen)

  rootless-sanity_checks : vx.parents ≡ [] → (x : VertexError) × (sanity_checks vx ≡ err x)
  unfolding sanity_checks
  rootless-sanity_checks root = elim (Bool-cases (not (vx.version == version))) [
    | inl e ↦ (bad_version version vx.version, ground (arith, e))
    | inr e ↦ (missing_field parents_field, ground (arith, e, root))
  ]

  rootless-check_vertex :
      (x : VertexError) → sanity_checks vx ≡ err x → check_vertex hash dag vx ≡ err (of_vertex x)
  unfolding check_vertex
  rootless-check_vertex x e = rw (e) refl

  -- A vertex without parents is refused, and changes nothing.
  pub try_insert-rootless : vx.parents ≡ [] → IsTried hash dag vx (try_insert hash dag vx)
  unfolding try_insert
  try_insert-rootless root =
      let (x, e) = rootless-sanity_checks root in
      let h = rootless-check_vertex x e in
      subst (λ r. IsTried hash dag vx (after_check hash dag vx r)) (sym h)
        (record { sound = i; outcome = refused h; kept = KeepsDecided-refl dag.state })
