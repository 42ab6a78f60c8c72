-- ===== src/Dag/Shape.antt =====
-- The graph of the DAG: its vertices are known under their hashes, their parents are in the graph and
-- lower, and the frontier is made of the vertices without children.
use mathlib.Core.Path.{subst}
use libtaurus.Prelude.{
  ◌<◌, ◌≡◌, ◌≢◌, refl, sym, ◌∙◌, ap, Bool, true, false, none, some, List, [], ◌∷◌, ◌⊎◌, inl, inr,
  ite, arith, if◌then◌else◌, ◌≟◌, contains, Bool-cases, Option-cases, u64_mod, Result, ok, err,
  panic, ◌>>=◌, >>=-eq-ok, ok-injective, err-injective, map_err, some-injective, try_fold,
}
use libtaurus.Map
use libtaurus.Map.{Map, get, get-insert, get-remove, contains_key}
use libtaurus.Hash.{Hash, Hash-Key}
use libtaurus.Vertex.{Vertex, VertexError, sanity_checks}
use libtaurus.Dag.{Dag, DagError, of_vertex, already_inserted, missing_parents, waiting_on_parents}
use libtaurus.Dag.Insert.{remove_all, register, new_constraints, insert_vertex}
use libtaurus.Dag.Check.{check_vertex}
use libtaurus.Dag.Pending.{remember, on_error, after_insert, after_check, try_insert}
use libtaurus.Dag.Heights.{IsAbove, IsChecked, check_vertex-IsChecked}

pub get-remove_all :
    (m : Map Hash Vertex) (ps : List Hash) (h : Hash)
    → get (remove_all m ps) h ≡ (if contains ps h then none else get m h)
unfolding remove_all
get-remove_all m [] h = refl
get-remove_all m (p ∷ ps) h = ground (arith, get-remove_all (Map.remove m p) ps h, get-remove m p h)

module _ (hash : Vertex → Hash) where
  pub record IsGrounded (dag : Dag) : Type 0 where
    pub known : (h : Hash) (v : Vertex) → get dag.graph h ≡ some v → get dag.vertex h ≡ some v
    pub hashed : (h : Hash) (v : Vertex) → get dag.graph h ≡ some v → hash v ≡ h
    pub small : (h : Hash) (v : Vertex) → get dag.vertex h ≡ some v → v.height < u64_mod
    pub linked :
        (h p : Hash) (v : Vertex)
        → get dag.graph h ≡ some v
        → contains v.parents p ≡ true
        → (u : Vertex) × (get dag.graph p ≡ some u) × (u.height < v.height)
    pub tip : (h : Hash) (v : Vertex) → get dag.frontier h ≡ some v → get dag.graph h ≡ some v
    pub childless :
        (h k : Hash) (v : Vertex)
        → contains_key dag.frontier h ≡ true
        → get dag.graph k ≡ some v
        → contains v.parents h ≡ false
    pub shown :
        (h : Hash)
        → contains_key dag.graph h ≡ true
        → ((k : Hash) (v : Vertex) → get dag.graph k ≡ some v → contains v.parents h ≡ false)
        → contains_key dag.frontier h ≡ true
    pub asked :
        (h : Hash) (v : Vertex) → get dag.pending_query h ≡ some v → get dag.graph h ≡ some v

  -- What an insertion leaves of the maps.
  pub record IsExtended (dag : Dag) (vx : Vertex) (dag' : Dag) : Type 0 where
    pub graph : dag'.graph ≡ Map.insert dag.graph (hash vx) vx
    pub vertex : dag'.vertex ≡ Map.insert dag.vertex (hash vx) vx
    pub pending_query : dag'.pending_query ≡ Map.insert dag.pending_query (hash vx) vx
    pub frontier : dag'.frontier ≡ Map.insert (remove_all dag.frontier vx.parents) (hash vx) vx

  pub insert_vertex-IsExtended :
      (dag : Dag) (vx : Vertex) (dag' : Dag)
      → insert_vertex hash dag vx ≡ ok dag'
      → IsExtended dag vx dag'
  unfolding insert_vertex
  insert_vertex-IsExtended dag vx dag' h =
      let (state, e, h₁) =
        >>=-eq-ok
          (try_fold (register (Map.insert dag.vertex (hash vx) vx)) dag.state
            (new_constraints hash vx))
          _ h in
      subst (λ (d : Dag). IsExtended dag vx d) (ok-injective h₁)
        (record { graph = refl; vertex = refl; pending_query = refl; frontier = refl })

  module _ (dag : Dag) (vx : Vertex) (i : IsGrounded dag) (fits : vx.height < u64_mod)
      (risen : vx.height ≢ 0) where
    graph-at :
        (j : Hash)
        → get (Map.insert dag.graph (hash vx) vx) j ≡ ite (hash vx ≟ j) (some vx) (get dag.graph j)
    graph-at j = get-insert dag.graph (hash vx) vx j

    -- A parent is lower than its new child.
    lower :
        IsAbove dag vx vx.height
        → (p : Hash) (u : Vertex) → contains vx.parents p ≡ true
        → get dag.vertex p ≡ some u
        → u.height < vx.height
    lower above p u c e =
        let (w, f, b) = above.bound p c in
        let (q, t, _, g, a) = above.attained in
        ground (arith, above.is_next, i.small q t g, risen, b, a, e, f)

    pub still :
        (j : Hash) (v : Vertex)
        → contains_key dag.graph (hash vx) ≡ false
        → get dag.graph j ≡ some v
        → get (Map.insert dag.graph (hash vx) vx) j ≡ some v
    still j v fresh e = ground (arith, graph-at j, e, fresh)

    pub origin :
        (j : Hash) (v : Vertex)
        → get (Map.insert dag.graph (hash vx) vx) j ≡ some v
        → ((hash vx ≡ j) × (vx ≡ v)) ⊎ (get dag.graph j ≡ some v)
    origin j v e = pick (hash vx ≟ j) (sym (graph-at j) ∙ e)
      where
        pick :
            (d : Dec (hash vx ≡ j))
            → ite d (some vx) (get dag.graph j) ≡ some v
            → ((hash vx ≡ j) × (vx ≡ v)) ⊎ (get dag.graph j ≡ some v)
        pick (yes q) e' = inl (q, some-injective e')
        pick (no q) e' = inr e'

    in_graph :
        (p : Hash) → contains_key dag.graph p ≡ true → (u : Vertex) × (get dag.graph p ≡ some u)
    in_graph p c = elim (Option-cases (get dag.graph p)) [
      | inl e ↦ ground (arith, e)
      | inr (u, e) ↦ (u, e)
    ]

    linked-IsGrounded :
        IsChecked dag vx hash
        → (h p : Hash) (v : Vertex) → get (Map.insert dag.graph (hash vx) vx) h ≡ some v
        → contains v.parents p ≡ true
        → (u : Vertex) × (get (Map.insert dag.graph (hash vx) vx) p ≡ some u)
          × (u.height < v.height)
    linked-IsGrounded k h p v e c = elim (origin h v e) [
      | inl (q, same) ↦
          let c' : contains vx.parents p ≡ true =
            ap (λ (w : Vertex). contains w.parents p) same ∙ c in
          let (u, f) = in_graph p (k.present p c') in
          (
            u,
            still p u k.fresh f,
            subst (λ (w : Vertex). u.height < w.height) same (lower k.above p u c' (i.known p u f)),
          )
      | inr f ↦ let (u, g, l) = i.linked h p v f c in (u, still p u k.fresh g, l)
    ]

    absent :
        (h j : Hash) (v : Vertex)
        → contains_key dag.graph h ≡ false
        → get dag.graph j ≡ some v
        → contains v.parents h ≡ false
    absent h j v out e = elim (Bool-cases (contains v.parents h)) [
      | inl c ↦ let (u, f, _) = i.linked j h v e c in ground (arith, f, out)
      | inr c ↦ c
    ]

    pub extended-IsGrounded :
        (dag' : Dag) → IsChecked dag vx hash → IsExtended dag vx dag' → IsGrounded dag'
    extended-IsGrounded dag' k x =
        let at_graph : (j : Hash)
            → get dag'.graph j ≡ ite (hash vx ≟ j) (some vx) (get dag.graph j) =
          λ j. ap (λ m. get m j) x.graph ∙ graph-at j in
        let at_vertex : (j : Hash)
            → get dag'.vertex j ≡ ite (hash vx ≟ j) (some vx) (get dag.vertex j) =
          λ j. ap (λ m. get m j) x.vertex ∙ get-insert dag.vertex (hash vx) vx j in
        let at_pending : (j : Hash)
            → get dag'.pending_query j ≡ ite (hash vx ≟ j) (some vx) (get dag.pending_query j) =
          λ j. ap (λ m. get m j) x.pending_query ∙ get-insert dag.pending_query (hash vx) vx j in
        let at_frontier : (j : Hash)
            → get dag'.frontier j
              ≡ ite (hash vx ≟ j) (some vx) (get (remove_all dag.frontier vx.parents) j) =
          λ j.
            ap (λ m. get m j) x.frontier
            ∙ get-insert (remove_all dag.frontier vx.parents) (hash vx) vx j in
        let back : (j : Hash) (v : Vertex)
            → get dag'.graph j ≡ some v
            → ((hash vx ≡ j) × (vx ≡ v)) ⊎ (get dag.graph j ≡ some v) =
          λ j v e. origin j v (sym (ap (λ m. get m j) x.graph) ∙ e) in
        record {
          known = λ h v e. ground (arith, at_graph h, at_vertex h, i.known h v, e);
          hashed = λ h v e. ground (arith, back h v e, i.hashed h v);
          small = λ h v e. ground (arith, at_vertex h, i.small h v, e, fits);
          linked = λ h p v e c.
              let (u, g, l) = linked-IsGrounded k h p v (sym (ap (λ m. get m h) x.graph) ∙ e) c in
              (u, ap (λ m. get m p) x.graph ∙ g, l);
          tip = λ h v e. ground (
            arith,
            at_frontier h,
            at_graph h,
            get-remove_all dag.frontier vx.parents h,
            i.tip h v,
            e,
          );
          childless = λ h j v c e. ground (
            arith,
            at_frontier h,
            back j v e,
            get-remove_all dag.frontier vx.parents h,
            i.childless h j v,
            absent h j v,
            k.present h,
            k.fresh,
            c,
          );
          shown = λ h c f.
              let kept : (j : Hash) (v : Vertex)
                  → get dag.graph j ≡ some v
                  → get dag'.graph j ≡ some v =
                λ j v e. ap (λ m. get m j) x.graph ∙ still j v k.fresh e in
              let before : contains_key dag.graph h ≡ true → contains_key dag.frontier h ≡ true =
                λ c'. i.shown h c' (λ j v e. f j v (kept j v e)) in
              ground (
                arith,
                at_graph h,
                at_graph (hash vx),
                at_frontier h,
                get-remove_all dag.frontier vx.parents h,
                before,
                f (hash vx) vx,
                c,
              );
          asked = λ h v e. ground (arith, at_pending h, at_graph h, i.asked h v, e);
        }

  module _ (dag : Dag) (vx : Vertex) (i : IsGrounded dag) (fits : vx.height < u64_mod)
      (risen : vx.height ≢ 0) where
    remember-IsGrounded :
        contains_key dag.graph (hash vx) ≡ false → IsGrounded (remember hash dag vx)
    remember-IsGrounded fresh = record {
      known = λ h v e. ground (arith, get-insert dag.vertex (hash vx) vx h, i.known h v, e, fresh);
      hashed = i.hashed;
      small = λ h v e. ground (arith, get-insert dag.vertex (hash vx) vx h, i.small h v, e, fits);
      linked = i.linked;
      tip = i.tip;
      childless = i.childless;
      shown = i.shown;
      asked = i.asked;
    }

    -- A vertex is remembered only if it is not in the graph.
    inserted-IsGrounded :
        (r : Result VertexError (Unit {0})) (b : Bool) (rest : Result DagError (Unit {0}))
        (e : DagError)
        → b ≡ true
        → (map_err of_vertex r >>= λ _. if b then err already_inserted else rest) ≡ err e
        → IsGrounded (on_error hash dag vx e)
    inserted-IsGrounded (ok _) true rest e t h =
        subst (λ x. IsGrounded (on_error hash dag vx x)) (err-injective h) i
    inserted-IsGrounded (ok _) false rest e t h = cc
    inserted-IsGrounded (err x) b rest e t h =
        subst (λ y. IsGrounded (on_error hash dag vx y)) (err-injective h) i
    inserted-IsGrounded panic b rest e t h = cc

    new-IsGrounded :
        contains_key dag.graph (hash vx) ≡ false
        → (e : DagError) → IsGrounded (on_error hash dag vx e)
    new-IsGrounded fresh (missing_parents l) = remember-IsGrounded fresh
    new-IsGrounded fresh (waiting_on_parents l) = remember-IsGrounded fresh
    new-IsGrounded fresh e = i

    refused-IsGrounded :
        (e : DagError) → check_vertex hash dag vx ≡ err e → IsGrounded (on_error hash dag vx e)
    unfolding check_vertex
    refused-IsGrounded e h = elim (Bool-cases (contains_key dag.graph (hash vx))) [
      | inl t ↦ inserted-IsGrounded (sanity_checks vx) (contains_key dag.graph (hash vx)) _ e t h
      | inr fresh ↦ new-IsGrounded fresh e
    ]

    after_insert-IsGrounded :
        (r : Result DagError Dag)
        → check_vertex hash dag vx ≡ ok tt
        → insert_vertex hash dag vx ≡ r
        → IsGrounded (after_insert hash dag vx r).0
    after_insert-IsGrounded (ok dag') c e =
        extended-IsGrounded dag vx i fits risen dag' (check_vertex-IsChecked dag vx hash c)
          (insert_vertex-IsExtended dag vx dag' e)
    after_insert-IsGrounded (err x) c e = i
    after_insert-IsGrounded panic c e = i

    after_check-IsGrounded :
        (r : Result DagError (Unit {0}))
        → check_vertex hash dag vx ≡ r
        → IsGrounded (after_check hash dag vx r).0
    after_check-IsGrounded (ok tt) c = after_insert-IsGrounded (insert_vertex hash dag vx) c refl
    after_check-IsGrounded (err e) c = refused-IsGrounded e c
    after_check-IsGrounded panic c = i

    -- An attempt to insert a vertex whose height is a `u64` other than 0 keeps the graph grounded,
    -- whatever comes of it.
    pub try_insert-IsGrounded : IsGrounded (try_insert hash dag vx).0
    unfolding try_insert
    try_insert-IsGrounded = after_check-IsGrounded (check_vertex hash dag vx) refl
