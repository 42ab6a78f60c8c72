-- ===== src/Dag/Inserting.antt =====
-- The insertion of a vertex into a sound DAG.
use mathlib.Core.Path.{subst}
use libtaurus.Prelude.{
  ◌<◌, ◌≡◌, ◌≢◌, refl, ap, ◌∙◌, true, Option, none, some, List, [], ◌∷◌, ◌⊎◌, inl, inr, arith, ◌≟◌,
  contains, u64_mod, All, All-of_contains, contains-All, ok, try_fold, try_map, insert, Returns,
  returns, Returns-bind, unwrap, IsErrless, ok-IsErrless, unwrap-IsErrless, >>=-IsErrless,
  try_map-IsErrless, try_fold-IsErrless,
}
use libtaurus.Map
use libtaurus.Map.{Map, get, get-insert, get-try_insert, contains_key}
use libtaurus.Hash.{Hash, Hash-Key}
use libtaurus.Constraint.{Constraint-Key, ConflictSetKey-Key, conflict_set_key}
use libtaurus.Vertex.{Vertex, sanity_checks, parent_constraints}
use libtaurus.Dag.{Dag, State}
use libtaurus.Dag.Ancestors.{state_of, decision_of}
use libtaurus.Dag.Insert.{
  add_child, constraint_parents, register, map_one, map_child, new_constraints, insert_vertex,
  remove_all,
}
use libtaurus.Dag.Heights.{IsChecked}
use libtaurus.Dag.Shape.{IsGrounded, IsExtended, extended-IsGrounded, still, origin}
use libtaurus.Dag.Registering.{IsLinked}
use libtaurus.Dag.Arrival.{HasRegisteredAll, arrive-Returns}
use libtaurus.Dag.Wired.{IsRegistered, IsComplete}
use libtaurus.Dag.Sound.{IsSound, IsCommitted-of_parents, IsWired-more}

pub sane-parents : (v : Vertex) → sanity_checks v ≡ ok tt → v.parents ≢ []
unfolding sanity_checks
sane-parents v s e = ground (arith, s, e)

-- A known list of children stays known.
map_child-keeps :
    (children : Map Hash (List Hash)) (h : Hash) (ps : List Hash) (k : Hash)
    → contains_key children k ≡ true
    → contains_key (map_child children h ps) k ≡ true
unfolding map_child
map_child-keeps children h [] k e = e
map_child-keeps children h (p ∷ ps) k e =
    map_child-keeps (map_one h children p) h ps k (one (get children p))
  where
    one :
        (o : Option (List Hash))
        → contains_key
            (elim o [
              | some known ↦ Map.insert children p (insert h known)
              | none ↦ Map.insert children p (h ∷ [])
            ])
            k
          ≡ true
    one none = ground (arith, get-insert children p (h ∷ []) k, e)
    one (some known) = ground (arith, get-insert children p (insert h known) k, e)

module _ (hash : Vertex → Hash) where
  -- What an insertion establishes.
  pub record HasInserted (dag : Dag) (vx : Vertex) (dag' : Dag) : Type 0 where
    pub extended : IsExtended hash dag vx dag'
    pub sound : IsSound hash dag'
    pub listed : contains_key dag'.children (hash vx) ≡ true

  module _ (dag : Dag) (vx : Vertex) (i : IsSound hash dag) (fits : vx.height < u64_mod)
      (risen : vx.height ≢ 0) (k : IsChecked dag vx hash) where
    graph' : Map Hash Vertex
    graph' = Map.insert dag.graph (hash vx) vx

    vertex' : Map Hash Vertex
    vertex' = Map.insert dag.vertex (hash vx) vx

    extension : State → Map Hash (List Hash) → Dag
    extension s children = record dag {
      vertex = vertex';
      children = children;
      state = s;
      graph = graph';
      pending_query = Map.insert dag.pending_query (hash vx) vx;
      frontier = Map.insert (remove_all dag.frontier vx.parents) (hash vx) vx;
    }

    extension-IsGrounded :
        (s : State) (children : Map Hash (List Hash)) → IsGrounded hash (extension s children)
    unfolding extension graph' vertex'
    extension-IsGrounded s children =
        extended-IsGrounded hash dag vx i.grounded fits risen (extension s children) k
          (record { graph = refl; vertex = refl; pending_query = refl; frontier = refl })

    self : get graph' (hash vx) ≡ some vx
    unfolding graph'
    self = Map.get-insert_self dag.graph (hash vx) vx

    kept : (h : Hash) (v : Vertex) → get dag.graph h ≡ some v → get graph' h ≡ some v
    unfolding graph'
    kept h v e = still hash dag vx i.grounded fits risen h v k.fresh e

    back :
        (h : Hash) (v : Vertex)
        → get graph' h ≡ some v
        → ((hash vx ≡ h) × (vx ≡ v)) ⊎ (get dag.graph h ≡ some v)
    unfolding graph'
    back h v e = origin hash dag vx i.grounded fits risen h v e

    parents_known :
        (p : Hash) (u : Vertex)
        → contains vx.parents p ≡ true
        → get graph' p ≡ some u
        → All (IsRegistered dag.state) (parent_constraints u)
    parents_known p u c e =
        let old : get dag.graph p ≡ some u = ground (arith, back p u e, k.present p c, k.fresh) in
        All-of_contains (IsRegistered dag.state) (parent_constraints u)
          λ d m. i.complete.registered d (IsCommitted-of_parents hash dag.graph p u d old m)

    still_asking :
        (h : Hash) (v : Vertex)
        → get (Map.insert dag.pending_query (hash vx) vx) h ≡ some v
        → v.parents ≢ []
    still_asking h v e = elim (hash vx ≟ h) [
      | yes q ↦
          let same : vx ≡ v = ground (arith, get-insert dag.pending_query (hash vx) vx h, e, q) in
          subst (λ (w : Vertex). w.parents ≢ []) same (sane-parents vx k.sane)
      | no q ↦ i.asking h v (ground (arith, get-insert dag.pending_query (hash vx) vx h, e, q))
    ]

    link : IsLinked vertex' graph'
    unfolding extension
    link = let g = extension-IsGrounded [] [] in record { known = g.known; linked = g.linked }

    all_registered :
        (s : State)
        → HasRegisteredAll hash vertex' graph' link dag.state (new_constraints hash vx) s
        → IsComplete hash graph' s
    all_registered s r = record {
      registered = λ c m. elim (back m.at m.vertex m.found) [
        | inl (q, same) ↦
            contains-All (IsRegistered s) (new_constraints hash vx) c r.here
              (ap (λ v. contains (new_constraints hash v) c) same ∙ m.member)
        | inr e ↦ r.keeps.kept c (
            i.complete.registered c
              (record { at = m.at; vertex = m.vertex; found = e; member = m.member }))
      ];
    }

    -- A vertex that passes `check_vertex` is inserted without a panic, and the DAG stays sound.
    pub insert_vertex-Returns : Returns (HasInserted dag vx) (insert_vertex hash dag vx)
    unfolding insert_vertex extension graph' vertex'
    insert_vertex-Returns =
        Returns-bind
          (arrive-Returns hash vertex' graph' link dag.state vx self parents_known
            (IsWired-more hash dag.graph graph' kept dag.state i.wired))
          λ s r. returns (record {
            extended = record {
              graph = refl;
              vertex = refl;
              pending_query = refl;
              frontier = refl;
            };
            sound = record {
              grounded = extension-IsGrounded s _;
              asking = still_asking;
              wired = r.wired;
              complete = all_registered s r;
            };
            listed =
                map_child-keeps (Map.try_insert dag.children (hash vx) []) (hash vx) vx.parents
                  (hash vx) (ground (arith, get-try_insert dag.children (hash vx) [] (hash vx)));
          })

  -- The insertion itself has no errors.
  pub insert_vertex-IsErrless : (dag : Dag) (vx : Vertex) → IsErrless (insert_vertex hash dag vx)
  unfolding insert_vertex register add_child
  insert_vertex-IsErrless dag vx =
      >>=-IsErrless
        (try_fold (register (Map.insert dag.vertex (hash vx) vx)) dag.state
          (new_constraints hash vx))
        _
        (try_fold-IsErrless (register (Map.insert dag.vertex (hash vx) vx))
          (new_constraints hash vx) dag.state
          λ state c.
            >>=-IsErrless (unwrap (get (Map.insert dag.vertex (hash vx) vx) c.left)) _
              (unwrap-IsErrless (get (Map.insert dag.vertex (hash vx) vx) c.left))
              λ l.
                >>=-IsErrless (unwrap (get (Map.insert dag.vertex (hash vx) vx) c.right)) _
                  (unwrap-IsErrless (get (Map.insert dag.vertex (hash vx) vx) c.right))
                  λ r.
                    >>=-IsErrless (try_map (decision_of state) (constraint_parents l r)) _
                      (try_map-IsErrless (decision_of state) (constraint_parents l r) λ p.
                        >>=-IsErrless (state_of state p) _
                          (unwrap-IsErrless (get state (conflict_set_key p))) λ s. ok-IsErrless _)
                      λ ds.
                        >>=-IsErrless (try_fold (add_child c) state (constraint_parents l r)) _
                          (try_fold-IsErrless (add_child c) (constraint_parents l r) state λ t p.
                            >>=-IsErrless (state_of t p) _
                              (unwrap-IsErrless (get t (conflict_set_key p))) λ s. ok-IsErrless _)
                          λ t. ok-IsErrless _)
        λ s. ok-IsErrless _
