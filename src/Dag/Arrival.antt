-- ===== src/Dag/Arrival.antt =====
-- The registration of all that a vertex commits to, on a graph that has the vertex.
use libtaurus.Prelude.{
  ◌≡◌, ◌∙◌, true, some, List, [], ◌∷◌, ◌++◌, arith, contains, contains-append, contains-unique,
  unique, All, All-weaken, All-append, All-insert_all, All-of_contains, contains-All, try_fold,
  Returns, returns, Returns-bind, Returns-weaken, Returns-try_fold_append,
}
use libtaurus.Map.{Map, get}
use libtaurus.Hash.{Hash, Hash-Key}
use libtaurus.Constraint.{Constraint, Constraint-Key, ConflictSetKey-Key, unity}
use libtaurus.Vertex.{Vertex, parent_constraints}
use libtaurus.Dag.{State}
use libtaurus.Dag.Insert.{constraint_parents, register, new_constraints}
use libtaurus.Dag.Registering.{IsLinked, parent_constraints-IsOn}
use libtaurus.Dag.Wired.{
  IsRegistered, IsCommitted, IsWired, KeepsSets, KeepsSets-refl, KeepsSets-trans,
}
use libtaurus.Dag.Registration.{IsReady, register-Returns}

module _ (hash : Vertex → Hash) (vertex graph : Map Hash Vertex) (i : IsLinked vertex graph) where
  IsReady-kept :
      (s t : State) (c : Constraint)
      → KeepsSets s t
      → IsReady hash vertex graph i s c
      → IsReady hash vertex graph i t c
  IsReady-kept s t c k y = record {
    committed = y.committed;
    left = y.left;
    right = y.right;
    left_found = y.left_found;
    right_found = y.right_found;
    parents =
        All-weaken (IsRegistered s) (IsRegistered t) (constraint_parents y.left y.right) k.kept
          y.parents;
  }

  -- What the registration of several constraints establishes.
  pub record HasRegisteredAll (state : State) (cs : List Constraint) (t : State) : Type 0 where
    pub wired : IsWired hash graph t
    pub keeps : KeepsSets state t
    pub here : All (IsRegistered t) cs

  register_all-Returns :
      (state : State) (cs : List Constraint)
      → IsWired hash graph state
      → All (IsReady hash vertex graph i state) cs
      → Returns (HasRegisteredAll state cs) (try_fold (register vertex) state cs)
  unfolding try_fold
  register_all-Returns state [] w y =
      returns (record { wired = w; keeps = KeepsSets-refl state; here = tt })
  register_all-Returns state (c ∷ cs) w (y, ys) =
      Returns-bind (register-Returns hash vertex graph i state c w y) λ s r.
        Returns-weaken
          (register_all-Returns s cs r.wired (
            All-weaken (IsReady hash vertex graph i state) (IsReady hash vertex graph i s) cs
              (λ d z. IsReady-kept state s d r.keeps z) ys))
          λ t q. record {
            wired = q.wired;
            keeps = KeepsSets-trans r.keeps q.keeps;
            here = (q.keeps.kept c r.here, q.here);
          }

  -- All that a vertex of the graph commits to, when what its parents commit to is registered.
  pub arrive-Returns :
      (state : State) (vx : Vertex)
      → get graph (hash vx) ≡ some vx
      → ((p : Hash) (u : Vertex)
          → contains vx.parents p ≡ true
          → get graph p ≡ some u
          → All (IsRegistered state) (parent_constraints u))
      → IsWired hash graph state
      → Returns
          (HasRegisteredAll state (new_constraints hash vx))
          (try_fold (register vertex) state (new_constraints hash vx))
  arrive-Returns state vx e known w =
      Returns-try_fold_append (register vertex) state (unique (parent_constraints vx))
        (unity (hash vx) ∷ [])
        (register_all-Returns state (unique (parent_constraints vx)) w (
          All-insert_all (IsReady hash vertex graph i state) [] (parent_constraints vx) tt (
            All-of_contains (IsReady hash vertex graph i state) (parent_constraints vx) inherited)))
        λ s r.
          Returns-weaken (register_all-Returns s (unity (hash vx) ∷ []) r.wired (own s r.here, tt))
            λ t q. record {
              wired = q.wired;
              keeps = KeepsSets-trans r.keeps q.keeps;
              here =
                  All-append (IsRegistered t) (unique (parent_constraints vx))
                    (unity (hash vx) ∷ [])
                    (All-weaken (IsRegistered s) (IsRegistered t) (unique (parent_constraints vx))
                      q.keeps.kept r.here)
                    q.here;
            }
    where
      committed :
          (c : Constraint) → contains (new_constraints hash vx) c ≡ true → IsCommitted hash graph c
      committed c m = record { at = hash vx; vertex = vx; found = e; member = m }

      Registered : State → List Constraint → Type 0
      Registered t = All (IsRegistered t)

      both :
          (t : State) (l r : Vertex)
          → Registered t (parent_constraints l)
          → Registered t (parent_constraints r)
          → Registered t (constraint_parents l r)
      both t l r p q =
          All-insert_all (IsRegistered t) [] (parent_constraints l ++ parent_constraints r) tt
            (All-append (IsRegistered t) (parent_constraints l) (parent_constraints r) p q)

      inherited :
          (c : Constraint)
          → contains (parent_constraints vx) c ≡ true
          → IsReady hash vertex graph i state c
      inherited c m =
          let on = parent_constraints-IsOn vx c m in
          let (l, f, _) = i.linked (hash vx) c.left vx e on.left in
          let (r, g, _) = i.linked (hash vx) c.right vx e on.right in
          record {
            committed = committed c (
                ground (
                  arith,
                  contains-append (unique (parent_constraints vx)) (unity (hash vx) ∷ []) c,
                  contains-unique (parent_constraints vx) c,
                  m,
                ));
            left = l;
            right = r;
            left_found = f;
            right_found = g;
            parents = both state l r (known c.left l on.left f) (known c.right r on.right g);
          }

      own :
          (s : State)
          → Registered s (unique (parent_constraints vx))
          → IsReady hash vertex graph i s (unity (hash vx))
      own s here =
          let mine : Registered s (parent_constraints vx) =
            All-of_contains (IsRegistered s) (parent_constraints vx) λ c m.
              contains-All (IsRegistered s) (unique (parent_constraints vx)) c here
                (contains-unique (parent_constraints vx) c ∙ m) in
          record {
            committed = committed (unity (hash vx)) (
                ground (
                  arith,
                  contains-append (unique (parent_constraints vx)) (unity (hash vx) ∷ [])
                      (unity (hash vx)),
                ));
            left = vx;
            right = vx;
            left_found = e;
            right_found = e;
            parents = both s vx vx mine mine;
          }
