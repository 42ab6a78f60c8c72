-- ===== src/Dag/Registration.antt =====
-- The registration of a constraint whose vertices are in the graph.
use libtaurus.Prelude.{
  ℕ, ◌≤◌, ◌≡◌, refl, Option, none, some, [], ◌++◌, arith, max, if◌then◌else◌, any, All, All-weaken,
  All-append, All-insert_all, All-of_contains, contains-All, Returns, returns, Returns-bind,
  Returns-weaken, Returns-try_map, Returns-try_fold,
}
use libtaurus.Map
use libtaurus.Map.{Map, get, get-insert, get-try_insert, contains_key}
use libtaurus.Hash.{Hash, Hash-Key}
use libtaurus.Constraint.{Constraint, Constraint-Key, ConflictSetKey-Key, conflict_set_key}
use libtaurus.Vertex.{Vertex, parent_constraints}
use libtaurus.Dag.{ConflictSet, State}
use libtaurus.Dag.Ancestors.{decision_of}
use libtaurus.Dag.Insert.{add_child, constraint_parents, initial_state, is_rejection, register}
use libtaurus.Dag.Registering.{
  decision_of-registered, IsLinked, initial_state-IsFilled, IsUnder, parent_constraints-IsUnder,
  add_child-Returns,
}
use libtaurus.Dag.Wired.{
  IsRegistered, IsCommitted, IsFilled, IsWired, IsWired-insert, KeepsSets, KeepsSets-refl,
  KeepsSets-trans, KeepsSets-insert, IsRegistered-insert,
}

module _ (hash : Vertex → Hash) (vertex graph : Map Hash Vertex) (i : IsLinked vertex graph) where
  -- What a registration establishes.
  pub record HasRegistered (state : State) (c : Constraint) (t : State) : Type 0 where
    pub wired : IsWired hash graph t
    pub keeps : KeepsSets state t
    pub here : IsRegistered t c

  -- Both vertices of the constraint are in the graph, and what they commit to is registered.
  pub record IsReady (state : State) (c : Constraint) : Type 0 where
    pub committed : IsCommitted hash graph c
    pub left : Vertex
    pub right : Vertex
    pub left_found : get graph c.left ≡ some left
    pub right_found : get graph c.right ≡ some right
    pub parents : All (IsRegistered state) (constraint_parents left right)

  constraint_parents-IsUnder :
      (h k : Hash) (l r : Vertex)
      → get graph h ≡ some l
      → get graph k ≡ some r
      → All (IsUnder hash vertex graph i (max l.height r.height)) (constraint_parents l r)
  constraint_parents-IsUnder h k l r f g =
      let under : ℕ → Constraint → Type 0 = IsUnder hash vertex graph i in
      let n = max l.height r.height in
      let raise : (m : ℕ) → m ≤ n → (p : Constraint) → under m p → under n p = λ m b p u. record {
        committed = u.committed;
        level = u.level;
        below = u.below;
        lower = omega (arith, u.lower, b);
      } in
      All-insert_all (under n) [] (parent_constraints l ++ parent_constraints r) tt (
        All-append (under n) (parent_constraints l) (parent_constraints r)
          (All-weaken (under l.height) (under n) (parent_constraints l)
            (raise l.height (ground arith)) (parent_constraints-IsUnder hash vertex graph i h l f))
          (All-weaken (under r.height) (under n) (parent_constraints r)
            (raise r.height (ground arith)) (parent_constraints-IsUnder hash vertex graph i k r g)))

  try_insert-HasRegistered :
      (state t : State) (c : Constraint) (s : ConflictSet)
      → IsWired hash graph t
      → KeepsSets state t
      → ((d : Constraint) → conflict_set_key c ≡ conflict_set_key d → IsFilled hash graph d s)
      → HasRegistered state c (Map.try_insert t (conflict_set_key c) s)
  unfolding Map.try_insert
  try_insert-HasRegistered state t c s w k f = place (get t (conflict_set_key c)) refl
    where
      place :
          (o : Option ConflictSet)
          → get t (conflict_set_key c) ≡ o
          → HasRegistered state c (if Map.is_some o then t else Map.insert t (conflict_set_key c) s)
      place (some old) e = record { wired = w; keeps = k; here = record { entry = old; found = e } }
      place none e = record {
        wired = IsWired-insert hash graph t c s w f;
        keeps = KeepsSets-trans k (KeepsSets-insert t c s);
        here = IsRegistered-insert t c s;
      }

  pub register-Returns :
      (state : State) (c : Constraint)
      → IsWired hash graph state
      → IsReady state c
      → Returns (HasRegistered state c) (register vertex state c)
  unfolding register
  register-Returns state c w y =
      let l = y.left in
      let r = y.right in
      let under = constraint_parents-IsUnder c.left c.right l r y.left_found y.right_found in
      let ps = constraint_parents l r in
      let n = max l.height r.height in
      let Under : Constraint → Type 0 = IsUnder hash vertex graph i n in
      rw (i.known c.left l y.left_found, i.known c.right r y.right_found)
        (Returns-bind
          (Returns-try_map (IsRegistered state) (λ _. Unit {0}) (decision_of state)
            (λ p q. decision_of-registered state p q) ps y.parents)
          λ ds _.
            Returns-bind
              (Returns-try_fold (λ p. Under p × IsRegistered state p)
                (λ t. IsWired hash graph t × KeepsSets state t) (add_child c)
                (λ t p u k.
                  Returns-weaken
                    (add_child-Returns hash vertex graph i t c p k.0
                      (record {
                        committed = y.committed;
                        level = u.0.level;
                        child_level = n;
                        below = u.0.below;
                        above = record {
                          left = l;
                          right = r;
                          left_found = y.left_found;
                          right_found = y.right_found;
                          level = refl;
                        };
                        rises = u.0.lower;
                      })
                      (k.1.kept p u.1))
                    λ t' k'. (k'.0, KeepsSets-trans k.1 k'.1))
                ps state
                (All-of_contains (λ p. Under p × IsRegistered state p) ps
                  λ p m. (
                    contains-All Under ps p under m,
                    contains-All (IsRegistered state) ps p y.parents m,
                  ))
                (w, KeepsSets-refl state))
              λ t k. returns (
                try_insert-HasRegistered state t c (initial_state c ps (any is_rejection ds)) k.0
                  k.1
                  λ d q.
                    initial_state-IsFilled hash vertex graph i c ps (any is_rejection ds) d
                      (All-weaken Under (IsCommitted hash graph) ps (λ p u. u.committed) under) q))
