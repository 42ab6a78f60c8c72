-- ===== src/Dag/Registering.antt =====
-- `insert` registers what a vertex commits to, and does not panic on a vertex whose parents are in the
-- graph.
use mathlib.Core.Path.{subst}
use libtaurus.Prelude.{
  ℕ, ◌<◌, ◌≡◌, refl, sym, ap, ◌∙◌, Bool, true, false, Option, none, some, List, [], ◌∷◌, ◌⊎◌, inl,
  inr, arith, ◌≟◌, contains, contains-append, contains-unique, max, unique, some-injective,
  Option-cases, All, All-insert, All-of_contains, contains-All, Returns, returns, Returns-bind,
}
use libtaurus.Map
use libtaurus.Map.{Map, get, get-insert, get-try_insert, contains_key, is_some}
use libtaurus.Hash.{Hash, Hash-Key}
use libtaurus.Constraint.{
  Constraint, Constraint-Key, ConflictSetKey-Key, unity, conflict_set_key, conflict,
}
use libtaurus.Constraint.Keys.{conflict_set_key_iff}
use libtaurus.Constraint.Ends.{IsOn, constraints_of-IsOn}
use libtaurus.Vertex.{Vertex, parent_constraints}
use libtaurus.Dag.{ConflictSet, State, zip_keys, new_conflict_set}
use libtaurus.Dag.Ancestors.{state_of, decision_of}
use libtaurus.Dag.Insert.{extended, add_child, initial_state}
use libtaurus.Dag.Wired.{
  IsRegistered, IsLevel, IsCommitted, IsChild, IsFilled, IsWired, IsWired-insert, KeepsSets,
  KeepsSets-insert,
}

pub state_of-registered :
    (state : State) (c : Constraint)
    → IsRegistered state c
    → Returns (λ s. get state (conflict_set_key c) ≡ some s) (state_of state c)
state_of-registered state c r = rw (r.found) (returns refl)

pub decision_of-registered :
    (state : State) (c : Constraint)
    → IsRegistered state c
    → Returns (λ _. Unit {0}) (decision_of state c)
decision_of-registered state c r = Returns-bind (state_of-registered state c r) λ s _. returns tt

-- The vertices of the graph are known, and their parents are in it and lower.
pub record IsLinked (vertex graph : Map Hash Vertex) : Type 0 where
  pub known : (h : Hash) (v : Vertex) → get graph h ≡ some v → get vertex h ≡ some v
  pub linked :
      (h p : Hash) (v : Vertex)
      → get graph h ≡ some v
      → contains v.parents p ≡ true
      → (u : Vertex) × (get graph p ≡ some u) × (u.height < v.height)

zip_keys-mem :
    {A : Type 0} (c d : Constraint) (x y : A)
    → (c ≡ d) ⊎ (conflict c ≡ some d)
    → (get (zip_keys c (conflict c) x y) d ≡ some x)
      ⊎ (get (zip_keys c (conflict c) x y) d ≡ some y)
unfolding get
zip_keys-mem c d x y (inl e) = elim (Option-cases (conflict c)) [
  | inl n ↦ inl (rw (n, e) (ground arith))
  | inr (o, n) ↦ inl (rw (n, e) (ground arith))
]
zip_keys-mem c d x y (inr e) = rw (e) (ground arith)

either_some : {A : Type 0} (o : Option A) {x y : A} → (o ≡ some x) ⊎ (o ≡ some y) → is_some o ≡ true
either_some o h = ground arith

either_All :
    {A : Type 0} (P : A → Type 0) (o : Option (List A)) {xs ys : List A}
    → (o ≡ some xs) ⊎ (o ≡ some ys)
    → All P xs
    → All P ys
    → (zs : List A) → o ≡ some zs
    → All P zs
either_All P o (inl e) p q zs f = subst (All P) (some-injective (sym e ∙ f)) p
either_All P o (inr e) p q zs f = subst (All P) (some-injective (sym e ∙ f)) q

pub parent_constraints-IsOn :
    (v : Vertex) (c : Constraint) → contains (parent_constraints v) c ≡ true → IsOn v.parents c
unfolding parent_constraints
parent_constraints-IsOn v c m =
    contains-All (IsOn v.parents) (parent_constraints v) c (constraints_of-IsOn v.parents) m

module _ (hash : Vertex → Hash) (vertex graph : Map Hash Vertex) (i : IsLinked vertex graph) where
  new_conflict_set-IsFilled :
      (c : Constraint) (ps : List Constraint) (d : Constraint)
      → All (IsCommitted hash graph) ps
      → (c ≡ d) ⊎ (conflict c ≡ some d)
      → IsFilled hash graph d (new_conflict_set c ps)
  unfolding new_conflict_set
  new_conflict_set-IsFilled c ps d a m = record {
    chit =
        either_some (get (zip_keys c (conflict c) false false) d) (zip_keys-mem c d false false m);
    count = either_some (get (zip_keys c (conflict c) 0 0) d) (zip_keys-mem c d 0 0 m);
    children =
        either_some (get (zip_keys c (conflict c) [] []) d)
          (zip_keys-mem {A = List Constraint} c d [] [] m);
    parents = either_some (get (zip_keys c (conflict c) ps []) d) (zip_keys-mem c d ps [] m);
    below = λ ds e.
        either_All (IsChild hash graph d) (get (zip_keys c (conflict c) [] []) d)
          (zip_keys-mem {A = List Constraint} c d [] [] m) tt tt ds e;
    above = λ ds e.
        either_All (IsCommitted hash graph) (get (zip_keys c (conflict c) ps []) d)
          (zip_keys-mem c d ps [] m) a tt ds e;
  }

  pub initial_state-IsFilled :
      (c : Constraint) (ps : List Constraint) (rejected : Bool) (d : Constraint)
      → All (IsCommitted hash graph) ps
      → conflict_set_key c ≡ conflict_set_key d
      → IsFilled hash graph d (initial_state c ps rejected)
  initial_state-IsFilled c ps rejected d a k =
      fill rejected (new_conflict_set-IsFilled c ps d a ((conflict_set_key_iff c d).0 k))
    where
      fill :
          (b : Bool)
          → IsFilled hash graph d (new_conflict_set c ps)
          → IsFilled hash graph d (initial_state c ps b)
      fill false w = w
      fill true w = record {
        chit = w.chit;
        count = w.count;
        children = w.children;
        parents = w.parents;
        below = w.below;
        above = w.above;
      }

  -- The constraints that a vertex of the graph commits to are on lower vertices.
  pub record IsUnder (n : ℕ) (p : Constraint) : Type 0 where
    pub committed : IsCommitted hash graph p
    pub level : ℕ
    pub below : IsLevel graph p level
    pub lower : level < n

  pub parent_constraints-IsUnder :
      (h : Hash) (v : Vertex) → get graph h ≡ some v → All (IsUnder v.height) (parent_constraints v)
  parent_constraints-IsUnder h v e =
      All-of_contains (IsUnder v.height) (parent_constraints v) λ p c.
        let on = parent_constraints-IsOn v p c in
        let (l, f, lo) = i.linked h p.left v e on.left in
        let (r, g, ro) = i.linked h p.right v e on.right in
        record {
          committed = record {
            at = h;
            vertex = v;
            found = e;
            member = ground (
              arith,
              contains-append (unique (parent_constraints v)) (unity (hash v) ∷ []) p,
              contains-unique (parent_constraints v) p,
              c,
            );
          };
          level = max l.height r.height;
          below = record { left = l; right = r; left_found = f; right_found = g; level = refl };
          lower = ground (arith, lo, ro);
        }

  pub add_child-Returns :
      (state : State) (c p : Constraint)
      → IsWired hash graph state
      → IsChild hash graph p c
      → IsRegistered state p
      → Returns (λ t. IsWired hash graph t × KeepsSets state t) (add_child c state p)
  unfolding add_child
  add_child-Returns state c p w k r = Returns-bind (state_of-registered state p r) λ s f.
      let s' : ConflictSet = record s {
        children = Map.insert s.children p (extended c (get s.children p));
      } in
      returns (
        IsWired-insert hash graph state p s' w (λ d q.
            with_child s (w.entry p s f) d (w.entry d s (ap (λ x. get state x) (sym q) ∙ f))),
        KeepsSets-insert state p s',
      )
    where
      kids :
          (o : Option (List Constraint))
          → ((ds : List Constraint) → o ≡ some ds → All (IsChild hash graph p) ds)
          → All (IsChild hash graph p) (extended c o)
      kids none h = (k, tt)
      kids (some ds) h = All-insert (IsChild hash graph p) c ds k (h ds refl)

      with_child :
          (s : ConflictSet)
          → IsFilled hash graph p s
          → (d : Constraint) → IsFilled hash graph d s
          → IsFilled hash graph d
              (record s { children = Map.insert s.children p (extended c (get s.children p)) })
      with_child s own d b = record {
        chit = b.chit;
        count = b.count;
        children =
            ground (arith, get-insert s.children p (extended c (get s.children p)) d, b.children);
        parents = b.parents;
        below = λ ds e. elim (p ≟ d) [
          | yes same ↦
              let ds' = extended c (get s.children p) in
              subst (λ x. All (IsChild hash graph x) ds) same
                (subst (All (IsChild hash graph p))
                  (some-injective (sym (ground (arith, get-insert s.children p ds' d, same)) ∙ e))
                  (kids (get s.children p) own.below))
          | no other ↦
              b.below ds (
                ground (arith, get-insert s.children p (extended c (get s.children p)) d, e, other))
        ];
        above = b.above;
      }
