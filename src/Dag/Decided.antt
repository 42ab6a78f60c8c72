-- ===== src/Dag/Decided.antt =====
-- Decisions stay: a constraint that is decided is decided after every update of the DAG.
use mathlib.Core.Path.{subst}
use libtaurus.Prelude.{
  ℕ, zero, suc, ◌≡◌, refl, Bool, true, false, List, [], ◌∷◌, ◌++◌, arith, Result, ok, try_fold,
  try_map, unwrap, >>=-eq-ok, ok-injective, unwrap-eq-ok, try_fold_rel,
}
use libtaurus.Map
use libtaurus.Map.{Map, get, get-insert, get-try_insert, is_some}
use libtaurus.Hash.{Hash, Hash-Key}
use libtaurus.Vertex.{Vertex}
use libtaurus.Constraint.{Constraint, Constraint-Key, ConflictSetKey-Key, conflict_set_key}
use libtaurus.Dag.{Dag, DagError, ConflictSet, State}
use libtaurus.Dag.Ancestors.{state_of, decision_of}
use libtaurus.Dag.Insert.{
  add_child, register, constraint_parents, accept_initial, insert_vertex, new_constraints,
}
use libtaurus.Dag.Vote.{reject_progeny}
use libtaurus.Dag.Decisions.{decision}

-- Whether a decision is recorded for a constraint.
abbrev pub is_decided : State → Constraint → Bool
is_decided state c = is_some (decision state c)

-- What is decided in `s` is decided in `t`.
pub record KeepsDecided (s t : State) : Type 0 where
  pub at : (c : Constraint) → is_decided s c ≡ true → is_decided t c ≡ true

pub KeepsDecided-refl : (s : State) → KeepsDecided s s
KeepsDecided-refl s = record { at = λ c h. h }

pub KeepsDecided-trans : {s t u : State} → KeepsDecided s t → KeepsDecided t u → KeepsDecided s u
KeepsDecided-trans p q = record { at = λ c h. q.at c (p.at c h) }

-- A loop whose rounds keep the decisions.
loop-KeepsDecided :
    {A : Type 0} (f : State → A → Result DagError State)
    → ((s : State) (a : A) (t : State) → f s a ≡ ok t → KeepsDecided s t)
    → (xs : List A) (s t : State) → try_fold f s xs ≡ ok t
    → KeepsDecided s t
loop-KeepsDecided f step =
    try_fold_rel KeepsDecided f KeepsDecided-refl (λ s t u. KeepsDecided-trans) step

module _ (state : State) (c : Constraint) (s : ConflictSet) (known : state_of state c ≡ ok s) where
  -- One conflict set is replaced by one with at least its decisions.
  pub insert-KeepsDecided :
      {t : State} (s' : ConflictSet)
      → ((d : Constraint) → is_some (get s.decision d) ≡ true → is_some (get s'.decision d) ≡ true)
      → ◌≡◌ {A = Result DagError State} (ok (Map.insert state (conflict_set_key c) s')) (ok t)
      → KeepsDecided state t
  insert-KeepsDecided {t} s' k h = rw (← ok-injective h) (record {
    at = λ d a. ground (
      arith,
      unwrap-eq-ok (get state (conflict_set_key c)) known,
      get-insert state (conflict_set_key c) s' (conflict_set_key d),
      k d,
    );
  })

-- A decision is recorded.
pub decided_more :
    (m : Map Constraint Bool) (c : Constraint) (b : Bool) (d : Constraint)
    → is_some (get m d) ≡ true
    → is_some (get (Map.insert m c b) d) ≡ true
decided_more m c b d h = ground (arith, get-insert m c b d)

add_child-KeepsDecided :
    (c : Constraint) (state : State) (parent : Constraint) (t : State)
    → add_child c state parent ≡ ok t
    → KeepsDecided state t
unfolding add_child
add_child-KeepsDecided c state parent t h =
    let (s, e, h') = >>=-eq-ok (state_of state parent) _ h in
    insert-KeepsDecided state parent s e _ (λ d a. a) h'

try_insert-KeepsDecided :
    (state : State) (c : Constraint) (s : ConflictSet)
    → KeepsDecided state (Map.try_insert state (conflict_set_key c) s)
try_insert-KeepsDecided state c s = record {
  at = λ d a. ground (arith, get-try_insert state (conflict_set_key c) s (conflict_set_key d));
}

register-KeepsDecided :
    (vertex : Map Hash Vertex) (state : State) (c : Constraint) (t : State)
    → register vertex state c ≡ ok t
    → KeepsDecided state t
unfolding register
register-KeepsDecided vertex state c t h =
    let (left, _, h₁) = >>=-eq-ok (unwrap (get vertex c.left)) _ h in
    let (right, _, h₂) = >>=-eq-ok (unwrap (get vertex c.right)) _ h₁ in
    let (decisions, _, h₃) =
      >>=-eq-ok (try_map (decision_of state) (constraint_parents left right)) _ h₂ in
    let (linked, e, h₄) =
      >>=-eq-ok (try_fold (add_child c) state (constraint_parents left right)) _ h₃ in
    KeepsDecided-trans
      (loop-KeepsDecided (add_child c) (add_child-KeepsDecided c) (constraint_parents left right)
        state linked e)
      (subst (KeepsDecided linked) (ok-injective h₄) (try_insert-KeepsDecided linked c _))

pub reject_progeny-KeepsDecided :
    (fuel : ℕ) (state : State) (c : Constraint) (t : State)
    → reject_progeny fuel state c ≡ ok t
    → KeepsDecided state t
unfolding reject_progeny
reject_progeny-KeepsDecided zero state c t h = cc
reject_progeny-KeepsDecided (suc fuel) state c t h =
    let (s, e, h₁) = >>=-eq-ok (state_of state c) _ h in
    let (children, _, h₂) = >>=-eq-ok (unwrap (get s.children c)) _ h₁ in
    let s' = record s { decision = Map.insert s.decision c false } in
    let marked = Map.insert state (conflict_set_key c) s' in
    KeepsDecided-trans
      (insert-KeepsDecided state c s e {t = marked} s' (decided_more s.decision c false) refl)
      (loop-KeepsDecided (reject_progeny fuel) (reject_progeny-KeepsDecided fuel) children marked t
        h₂)

module _ (hash : Vertex → Hash) where
  pub insert_vertex-KeepsDecided :
      (dag : Dag) (vx : Vertex) (dag' : Dag)
      → insert_vertex hash dag vx ≡ ok dag'
      → KeepsDecided dag.state dag'.state
  unfolding insert_vertex
  insert_vertex-KeepsDecided dag vx dag' h =
      let vertex = Map.insert dag.vertex (hash vx) vx in
      let (state, e, h₁) =
        >>=-eq-ok (try_fold (register vertex) dag.state (new_constraints hash vx)) _ h in
      subst (λ (d : Dag). KeepsDecided dag.state d.state) (ok-injective h₁)
        (loop-KeepsDecided (register vertex) (register-KeepsDecided vertex)
          (new_constraints hash vx) dag.state state e)

  accept_initial-KeepsDecided :
      (state : State) (c : Constraint) (t : State)
      → accept_initial hash state c ≡ ok t
      → KeepsDecided state t × (is_decided t c ≡ true)
  unfolding accept_initial
  accept_initial-KeepsDecided state c t h =
      let (s, e, h') = >>=-eq-ok (state_of state c) _ h in
      let s' = record s { decision = Map.insert s.decision c true } in
      (
        insert-KeepsDecided state c s e s' (decided_more s.decision c true) h',
        subst (λ u. is_decided u c ≡ true) (ok-injective h')
            (ground (
              arith,
              get-insert state (conflict_set_key c) s' (conflict_set_key c),
              get-insert s.decision c true c,
            )),
      )

  -- The constraints that are accepted at the start are decided.
  pub accept_initial-is_decided :
      (cs : List Constraint) (c : Constraint) (state t : State)
      → try_fold (accept_initial hash) state (cs ++ c ∷ []) ≡ ok t
      → is_decided t c ≡ true
  unfolding try_fold
  accept_initial-is_decided [] c state t h =
      let (u, e, h₁) = >>=-eq-ok (accept_initial hash state c) _ h in
      subst (λ x. is_decided x c ≡ true) (ok-injective h₁)
        (accept_initial-KeepsDecided state c u e).1
  accept_initial-is_decided (d ∷ cs) c state t h =
      let (u, e, h₁) = >>=-eq-ok (accept_initial hash state d) _ h in
      accept_initial-is_decided cs c u t h₁
