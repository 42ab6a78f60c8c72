-- ===== src/Dag/Decisions.antt =====
-- What each update of the constraint graph does to the recorded decisions.
use libtaurus.Prelude.{
  ℕ, zero, suc, ◌≡◌, refl, Bool, true, false, Option, none, some, List, [], arith, Result, ok,
  try_fold, try_map, unwrap, >>=-eq-ok, ok-injective, unwrap-eq-ok, try_fold_rel,
}
use mathlib.Core.Path.{subst}
use libtaurus.Map
use libtaurus.Map.{get, get-nil, get-insert, get-try_insert}
use libtaurus.Constraint.{Constraint, Constraint-Key, ConflictSetKey-Key, conflict_set_key}
use libtaurus.Dag.{DagError, ConflictSet, State, new_conflict_set}
use libtaurus.Dag.Ancestors.{state_of, decision_of}
use libtaurus.Dag.Insert.{add_child, register, initial_state, constraint_parents}
use libtaurus.Hash.{Hash, Hash-Key}
use libtaurus.Vertex.{Vertex}
use libtaurus.Dag.Vote.{reject_progeny}

abbrev pub recorded : Option ConflictSet → Constraint → Option Bool
recorded none c = none
recorded (some s) c = get s.decision c

-- The decision on a constraint, if any.
abbrev pub decision : State → Constraint → Option Bool
decision state c = recorded (get state (conflict_set_key c)) c

abbrev pub is_accepted : Option Bool → Bool
is_accepted (some true) = true
is_accepted _ = false

abbrev pub accepted : State → Constraint → Bool
accepted state c = is_accepted (decision state c)

-- Nothing is accepted in `t` that is not accepted in `s`.
pub record NoNew (s t : State) : Type 0 where
  pub at : (c : Constraint) → accepted t c ≡ true → accepted s c ≡ true

pub NoNew-refl : (s : State) → NoNew s s
NoNew-refl s = record { at = λ c h. h }

pub NoNew-trans : {s t u : State} → NoNew s t → NoNew t u → NoNew s u
NoNew-trans p q = record { at = λ c h. p.at c (q.at c h) }

module _ (state : State) (c : Constraint) (s : ConflictSet) (known : state_of state c ≡ ok s) where
  -- One conflict set is replaced by one with no more acceptances.
  pub NoNew-insert :
      {t : State} (s' : ConflictSet)
      → ((d : Constraint)
          → is_accepted (get s'.decision d) ≡ true
          → is_accepted (get s.decision d) ≡ true)
      → ◌≡◌ {A = Result DagError State} (ok (Map.insert state (conflict_set_key c) s')) (ok t)
      → NoNew state t
  NoNew-insert {t} s' k h = rw (← ok-injective h) (record {
    at = λ d a. ground (
      arith,
      unwrap-eq-ok (get state (conflict_set_key c)) known,
      get-insert state (conflict_set_key c) s' (conflict_set_key d),
      k d,
    );
  })

pub add_child-NoNew :
    (c : Constraint) (state : State) (parent : Constraint) (t : State)
    → add_child c state parent ≡ ok t
    → NoNew state t
unfolding add_child
add_child-NoNew c state parent t h =
    let (s, e, h') = >>=-eq-ok (state_of state parent) _ h in
    NoNew-insert state parent s e _ (λ d a. a) h'

try_insert-NoNew :
    (state : State) (c : Constraint) (s : ConflictSet)
    → ((d : Constraint) → is_accepted (get s.decision d) ≡ false)
    → NoNew state (Map.try_insert state (conflict_set_key c) s)
try_insert-NoNew state c s fresh = record {
  at = λ d a.
      ground (arith, get-try_insert state (conflict_set_key c) s (conflict_set_key d), fresh d);
}

initial_state_undecided :
    (c : Constraint) (ps : List Constraint) (rejected : Bool) (d : Constraint)
    → is_accepted (get (initial_state c ps rejected).decision d) ≡ false
unfolding new_conflict_set
initial_state_undecided c ps true d =
    ground (arith, get-insert {V = Bool} [] c false d, get-nil {V = Bool} d)
initial_state_undecided c ps false d = rw (get-nil d)

pub register-NoNew :
    (vertex : Map.Map Hash Vertex) (state : State) (c : Constraint) (t : State)
    → register vertex state c ≡ ok t
    → NoNew state t
unfolding register
register-NoNew vertex state c t h =
    let (left, _, h₁) = >>=-eq-ok (unwrap (get vertex c.left)) _ h in
    let (right, _, h₂) = >>=-eq-ok (unwrap (get vertex c.right)) _ h₁ in
    let (decisions, _, h₃) =
      >>=-eq-ok (try_map (decision_of state) (constraint_parents left right)) _ h₂ in
    let (linked, e, h₄) =
      >>=-eq-ok (try_fold (add_child c) state (constraint_parents left right)) _ h₃ in
    NoNew-trans
      (try_fold_rel NoNew (add_child c) NoNew-refl (λ x y z. NoNew-trans) (add_child-NoNew c)
        (constraint_parents left right) state linked e)
      (subst (NoNew linked) (ok-injective h₄)
        (try_insert-NoNew linked c _ (initial_state_undecided c (constraint_parents left right) _)))

pub reject_progeny-NoNew :
    (fuel : ℕ) (state : State) (c : Constraint) (t : State)
    → reject_progeny fuel state c ≡ ok t
    → NoNew state t × (accepted t c ≡ false)
unfolding reject_progeny
reject_progeny-NoNew zero state c t h = cc
reject_progeny-NoNew (suc fuel) state c t h =
    let (s, e, h₁) = >>=-eq-ok (state_of state c) _ h in
    let (children, _, h₂) = >>=-eq-ok (unwrap (get s.children c)) _ h₁ in
    let s' = record s { decision = Map.insert s.decision c false } in
    let marked = Map.insert state (conflict_set_key c) s' in
    let first =
      NoNew-insert state c s e {t = marked} s'
        (λ d a. ground (arith, get-insert s.decision c false d)) refl in
    let rest =
      try_fold_rel NoNew (reject_progeny fuel) NoNew-refl (λ x y z. NoNew-trans)
        (λ x d y p. (reject_progeny-NoNew fuel x d y p).0) children marked t h₂ in
    let here : accepted marked c ≡ false = ground (
      arith,
      get-insert state (conflict_set_key c) s' (conflict_set_key c),
      get-insert s.decision c false c,
    ) in
    (NoNew-trans first rest, ground (arith, rest.at c))
