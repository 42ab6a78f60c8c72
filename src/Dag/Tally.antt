-- ===== src/Dag/Tally.antt =====
-- What each update of the constraint graph other than a vote does to the counters of votes.
use mathlib.Core.Path.{subst}
use libtaurus.Prelude.{
  ℕ, zero, suc, ◌≡◌, refl, ◌⊎◌, inl, inr, Bool, true, false, Option, none, some, List, ◌∷◌, [],
  ◌++◌, ◌==◌, arith, Result, ok, err, panic, try_fold, try_map, unwrap, >>=-eq-ok, ok-injective,
  unwrap-eq-ok, try_fold_rel,
}
use libtaurus.Map
use libtaurus.Map.{get, get-insert, get-try_insert}
use libtaurus.Hash.{Hash, Hash-Key}
use libtaurus.Constraint.{
  Constraint, Constraint-Key, ConflictSetKey-Key, conflict, conflict_set_key, unity,
}
use libtaurus.Vertex.{Vertex, parent_constraints}
use libtaurus.Dag.{
  Dag, DagError, Config, ConflictSet, State, zip_keys, new_conflict_set, check, empty, depth,
}
use libtaurus.Dag.Ancestors.{state_of, decision_of}
use libtaurus.Dag.Check.{check_vertex}
use libtaurus.Dag.Insert.{
  add_child, register, initial_state, constraint_parents, insert_vertex, new_constraints,
  accept_initial, insert_initial, new,
}
use libtaurus.Dag.Pending.{try_insert, after_check, after_insert, on_error}
use libtaurus.Dag.Vote.{reject_progeny, reject_opposite, accept, award_chit}

abbrev pub set_count : Option ConflictSet → Constraint → Option ℕ
set_count none c = none
set_count (some s) c = get s.count c

abbrev pub set_last : Option ConflictSet → Constraint → Bool
set_last none c = false
set_last (some s) c = s.last == c

-- The counter of a constraint, and whether the last vote of its conflict set was for it.
abbrev pub count_of : State → Constraint → Option ℕ
count_of state c = set_count (get state (conflict_set_key c)) c

abbrev pub is_last : State → Constraint → Bool
is_last state c = set_last (get state (conflict_set_key c)) c

-- No vote is counted in `t` that is not counted in `s`.
pub record NoVotes (s t : State) : Type 0 where
  pub at :
      (c : Constraint) (m : ℕ)
      → is_last t c ≡ true
      → count_of t c ≡ some m
      → ((is_last s c ≡ true) × (count_of s c ≡ some m)) ⊎ (m ≡ 0)

pub NoVotes-refl : (s : State) → NoVotes s s
NoVotes-refl s = record { at = λ c m l k. inl (l, k) }

pub NoVotes-trans : {s t u : State} → NoVotes s t → NoVotes t u → NoVotes s u
NoVotes-trans p q = record {
  at = λ c m l k. elim (q.at c m l k) [ inl (l', k') ↦ p.at c m l' k' | inr z ↦ inr z ];
}

loop-NoVotes :
    {A : Type 0} (f : State → A → Result DagError State)
    → ((s : State) (a : A) (t : State) → f s a ≡ ok t → NoVotes s t)
    → (xs : List A) (s t : State) → try_fold f s xs ≡ ok t
    → NoVotes s t
loop-NoVotes f step = try_fold_rel NoVotes f NoVotes-refl (λ s t u. NoVotes-trans) step

module _ (state : State) (c : Constraint) (s : ConflictSet) (known : state_of state c ≡ ok s) where
  -- One conflict set is replaced by one that counts no more votes.
  pub insert-NoVotes :
      {t : State} (s' : ConflictSet)
      → ((d : Constraint) (m : ℕ)
          → set_last (some s') d ≡ true
          → get s'.count d ≡ some m
          → ((set_last (some s) d ≡ true) × (get s.count d ≡ some m)) ⊎ (m ≡ 0))
      → ◌≡◌ {A = Result DagError State} (ok (Map.insert state (conflict_set_key c) s')) (ok t)
      → NoVotes state t
  insert-NoVotes {t} s' k h = rw (← ok-injective h) (record {
    at = λ d m. ground (
      arith,
      unwrap-eq-ok (get state (conflict_set_key c)) known,
      get-insert state (conflict_set_key c) s' (conflict_set_key d),
      k d m,
    );
  })

add_child-NoVotes :
    (c : Constraint) (state : State) (parent : Constraint) (t : State)
    → add_child c state parent ≡ ok t
    → NoVotes state t
unfolding add_child
add_child-NoVotes c state parent t h =
    let (s, e, h') = >>=-eq-ok (state_of state parent) _ h in
    insert-NoVotes state parent s e _ (λ d m l k. inl (l, k)) h'

try_insert-set-NoVotes :
    (state : State) (c : Constraint) (s : ConflictSet)
    → ((d : Constraint) (m : ℕ) → get s.count d ≡ some m → m ≡ 0)
    → NoVotes state (Map.try_insert state (conflict_set_key c) s)
try_insert-set-NoVotes state c s fresh = record {
  at = λ d m l k.
      ground
        (arith, get-try_insert state (conflict_set_key c) s (conflict_set_key d), fresh d m, l, k);
}

zip_keys_unvoted :
    (c d : Constraint) (o : Option Constraint) (m : ℕ) → get (zip_keys c o 0 0) d ≡ some m → m ≡ 0
unfolding get
zip_keys_unvoted c d none m h = ground (arith, h)
zip_keys_unvoted c d (some o) m h = ground (arith, h)

initial_state_unvoted :
    (c : Constraint) (ps : List Constraint) (rejected : Bool) (d : Constraint) (m : ℕ)
    → get (initial_state c ps rejected).count d ≡ some m
    → m ≡ 0
unfolding new_conflict_set
initial_state_unvoted c ps true d m h = zip_keys_unvoted c d (conflict c) m h
initial_state_unvoted c ps false d m h = zip_keys_unvoted c d (conflict c) m h

register-NoVotes :
    (vertex : Map.Map Hash Vertex) (state : State) (c : Constraint) (t : State)
    → register vertex state c ≡ ok t
    → NoVotes state t
unfolding register
register-NoVotes vertex state c t h =
    let (left, _, h₁) = >>=-eq-ok (unwrap (get vertex c.left)) _ h in
    let (right, _, h₂) = >>=-eq-ok (unwrap (get vertex c.right)) _ h₁ in
    let (decisions, _, h₃) =
      >>=-eq-ok (try_map (decision_of state) (constraint_parents left right)) _ h₂ in
    let (linked, e, h₄) =
      >>=-eq-ok (try_fold (add_child c) state (constraint_parents left right)) _ h₃ in
    NoVotes-trans
      (loop-NoVotes (add_child c) (add_child-NoVotes c) (constraint_parents left right) state linked
        e)
      (subst (NoVotes linked) (ok-injective h₄) (
        try_insert-set-NoVotes linked c _
          (initial_state_unvoted c (constraint_parents left right) _)))

reject_progeny-NoVotes :
    (fuel : ℕ) (state : State) (c : Constraint) (t : State)
    → reject_progeny fuel state c ≡ ok t
    → NoVotes state t
unfolding reject_progeny
reject_progeny-NoVotes zero state c t h = cc
reject_progeny-NoVotes (suc fuel) state c t h =
    let (s, e, h₁) = >>=-eq-ok (state_of state c) _ h in
    let (children, _, h₂) = >>=-eq-ok (unwrap (get s.children c)) _ h₁ in
    let s' = record s { decision = Map.insert s.decision c false } in
    let marked = Map.insert state (conflict_set_key c) s' in
    NoVotes-trans (insert-NoVotes state c s e {t = marked} s' (λ d m l k. inl (l, k)) refl)
      (loop-NoVotes (reject_progeny fuel) (reject_progeny-NoVotes fuel) children marked t h₂)

reject_opposite-NoVotes :
    (fuel : ℕ) (state : State) (o : Option Constraint) (t : State)
    → reject_opposite fuel state o ≡ ok t
    → NoVotes state t
reject_opposite-NoVotes fuel state none t h =
    subst (NoVotes state) (ok-injective h) (NoVotes-refl state)
reject_opposite-NoVotes fuel state (some opp) t h = reject_progeny-NoVotes fuel state opp t h

-- An acceptance counts no vote.
pub accept-NoVotes :
    (dag : Dag) (c : Constraint) (dag' : Dag)
    → accept dag c ≡ ok dag'
    → NoVotes dag.state dag'.state
unfolding accept
accept-NoVotes dag c dag' h =
    let (s, e, h₁) = >>=-eq-ok (state_of dag.state c) _ h in
    let s' = record s { decision = Map.insert s.decision c true; preferred = c } in
    let marked = Map.insert dag.state (conflict_set_key c) s' in
    let (t, e', h₂) = >>=-eq-ok (reject_opposite (depth dag) marked (conflict c)) _ h₁ in
    subst (λ (d : Dag). NoVotes dag.state d.state) (ok-injective h₂)
      (NoVotes-trans (insert-NoVotes dag.state c s e {t = marked} s' (λ d m l k. inl (l, k)) refl)
        (reject_opposite-NoVotes (depth dag) marked (conflict c) t e'))

-- Nor does a chit.
pub award_chit-NoVotes :
    (preferred : Bool) (state : State) (c : Constraint) (t : State)
    → award_chit preferred state c ≡ ok t
    → NoVotes state t
unfolding award_chit
award_chit-NoVotes true state c t h =
    let (s, e, h₁) = >>=-eq-ok (state_of state c) _ h in
    insert-NoVotes state c s e _ (λ d m l k. inl (l, k)) h₁
award_chit-NoVotes false state c t h = subst (NoVotes state) (ok-injective h) (NoVotes-refl state)

module _ (hash : Vertex → Hash) where
  insert_vertex-NoVotes :
      (dag : Dag) (vx : Vertex) (dag' : Dag)
      → insert_vertex hash dag vx ≡ ok dag'
      → NoVotes dag.state dag'.state
  unfolding insert_vertex
  insert_vertex-NoVotes dag vx dag' h =
      let vertex = Map.insert dag.vertex (hash vx) vx in
      let (state, e, h₁) =
        >>=-eq-ok (try_fold (register vertex) dag.state (new_constraints hash vx)) _ h in
      subst (λ (d : Dag). NoVotes dag.state d.state) (ok-injective h₁)
        (loop-NoVotes (register vertex) (register-NoVotes vertex) (new_constraints hash vx)
          dag.state state e)

  after_insert-NoVotes :
      (dag : Dag) (vx : Vertex) (r : Result DagError Dag)
      → insert_vertex hash dag vx ≡ r
      → NoVotes dag.state (after_insert hash dag vx r).0.state
  after_insert-NoVotes dag vx (ok dag') e = insert_vertex-NoVotes dag vx dag' e
  after_insert-NoVotes dag vx (err x) e = NoVotes-refl dag.state
  after_insert-NoVotes dag vx panic e = NoVotes-refl dag.state

  after_check-NoVotes :
      (dag : Dag) (vx : Vertex) (r : Result DagError (Unit {0}))
      → NoVotes dag.state (after_check hash dag vx r).0.state
  after_check-NoVotes dag vx (ok _) = after_insert-NoVotes dag vx (insert_vertex hash dag vx) refl
  after_check-NoVotes dag vx (err e) =
      let same : (on_error hash dag vx e).state ≡ dag.state = ground arith in
      rw (same) (NoVotes-refl dag.state)
  after_check-NoVotes dag vx panic = NoVotes-refl dag.state

  -- Nor does an insertion.
  pub try_insert-NoVotes :
      (dag : Dag) (vx : Vertex) → NoVotes dag.state (try_insert hash dag vx).0.state
  unfolding try_insert
  try_insert-NoVotes dag vx = after_check-NoVotes dag vx (check_vertex hash dag vx)

  accept_initial-NoVotes :
      (state : State) (c : Constraint) (t : State)
      → accept_initial hash state c ≡ ok t
      → NoVotes state t
  unfolding accept_initial
  accept_initial-NoVotes state c t h =
      let (s, e, h') = >>=-eq-ok (state_of state c) _ h in
      insert-NoVotes state c s e _ (λ d m l k. inl (l, k)) h'

  insert_initial-NoVotes :
      (dag : Dag) (vx : Vertex) (dag' : Dag)
      → insert_initial hash dag vx ≡ ok dag'
      → NoVotes dag.state dag'.state
  unfolding insert_initial
  insert_initial-NoVotes dag vx dag' h =
      let (d, e, h₁) = >>=-eq-ok (insert_vertex hash dag vx) _ h in
      let marks = parent_constraints vx ++ unity (hash vx) ∷ [] in
      let (s, k, h₂) = >>=-eq-ok (try_fold (accept_initial hash) d.state marks) _ h₁ in
      subst (λ (x : Dag). NoVotes dag.state x.state) (ok-injective h₂)
        (NoVotes-trans (insert_vertex-NoVotes dag vx d e)
          (loop-NoVotes (accept_initial hash) accept_initial-NoVotes marks d.state s k))

  -- Nor does the start of a DAG.
  pub new-NoVotes :
      (config : Config) (init : List Vertex) (dag : Dag)
      → new hash config init ≡ ok dag
      → NoVotes [] dag.state
  unfolding new
  new-NoVotes config init dag h =
      let (_, _, h₁) = >>=-eq-ok (check config) _ h in
      try_fold_rel (λ (d f : Dag). NoVotes d.state f.state) (insert_initial hash)
        (λ d. NoVotes-refl d.state) (λ d f g. NoVotes-trans) insert_initial-NoVotes init
        (empty config) dag h₁
