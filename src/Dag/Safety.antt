-- ===== src/Dag/Safety.antt =====
-- No two conflicting constraints are ever both accepted.
use mathlib.Core.Path.{subst}
use libtaurus.Prelude.{
  ℕ, ◌≡◌, refl, Bool, true, false, Option, none, some, List, [], ◌∷◌, ◌++◌, ◌⊎◌, inl, inr, arith,
  Result, ok, err, panic, Option-cases, try_fold, unwrap, >>=-eq-ok, ok-injective, unwrap-eq-ok,
  try_fold_rel, if◌then◌else◌,
}
use libtaurus.Map
use libtaurus.Map.{get, get-insert, get-remove}
use libtaurus.Hash.{Hash, Hash-Key}
use libtaurus.Vertex.{Vertex}
use libtaurus.Constraint.{
  Constraint, Constraint-Key, ConflictSetKey-Key, conflict_set_key, conflict, unity,
}
use libtaurus.Constraint.Keys.{conflict_symm}
use libtaurus.Dag.{Dag, DagError, ConflictSet, State, depth}
use libtaurus.Dag.Ancestors.{state_of, get_active_ancestor_constraints}
use libtaurus.Dag.Insert.{register, insert_vertex, new_constraints}
use libtaurus.Dag.Pending.{try_insert, after_check, after_insert, on_error}
use libtaurus.Dag.Check.{check_vertex}
use libtaurus.Dag.Vote.{
  reject_opposite, count_vote, award_chit, accept, vote_for, vote_against, vote, prefer, can_accept,
  confidence_of, opposite_confidence, has_conflict, record_pending, record_query_result,
  unwrap_result,
}
use libtaurus.Dag.Decisions.{
  accepted, NoNew, NoNew-refl, NoNew-trans, NoNew-insert, register-NoNew, reject_progeny-NoNew,
}

pub record IsConsistent (state : State) : Type 0 where
  pub apart :
      (c o : Constraint)
      → conflict c ≡ some o
      → accepted state c ≡ true
      → accepted state o ≡ true
      → ⊥

pub NoNew-IsConsistent : {s t : State} → NoNew s t → IsConsistent s → IsConsistent t
NoNew-IsConsistent n h = record { apart = λ c o e p q. h.apart c o e (n.at c p) (n.at o q) }

-- `t` has the acceptances of `s` and at most one more.
pub record OneMore (c : Constraint) (s t : State) : Type 0 where
  pub at : (d : Constraint) → accepted t d ≡ true → (d ≡ c) ⊎ (accepted s d ≡ true)

pub OneMore-mark :
    (state : State) (c : Constraint) (s s' : ConflictSet)
    → s'.decision ≡ Map.insert s.decision c true
    → state_of state c ≡ ok s
    → OneMore c state (Map.insert state (conflict_set_key c) s')
OneMore-mark state c s s' e known = record {
  at = λ d a. ground (
    arith,
    unwrap-eq-ok (get state (conflict_set_key c)) known,
    get-insert state (conflict_set_key c) s' (conflict_set_key d),
    get-insert s.decision c true d,
  );
}

pub OneMore-IsConsistent :
    {s t : State} (c : Constraint)
    → OneMore c s t
    → ((o : Constraint) → conflict c ≡ some o → accepted t o ≡ false)
    → IsConsistent s
    → IsConsistent t
OneMore-IsConsistent {s} {t} c more rejected h = record {
  apart = λ d o e p q.
      ground (arith, more.at d, more.at o, rejected o, rejected d, h.apart d o, conflict_symm d o);
}

reject_opposite-NoNew :
    (fuel : ℕ) (state : State) (o : Option Constraint) (t : State)
    → reject_opposite fuel state o ≡ ok t
    → NoNew state t × ((d : Constraint) → o ≡ some d → accepted t d ≡ false)
reject_opposite-NoNew fuel state none t h =
    (subst (NoNew state) (ok-injective h) (NoNew-refl state), λ d e. cc)
reject_opposite-NoNew fuel state (some opp) t h =
    let (n, gone) = reject_progeny-NoNew fuel state opp t h in (n, λ d e. ground (arith, gone))

accept-IsConsistent :
    (dag : Dag) (c : Constraint) (dag' : Dag)
    → accept dag c ≡ ok dag'
    → IsConsistent dag.state
    → IsConsistent dag'.state
unfolding accept
accept-IsConsistent dag c dag' h i =
    let (s, e, h₁) = >>=-eq-ok (state_of dag.state c) _ h in
    let marked =
      Map.insert dag.state (conflict_set_key c)
        (record s { decision = Map.insert s.decision c true; preferred = c }) in
    let (t, e', h₂) = >>=-eq-ok (reject_opposite (depth dag) marked (conflict c)) _ h₁ in
    let (n, gone) = reject_opposite-NoNew (depth dag) marked (conflict c) t e' in
    let more =
      OneMore-mark dag.state c s
        (record s { decision = Map.insert s.decision c true; preferred = c }) refl e in
    subst (λ (d : Dag). IsConsistent d.state) (ok-injective h₂)
      (OneMore-IsConsistent c (record { at = λ d a. more.at d (n.at d a) }) gone i)

count_vote-decision :
    (s : ConflictSet) (c : Constraint) (t : ConflictSet)
    → count_vote s c ≡ ok t
    → t.decision ≡ s.decision
unfolding count_vote
count_vote-decision s c t h = ground arith

vote_for-IsConsistent :
    (dag : Dag) (c : Constraint) (dag' : Dag)
    → vote_for dag c ≡ ok dag'
    → IsConsistent dag.state
    → IsConsistent dag'.state
unfolding vote_for
vote_for-IsConsistent dag c dag' h i =
    let (c_conf, _, h₁) = >>=-eq-ok (confidence_of (depth dag) dag.state c) _ h in
    let (opp_conf, _, h₂) =
      >>=-eq-ok (opposite_confidence (depth dag) dag.state (conflict c)) _ h₁ in
    let (s, e, h₃) = >>=-eq-ok (state_of dag.state c) _ h₂ in
    let (s', e', h₄) = >>=-eq-ok (count_vote (prefer s c c_conf opp_conf) c) _ h₃ in
    let (c_count, _, h₅) = >>=-eq-ok (unwrap (get s'.count c)) _ h₄ in
    let (c_parents, _, h₆) = >>=-eq-ok (unwrap (get s'.parents c)) _ h₅ in
    let counted = record dag { state = Map.insert dag.state (conflict_set_key c) s' } in
    let (decided, _, h₇) =
      >>=-eq-ok (can_accept counted c_count c_parents (has_conflict dag.state (conflict c))) _ h₆ in
    let same = count_vote-decision (prefer s c c_conf opp_conf) c s' e' in
    let j =
      NoNew-IsConsistent
        (NoNew-insert dag.state c s e {t = counted.state} s' (λ d a. rw same at a) refl) i in
    branch decided counted h₇ j
  where
    branch :
        (decided : Bool) (counted : Dag)
        → (if decided then accept counted c else ok counted) ≡ ok dag'
        → IsConsistent counted.state
        → IsConsistent dag'.state
    branch true counted k j = accept-IsConsistent counted c dag' k j
    branch false counted k j = subst (λ (d : Dag). IsConsistent d.state) (ok-injective k) j

vote_against-IsConsistent :
    (dag : Dag) (c : Constraint) (dag' : Dag)
    → vote_against dag c ≡ ok dag'
    → IsConsistent dag.state
    → IsConsistent dag'.state
unfolding vote_against
vote_against-IsConsistent dag c dag' h i =
    let (s, e, h₁) = >>=-eq-ok (state_of dag.state c) _ h in
    subst (λ (d : Dag). IsConsistent d.state) (ok-injective h₁)
      (NoNew-IsConsistent
        (NoNew-insert dag.state c s e (record s { count = Map.insert s.count c 0 }) (λ d a. a) refl)
        i)

award_chit-NoNew :
    (preferred : Bool) (state : State) (c : Constraint) (t : State)
    → award_chit preferred state c ≡ ok t
    → NoNew state t
unfolding award_chit
award_chit-NoNew true state c t h =
    let (s, e, h₁) = >>=-eq-ok (state_of state c) _ h in NoNew-insert state c s e _ (λ d a. a) h₁
award_chit-NoNew false state c t h = subst (NoNew state) (ok-injective h) (NoNew-refl state)

vote-IsConsistent :
    (preferred : Bool) (dag : Dag) (c : Constraint) (dag' : Dag)
    → vote preferred dag c ≡ ok dag'
    → IsConsistent dag.state
    → IsConsistent dag'.state
vote-IsConsistent true = vote_for-IsConsistent
vote-IsConsistent false = vote_against-IsConsistent

votes-IsConsistent :
    (preferred : Bool) (cs : List Constraint) (dag dag' : Dag)
    → try_fold (vote preferred) dag cs ≡ ok dag'
    → IsConsistent dag.state
    → IsConsistent dag'.state
votes-IsConsistent preferred =
    try_fold_rel (λ (d e : Dag). IsConsistent d.state → IsConsistent e.state) (vote preferred)
      (λ d i. i) (λ d e f p q i. q (p i)) (vote-IsConsistent preferred)

record_pending-IsConsistent :
    (dag : Dag) (vhash : Hash) (vx : Vertex) (preferred : Bool) (dag' : Dag)
    → record_pending dag vhash vx preferred ≡ ok dag'
    → IsConsistent dag.state
    → IsConsistent dag'.state
unfolding record_pending
record_pending-IsConsistent dag vhash vx preferred dag' h i =
    let (state, e, h₁) = >>=-eq-ok (award_chit preferred dag.state (unity vhash)) _ h in
    let awarded = record dag { state = state } in
    let (cs, _, h₂) = >>=-eq-ok (unwrap_result (get_active_ancestor_constraints awarded vx)) _ h₁ in
    votes-IsConsistent preferred (cs ++ unity vhash ∷ []) awarded dag' h₂
      (NoNew-IsConsistent (award_chit-NoNew preferred dag.state (unity vhash) state e) i)

-- Recording a query keeps conflicting constraints from being both accepted.
pub record_query_result-IsConsistent :
    (dag : Dag) (vhash : Hash) (preferred : Bool) (dag' : Dag)
    → record_query_result dag vhash preferred ≡ ok dag'
    → IsConsistent dag.state
    → IsConsistent dag'.state
unfolding record_query_result
record_query_result-IsConsistent dag vhash preferred dag' h i =
    elim (Option-cases (get dag.pending_query vhash)) [
      | inl e ↦ ground (arith, e)
      | inr (vx, e) ↦
          record_pending-IsConsistent
            (record dag { pending_query = Map.remove dag.pending_query vhash }) vhash vx preferred
            dag' (rw (e, record_query_result) at h) i
    ]

module _ (hash : Vertex → Hash) where
  pub insert_vertex-NoNew :
      (dag : Dag) (vx : Vertex) (dag' : Dag)
      → insert_vertex hash dag vx ≡ ok dag'
      → NoNew dag.state dag'.state
  unfolding insert_vertex
  insert_vertex-NoNew dag vx dag' h =
      let vertex = Map.insert dag.vertex (hash vx) vx in
      let (state, e, h₁) =
        >>=-eq-ok (try_fold (register vertex) dag.state (new_constraints hash vx)) _ h in
      subst (λ (d : Dag). NoNew dag.state d.state) (ok-injective h₁)
        (try_fold_rel NoNew (register vertex) NoNew-refl (λ x y z. NoNew-trans)
          (register-NoNew vertex) (new_constraints hash vx) dag.state state e)

  after_insert-NoNew :
      (dag : Dag) (vx : Vertex) (r : Result DagError Dag)
      → insert_vertex hash dag vx ≡ r
      → NoNew dag.state (after_insert hash dag vx r).0.state
  after_insert-NoNew dag vx (ok dag') e = insert_vertex-NoNew dag vx dag' e
  after_insert-NoNew dag vx (err x) e = NoNew-refl dag.state
  after_insert-NoNew dag vx panic e = NoNew-refl dag.state

  on_error-state :
      (dag : Dag) (vx : Vertex) (e : DagError) → (on_error hash dag vx e).state ≡ dag.state
  on_error-state dag vx e = ground arith

  after_check-NoNew :
      (dag : Dag) (vx : Vertex) (r : Result DagError (Unit {0}))
      → NoNew dag.state (after_check hash dag vx r).0.state
  after_check-NoNew dag vx (ok _) = after_insert-NoNew dag vx (insert_vertex hash dag vx) refl
  after_check-NoNew dag vx (err e) = rw (on_error-state dag vx e) (NoNew-refl dag.state)
  after_check-NoNew dag vx panic = NoNew-refl dag.state

  -- An insertion accepts nothing, whatever it returns.
  pub try_insert-NoNew :
      (dag : Dag) (vx : Vertex) → NoNew dag.state (try_insert hash dag vx).0.state
  unfolding try_insert
  try_insert-NoNew dag vx = after_check-NoNew dag vx (check_vertex hash dag vx)

  pub try_insert-IsConsistent :
      (dag : Dag) (vx : Vertex)
      → IsConsistent dag.state
      → IsConsistent (try_insert hash dag vx).0.state
  try_insert-IsConsistent dag vx i = NoNew-IsConsistent (try_insert-NoNew dag vx) i
