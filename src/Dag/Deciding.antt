-- ===== src/Dag/Deciding.antt =====
-- A vote keeps the decisions that were recorded before it.
use mathlib.Core.Path.{subst}
use libtaurus.Prelude.{
  ℕ, ◌≡◌, refl, Bool, true, false, Option, none, some, [], ◌∷◌, ◌++◌, inl, inr, arith, ok,
  Option-cases, unwrap, >>=-eq-ok, ok-injective, try_fold_rel, if◌then◌else◌,
}
use libtaurus.Map
use libtaurus.Map.{Map, get, get-insert, get-try_insert, is_some}
use libtaurus.Hash.{Hash, Hash-Key}
use libtaurus.Vertex.{Vertex}
use libtaurus.Constraint.{
  Constraint, Constraint-Key, ConflictSetKey-Key, conflict_set_key, conflict, unity,
}
use libtaurus.Dag.{Dag, ConflictSet, State, depth}
use libtaurus.Dag.Ancestors.{state_of, get_active_ancestor_constraints}
use libtaurus.Dag.Vote.{
  reject_opposite, count_vote, award_chit, accept, vote_for, vote_against, vote, prefer, can_accept,
  confidence_of, opposite_confidence, has_conflict, record_pending, record_query_result,
  unwrap_result,
}
use libtaurus.Dag.Decided.{
  KeepsDecided, KeepsDecided-refl, KeepsDecided-trans, insert-KeepsDecided, decided_more,
  reject_progeny-KeepsDecided,
}

reject_opposite-KeepsDecided :
    (fuel : ℕ) (state : State) (o : Option Constraint) (t : State)
    → reject_opposite fuel state o ≡ ok t
    → KeepsDecided state t
reject_opposite-KeepsDecided fuel state none t h =
    subst (KeepsDecided state) (ok-injective h) (KeepsDecided-refl state)
reject_opposite-KeepsDecided fuel state (some opp) t h =
    reject_progeny-KeepsDecided fuel state opp t h

accept-KeepsDecided :
    (dag : Dag) (c : Constraint) (dag' : Dag)
    → accept dag c ≡ ok dag'
    → KeepsDecided dag.state dag'.state
unfolding accept
accept-KeepsDecided dag c dag' h =
    let (s, e, h₁) = >>=-eq-ok (state_of dag.state c) _ h in
    let s' = record s { decision = Map.insert s.decision c true; preferred = c } in
    let marked = Map.insert dag.state (conflict_set_key c) s' in
    let (t, e', h₂) = >>=-eq-ok (reject_opposite (depth dag) marked (conflict c)) _ h₁ in
    subst (λ (d : Dag). KeepsDecided dag.state d.state) (ok-injective h₂)
      (KeepsDecided-trans
        (insert-KeepsDecided dag.state c s e {t = marked} s' (decided_more s.decision c true) refl)
        (reject_opposite-KeepsDecided (depth dag) marked (conflict c) t e'))

count_vote-decision :
    (s : ConflictSet) (c : Constraint) (t : ConflictSet)
    → count_vote s c ≡ ok t
    → t.decision ≡ s.decision
unfolding count_vote
count_vote-decision s c t h = ground arith

vote_for-KeepsDecided :
    (dag : Dag) (c : Constraint) (dag' : Dag)
    → vote_for dag c ≡ ok dag'
    → KeepsDecided dag.state dag'.state
unfolding vote_for
vote_for-KeepsDecided dag c dag' h =
    let (c_conf, _, h₁) = >>=-eq-ok (confidence_of (depth dag) dag.state c) _ h in
    let (opp_conf, _, h₂) =
      >>=-eq-ok (opposite_confidence (depth dag) dag.state (conflict c)) _ h₁ in
    let (s, e, h₃) = >>=-eq-ok (state_of dag.state c) _ h₂ in
    let (s', e', h₄) = >>=-eq-ok (count_vote (prefer s c c_conf opp_conf) c) _ h₃ in
    let (c_count, _, h₅) = >>=-eq-ok (unwrap (get s'.count c)) _ h₄ in
    let (c_parents, _, h₆) = >>=-eq-ok (unwrap (get s'.parents c)) _ h₅ in
    let counted = record dag { state = Map.insert dag.state (conflict_set_key c) s' } in
    let (decided, _, h₇) =
      >>=-eq-ok (can_accept counted c_count c_parents (has_conflict dag.state (conflict c))) _ h₆ in
    let same = count_vote-decision (prefer s c c_conf opp_conf) c s' e' in
    branch decided counted h₇
      (insert-KeepsDecided dag.state c s e {t = counted.state} s' (λ d a. rw same a) refl)
  where
    branch :
        (decided : Bool) (counted : Dag)
        → (if decided then accept counted c else ok counted) ≡ ok dag'
        → KeepsDecided dag.state counted.state
        → KeepsDecided dag.state dag'.state
    branch true counted k j = KeepsDecided-trans j (accept-KeepsDecided counted c dag' k)
    branch false counted k j =
        subst (λ (d : Dag). KeepsDecided dag.state d.state) (ok-injective k) j

vote-KeepsDecided :
    (preferred : Bool) (dag : Dag) (c : Constraint) (dag' : Dag)
    → vote preferred dag c ≡ ok dag'
    → KeepsDecided dag.state dag'.state
unfolding vote_against
vote-KeepsDecided true dag c dag' h = vote_for-KeepsDecided dag c dag' h
vote-KeepsDecided false dag c dag' h =
    let (s, e, h₁) = >>=-eq-ok (state_of dag.state c) _ h in
    subst (λ (d : Dag). KeepsDecided dag.state d.state) (ok-injective h₁)
      (insert-KeepsDecided dag.state c s e (record s { count = Map.insert s.count c 0 }) (λ d a. a)
        refl)

award_chit-KeepsDecided :
    (preferred : Bool) (state : State) (c : Constraint) (t : State)
    → award_chit preferred state c ≡ ok t
    → KeepsDecided state t
unfolding award_chit
award_chit-KeepsDecided true state c t h =
    let (s, e, h₁) = >>=-eq-ok (state_of state c) _ h in
    insert-KeepsDecided state c s e _ (λ d a. a) h₁
award_chit-KeepsDecided false state c t h =
    subst (KeepsDecided state) (ok-injective h) (KeepsDecided-refl state)

record_pending-KeepsDecided :
    (dag : Dag) (vhash : Hash) (vx : Vertex) (preferred : Bool) (dag' : Dag)
    → record_pending dag vhash vx preferred ≡ ok dag'
    → KeepsDecided dag.state dag'.state
unfolding record_pending
record_pending-KeepsDecided dag vhash vx preferred dag' h =
    let (state, e, h₁) = >>=-eq-ok (award_chit preferred dag.state (unity vhash)) _ h in
    let awarded = record dag { state = state } in
    let (cs, _, h₂) = >>=-eq-ok (unwrap_result (get_active_ancestor_constraints awarded vx)) _ h₁ in
    KeepsDecided-trans (award_chit-KeepsDecided preferred dag.state (unity vhash) state e) (
      try_fold_rel (λ (d f : Dag). KeepsDecided d.state f.state) (vote preferred)
        (λ d. KeepsDecided-refl d.state) (λ d f g. KeepsDecided-trans) (vote-KeepsDecided preferred)
        (cs ++ unity vhash ∷ []) awarded dag' h₂)

-- A vote removes no decision.
pub record_query_result-KeepsDecided :
    (dag : Dag) (vhash : Hash) (preferred : Bool) (dag' : Dag)
    → record_query_result dag vhash preferred ≡ ok dag'
    → KeepsDecided dag.state dag'.state
unfolding record_query_result
record_query_result-KeepsDecided dag vhash preferred dag' h =
    elim (Option-cases (get dag.pending_query vhash)) [
      | inl e ↦ ground (arith, e)
      | inr (vx, e) ↦
          record_pending-KeepsDecided
            (record dag { pending_query = Map.remove dag.pending_query vhash }) vhash vx preferred
            dag' (rw (e, record_query_result) at h)
    ]
