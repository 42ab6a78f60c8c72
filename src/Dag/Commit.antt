-- ===== src/Dag/Commit.antt =====
-- When a vote accepts a constraint.
use libtaurus.Prelude.{
  ℕ, ◌≤◌, ◌≡◌, ◌≢◌, true, some, List, arith, Bool-cases, inl, inr, leb, ok, >>=-eq-ok, ok-injective,
}
use libtaurus.Map.{contains_key}
use libtaurus.Constraint.{
  Constraint, Constraint-Key, ConflictSetKey-Key, conflict, conflict_set_key,
}
use libtaurus.Constraint.Keys.{conflict_set_key_iff}
use libtaurus.Dag.{Dag, State}
use libtaurus.Dag.Vote.{has_conflict, can_accept, all_accepted}

conflict-some : (c : Constraint) → c.left ≢ c.right → (o : Constraint) × (conflict c ≡ some o)
unfolding conflict
conflict-some c d = (record { left = c.right; right = c.left }, ground (arith, d))

-- A constraint on two different vertices that is registered counts as conflicting, since the opposite
-- constraint shares its conflict set.
has_conflict-registered :
    (state : State) (c : Constraint)
    → c.left ≢ c.right
    → contains_key state (conflict_set_key c) ≡ true
    → has_conflict state (conflict c) ≡ true
has_conflict-registered state c d k =
    let (o, e) = conflict-some c d in
    let same : conflict_set_key c ≡ conflict_set_key o = (conflict_set_key_iff c o).1 (inr e) in
    rw (e, ← same) k

-- Such a constraint passes the test only if its counter has reached `thresh_accepted`: the early
-- commitment never applies to it.
pub can_accept-late :
    (dag : Dag) (state : State) (c : Constraint) (n : ℕ) (parents : List Constraint)
    → c.left ≢ c.right
    → contains_key state (conflict_set_key c) ≡ true
    → can_accept dag n parents (has_conflict state (conflict c)) ≡ ok true
    → dag.config.thresh_accepted ≤ n
unfolding can_accept
can_accept-late dag state c n parents d k h = elim (Bool-cases (leb dag.config.thresh_accepted n)) [
  | inl e ↦ ground (arith, e)
  | inr e ↦
      let h' = rw (e, has_conflict-registered state c d k, can_accept) at h in
      let (accepted, _, h₁) = >>=-eq-ok (all_accepted dag.state parents) _ h' in
      ground (arith, ok-injective h₁)
]
