-- ===== src/Dag/Polling.antt =====
-- The steps of a vote on one constraint end without a panic, and keep the constraint graph.
use mathlib.Core.Path.{subst}
use libtaurus.Prelude.{
  ℕ, ◌≡◌, refl, sym, ap, ◌∙◌, Bool, true, false, not, Option, none, some, List, [], ◌∷◌, inr, arith,
  if◌then◌else◌, ◌==◌, leb, add64, some-injective, All, Result, ok, ◌>>=◌, unwrap, Returns, returns,
  Returns-bind,
}
use libtaurus.Map
use libtaurus.Map.{Map, get, get-insert, contains_key}
use libtaurus.Hash.{Hash, Hash-Key}
use libtaurus.Constraint.{
  Constraint, Constraint-Key, ConflictSetKey-Key, conflict_set_key, conflict, is_unity,
}
use libtaurus.Constraint.Keys.{conflict_set_key_iff}
use libtaurus.Vertex.{Vertex}
use libtaurus.Dag.{Dag, DagError, ConflictSet, State, depth}
use libtaurus.Dag.Levels.{from-le-length}
use libtaurus.Dag.Registering.{state_of-registered, decision_of-registered}
use libtaurus.Dag.Relabel.{SameLinks, Relabels, Relabels-refl, Relabels-trans, insert-Relabels}
use libtaurus.Dag.Vote.{
  confidence_of, opposite_confidence, count_vote, all_accepted, can_accept, reject_opposite, accept,
}
use libtaurus.Dag.Voting.{
  key_some, IsReached, IsReached-kept, IsWithin, IsComplete-kept, progeny_with_chits-Returns,
  reject_progeny-Returns,
}
use libtaurus.Dag.Wired.{IsRegistered, IsLevel, IsWired, IsComplete}

-- The opposite constraint is on the same vertices, and in the same conflict set.
opposite-IsLevel :
    (graph : Map Hash Vertex) (c d : Constraint) (n : ℕ)
    → conflict c ≡ some d
    → IsLevel graph c n
    → IsLevel graph d n
unfolding conflict
opposite-IsLevel graph c d n e l = swapped (is_unity c) e
  where
    swapped :
        (b : Bool)
        → (if not b then some (record { left = c.right; right = c.left }) else none) ≡ some d
        → IsLevel graph d n
    swapped true h = cc
    swapped false h =
        subst (λ x. IsLevel graph x n) (some-injective h)
          (record {
            left = l.right;
            right = l.left;
            left_found = l.right_found;
            right_found = l.left_found;
            level = ground (arith, l.level);
          })

module _ (hash : Vertex → Hash) where
  opposite-IsReached :
      (graph : Map Hash Vertex) (state : State) (c d : Constraint)
      → conflict c ≡ some d
      → IsReached hash graph state c
      → IsReached hash graph state d
  opposite-IsReached graph state c d e r = record {
    registered = record {
      entry = r.registered.entry;
      found =
          ap (λ q. get state q) (sym ((conflict_set_key_iff c d).1 (inr e))) ∙ r.registered.found;
    };
    level = r.level;
    at = opposite-IsLevel graph c d r.level e r.at;
  }

  -- What a vote changes of the DAG.
  pub record IsVoted (dag d : Dag) : Type 0 where
    pub graph : d.graph ≡ dag.graph
    pub change : Relabels hash dag.graph dag.state d.state

  within :
      (dag : Dag) (state : State) (c : Constraint)
      → IsReached hash dag.graph state c
      → IsWithin hash dag.graph (depth dag) state c
  within dag state c r = record {
    reached = r;
    enough = omega (arith, from-le-length r.level dag.graph);
  }

  pub confidence_of-Returns :
      (dag : Dag) (c : Constraint)
      → IsWired hash dag.graph dag.state
      → IsComplete hash dag.graph dag.state
      → IsReached hash dag.graph dag.state c
      → Returns (λ _. Unit {0}) (confidence_of (depth dag) dag.state c)
  confidence_of-Returns dag c w k r =
      Returns-bind
        (progeny_with_chits-Returns hash dag.graph dag.state w k (depth dag) c
          (within dag dag.state c r))
        λ ps _. returns tt

  pub opposite_confidence-Returns :
      (dag : Dag) (c : Constraint)
      → IsWired hash dag.graph dag.state
      → IsComplete hash dag.graph dag.state
      → IsReached hash dag.graph dag.state c
      → Returns (λ _. Unit {0}) (opposite_confidence (depth dag) dag.state (conflict c))
  opposite_confidence-Returns dag c w k r = opposite (conflict c) refl
    where
      opposite :
          (o : Option Constraint)
          → conflict c ≡ o
          → Returns (λ _. Unit {0}) (opposite_confidence (depth dag) dag.state o)
      opposite none e = returns tt
      opposite (some d) e =
          confidence_of-Returns dag d w k (opposite-IsReached dag.graph dag.state c d e r)

  reject_opposite-Returns :
      (dag : Dag) (state : State) (c : Constraint)
      → IsWired hash dag.graph state
      → IsComplete hash dag.graph state
      → IsReached hash dag.graph state c
      → Returns (Relabels hash dag.graph state) (reject_opposite (depth dag) state (conflict c))
  reject_opposite-Returns dag state c w k r = opposite (conflict c) refl
    where
      opposite :
          (o : Option Constraint)
          → conflict c ≡ o
          → Returns (Relabels hash dag.graph state) (reject_opposite (depth dag) state o)
      opposite none e = returns (Relabels-refl hash dag.graph state w)
      opposite (some d) e =
          reject_progeny-Returns hash dag.graph (depth dag) state d w k
            (within dag state d (opposite-IsReached dag.graph state c d e r))

  pub accept-Returns :
      (dag : Dag) (c : Constraint)
      → IsWired hash dag.graph dag.state
      → IsComplete hash dag.graph dag.state
      → IsReached hash dag.graph dag.state c
      → Returns (IsVoted dag) (accept dag c)
  unfolding accept
  accept-Returns dag c w k r = Returns-bind (state_of-registered dag.state c r.registered) λ s e.
      let s' : ConflictSet = record s { decision = Map.insert s.decision c true; preferred = c } in
      let b =
        insert-Relabels hash dag.graph dag.state c s s' w e
          (record { parents = refl; children = refl; chits = λ d q. q; counts = λ d q. q }) in
      let t = Map.insert dag.state (conflict_set_key c) s' in
      Returns-bind
        (reject_opposite-Returns dag t c b.wired
          (IsComplete-kept hash dag.graph dag.state t b.keeps k)
          (IsReached-kept hash dag.graph dag.state t c b.keeps r))
        λ u b'. returns (record { graph = refl; change = Relabels-trans hash dag.graph b b' })

  pub count_vote-Returns :
      (s : ConflictSet) (c : Constraint)
      → contains_key s.count c ≡ true
      → Returns (SameLinks s) (count_vote s c)
  unfolding count_vote
  count_vote-Returns s c m = counted (not (s.last == c))
    where
      more :
          (n : ℕ) (d : Constraint)
          → contains_key s.count d ≡ true
          → contains_key (Map.insert s.count c n) d ≡ true
      more n d q = ground (arith, get-insert s.count c n d, q)

      counted :
          (b : Bool)
          → Returns {E = DagError} (SameLinks s) (
              if b
              then ok (record s { last = c; count = Map.insert s.count c 1 })
              else (unwrap (get s.count c) >>= λ n.
                  ok (record s { count = Map.insert s.count c (add64 n 1) })))
      counted true =
          returns (record { parents = refl; children = refl; chits = λ d q. q; counts = more 1 })
      counted false = Returns-bind (key_some s.count c m) λ n _.
          returns (record {
            parents = refl;
            children = refl;
            chits = λ d q. q;
            counts = more (add64 n 1);
          })

  all_accepted-Returns :
      (state : State) (ps : List Constraint)
      → All (IsRegistered state) ps
      → Returns (λ _. Unit {0}) (all_accepted state ps)
  unfolding all_accepted
  all_accepted-Returns state [] a = returns tt
  all_accepted-Returns state (p ∷ ps) (a, rest) =
      Returns-bind (decision_of-registered state p a)
        λ o _. further o (all_accepted-Returns state ps rest)
    where
      further :
          (o : Option Bool)
          → Returns (λ _. Unit {0}) (all_accepted state ps)
          → Returns (λ _. Unit {0}) (elim o [ some true ↦ all_accepted state ps | _ ↦ ok false ])
      further (some true) q = q
      further (some false) q = returns tt
      further none q = returns tt

  pub can_accept-Returns :
      (dag : Dag) (n : ℕ) (ps : List Constraint) (conflicted : Bool)
      → All (IsRegistered dag.state) ps
      → Returns (λ _. Unit {0}) (can_accept dag n ps conflicted)
  unfolding can_accept
  can_accept-Returns dag n ps conflicted a =
      late (leb dag.config.thresh_accepted n)
        (Returns-bind (all_accepted-Returns dag.state ps a) λ b _. returns tt)
    where
      late :
          (b : Bool) {r : Result DagError Bool}
          → Returns (λ _. Unit {0}) r
          → Returns (λ _. Unit {0}) (if b then ok true else r)
      late true q = returns tt
      late false q = q
