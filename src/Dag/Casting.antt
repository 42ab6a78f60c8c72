-- ===== src/Dag/Casting.antt =====
-- A vote on one constraint ends without a panic, and keeps the constraint graph.
use libtaurus.Prelude.{
  refl, Bool, true, false, arith, if◌then◌else◌, All-weaken, ok, Returns, returns, Returns-bind,
  Returns-weaken,
}
use libtaurus.Map
use libtaurus.Map.{Map, get, get-insert, contains_key}
use libtaurus.Hash.{Hash, Hash-Key}
use libtaurus.Constraint.{
  Constraint, Constraint-Key, ConflictSetKey-Key, conflict_set_key, conflict,
}
use libtaurus.Vertex.{Vertex}
use libtaurus.Dag.{Dag, State}
use libtaurus.Dag.Registering.{state_of-registered}
use libtaurus.Dag.Relabel.{SameLinks, Relabels, Relabels-trans, insert-Relabels, IsFilled-SameLinks}
use libtaurus.Dag.Vote.{has_conflict, prefer, accept, vote_for, vote_against, vote}
use libtaurus.Dag.Voting.{key_some, IsReached, IsReached-kept, IsComplete-kept}
use libtaurus.Dag.Wired.{IsRegistered, IsCommitted, IsWired, IsComplete}
use libtaurus.Dag.Polling.{
  IsVoted, confidence_of-Returns, opposite_confidence-Returns, accept-Returns, count_vote-Returns,
  can_accept-Returns,
}

module _ (hash : Vertex → Hash) where
  vote_for-Returns :
      (dag : Dag) (c : Constraint)
      → IsWired hash dag.graph dag.state
      → IsComplete hash dag.graph dag.state
      → IsReached hash dag.graph dag.state c
      → Returns (IsVoted hash dag) (vote_for dag c)
  unfolding vote_for
  vote_for-Returns dag c w k r = Returns-bind (confidence_of-Returns hash dag c w k r) λ c_conf _.
      Returns-bind (opposite_confidence-Returns hash dag c w k r) λ opp_conf _.
        Returns-bind (state_of-registered dag.state c r.registered) λ s e.
          Returns-bind
            (count_vote-Returns hash (prefer s c c_conf opp_conf) c (w.entry c s e).count)
            λ s' l.
              let same : SameLinks s s' = record {
                parents = l.parents;
                children = l.children;
                chits = l.chits;
                counts = l.counts;
              } in
              let own = IsFilled-SameLinks hash dag.graph c s s' same (w.entry c s e) in
              let t = Map.insert dag.state (conflict_set_key c) s' in
              let b = insert-Relabels hash dag.graph dag.state c s s' w e same in
              let k' = IsComplete-kept hash dag.graph dag.state t b.keeps k in
              Returns-bind (key_some s'.count c own.count) λ n _.
                Returns-bind (key_some s'.parents c own.parents) λ ps f.
                  Returns-bind
                    (can_accept-Returns hash (record dag { state = t }) n ps
                      (has_conflict dag.state (conflict c))
                      (All-weaken (IsCommitted hash dag.graph) (IsRegistered t) ps
                        (λ p m. k'.registered p m) (own.above ps f)))
                    λ decided _.
                      settle decided t b k' (IsReached-kept hash dag.graph dag.state t c b.keeps r)
    where
      settle :
          (decided : Bool) (t : State)
          → Relabels hash dag.graph dag.state t
          → IsComplete hash dag.graph t
          → IsReached hash dag.graph t c
          → Returns (IsVoted hash dag) (
              if decided
              then accept (record dag { state = t }) c
              else ok (record dag { state = t }))
      settle false t b k' r' = returns (record { graph = refl; change = b })
      settle true t b k' r' =
          Returns-weaken (accept-Returns hash (record dag { state = t }) c b.wired k' r')
            λ d v. record { graph = v.graph; change = Relabels-trans hash dag.graph b v.change }

  vote_against-Returns :
      (dag : Dag) (c : Constraint)
      → IsWired hash dag.graph dag.state
      → IsReached hash dag.graph dag.state c
      → Returns (IsVoted hash dag) (vote_against dag c)
  unfolding vote_against
  vote_against-Returns dag c w r =
      Returns-bind (state_of-registered dag.state c r.registered) λ s e. returns (record {
        graph = refl;
        change =
            insert-Relabels hash dag.graph dag.state c s
              (record s { count = Map.insert s.count c 0 }) w e
              (record {
                parents = refl;
                children = refl;
                chits = λ d q. q;
                counts = λ d q. ground (arith, get-insert s.count c 0 d, q);
              });
      })

  -- A vote on a constraint whose vertices are in the graph does not panic, and keeps the constraint graph.
  pub vote-Returns :
      (preferred : Bool) (dag : Dag) (c : Constraint)
      → IsWired hash dag.graph dag.state
      → IsComplete hash dag.graph dag.state
      → IsReached hash dag.graph dag.state c
      → Returns (IsVoted hash dag) (vote preferred dag c)
  vote-Returns true dag c w k r = vote_for-Returns dag c w k r
  vote-Returns false dag c w k r = vote_against-Returns dag c w r
