-- ===== src/Dag/Answering.antt =====
-- What comes of a vote: `record_query_result` panics in one case only, and keeps the DAG sound.
use mathlib.Core.Path.{subst}
use libtaurus.Prelude.{
  ◌≡◌, ◌≢◌, refl, sym, ◌∙◌, Bool, true, false, some, List, [], ◌∷◌, ◌++◌, arith, All, All-append,
  All-weaken, All-of_contains, Result, ok, err, panic, ◌>>=◌, try_fold, Returns, returns, fails,
  Returns-bind, Returns-weaken, Returns-panic, Returns-try_fold,
}
use libtaurus.Map
use libtaurus.Map.{Map, get, get-insert, get-remove, contains_key}
use libtaurus.Hash.{Hash, Hash-Key}
use libtaurus.Constraint.{Constraint, Constraint-Key, ConflictSetKey-Key, unity}
use libtaurus.Vertex.{Vertex, parent_constraints}
use libtaurus.Dag.{Dag, DagError, State}
use libtaurus.Dag.Ancestors.{get_active_ancestor_constraints}
use libtaurus.Dag.Descent.{IsSearchable, IsMember, get_active_ancestor_constraints-Returns}
use libtaurus.Dag.Polling.{IsVoted}
use libtaurus.Dag.Casting.{vote-Returns}
use libtaurus.Dag.Registering.{state_of-registered, IsLinked, IsUnder, parent_constraints-IsUnder}
use libtaurus.Dag.Relabel.{Relabels, Relabels-refl, Relabels-trans, insert-Relabels}
use libtaurus.Dag.Sound.{unity-IsCommitted}
use libtaurus.Dag.Shape.{IsGrounded}
use libtaurus.Dag.Vote.{award_chit, vote, unwrap_result, record_pending}
use libtaurus.Dag.Voting.{IsReached, IsReached-kept, IsComplete-kept}
use libtaurus.Dag.Wired.{IsRegistered, IsWired, IsComplete}

-- The search for the constraints that a vote is on gives an error, after the chit is awarded.
pub record IsOrphaned (dag : Dag) (vhash : Hash) (vx : Vertex) (preferred : Bool) : Type 0 where
  pub state : State
  pub error : DagError
  pub awarded : award_chit preferred dag.state (unity vhash) ≡ ok state
  pub failed : get_active_ancestor_constraints (record dag { state = state }) vx ≡ err error

module _ (hash : Vertex → Hash) where
  pub data IsAnswer (dag : Dag) (vhash : Hash) (vx : Vertex) (preferred : Bool)
      : Result DagError Dag → Type 0 where
    answered : {d : Dag} → IsVoted hash dag d → IsAnswer dag vhash vx preferred (ok d)
    refused : {e : DagError} → IsAnswer dag vhash vx preferred (err e)
    orphaned : IsOrphaned dag vhash vx preferred → IsAnswer dag vhash vx preferred panic

  award_chit-Returns :
      (graph : Map Hash Vertex) (preferred : Bool) (state : State) (c : Constraint)
      → IsWired hash graph state
      → IsRegistered state c
      → Returns (Relabels hash graph state) (award_chit preferred state c)
  unfolding award_chit
  award_chit-Returns graph false state c w r = returns (Relabels-refl hash graph state w)
  award_chit-Returns graph true state c w r = Returns-bind (state_of-registered state c r) λ s e.
      returns (
        insert-Relabels hash graph state c s (record s { chit = Map.insert s.chit c true }) w e
          (record {
            parents = refl;
            children = refl;
            chits = λ d q. ground (arith, get-insert s.chit c true d, q);
            counts = λ d q. q;
          }))

  vote_all-Returns :
      (preferred : Bool) (dag : Dag) (cs : List Constraint)
      → IsWired hash dag.graph dag.state
      → IsComplete hash dag.graph dag.state
      → All (IsReached hash dag.graph dag.state) cs
      → Returns (IsVoted hash dag) (try_fold (vote preferred) dag cs)
  vote_all-Returns preferred dag cs w k a =
      Returns-try_fold (IsReached hash dag.graph dag.state) (IsVoted hash dag) (vote preferred)
        (λ d c r v.
          let move : (P : Map Hash Vertex → Type 0) → P dag.graph → P d.graph =
            λ P p. subst P (sym v.graph) p in
          Returns-weaken
            (vote-Returns hash preferred d c (move (λ g. IsWired hash g d.state) v.change.wired)
              (move (λ g. IsComplete hash g d.state)
                (IsComplete-kept hash dag.graph dag.state d.state v.change.keeps k))
              (move (λ g. IsReached hash g d.state c)
                (IsReached-kept hash dag.graph dag.state d.state c v.change.keeps r)))
            λ t q. record {
              graph = q.graph ∙ v.graph;
              change =
                  Relabels-trans hash dag.graph v.change
                    (subst (λ g. Relabels hash g d.state t.state) v.graph q.change);
            })
        cs dag a (record { graph = refl; change = Relabels-refl hash dag.graph dag.state w })

  -- A vertex of the graph that a vote is on.
  module _ (dag : Dag) (g : IsGrounded hash dag) (w : IsWired hash dag.graph dag.state)
      (k : IsComplete hash dag.graph dag.state) (vhash : Hash) (vx : Vertex)
      (found : get dag.graph vhash ≡ some vx) (some_parents : vx.parents ≢ []) where
    unity-IsRegistered :
        (s : State)
        → Relabels hash dag.graph dag.state s
        → (h : Hash) (v : Vertex) → get dag.graph h ≡ some v
        → IsRegistered s (unity h)
    unity-IsRegistered s b h v e =
        b.keeps.kept (unity h) (k.registered (unity h) (unity-IsCommitted hash dag g h v e))

    searchable :
        (s : State) → Relabels hash dag.graph dag.state s → IsSearchable (record dag { state = s })
    searchable s b = record {
      known = g.known;
      linked = g.linked;
      united = λ h v e. let r = unity-IsRegistered s b h v e in (r.entry, r.found);
    }

    reached :
        (s : State)
        → Relabels hash dag.graph dag.state s
        → (h : Hash) (v : Vertex) → get dag.graph h ≡ some v
        → All (IsReached hash dag.graph s) (parent_constraints v)
    reached s b h v e =
        let link : IsLinked dag.vertex dag.graph = record { known = g.known; linked = g.linked } in
        All-weaken (IsUnder hash dag.vertex dag.graph link v.height) (IsReached hash dag.graph s)
          (parent_constraints v)
          (λ c u. record {
            registered = b.keeps.kept c (k.registered c u.committed);
            level = u.level;
            at = u.below;
          })
          (parent_constraints-IsUnder hash dag.vertex dag.graph link h v e)

    own-IsReached :
        (s : State) → Relabels hash dag.graph dag.state s → IsReached hash dag.graph s (unity vhash)
    own-IsReached s b = record {
      registered = unity-IsRegistered s b vhash vx found;
      level = vx.height;
      at = record {
        left = vx;
        right = vx;
        left_found = found;
        right_found = found;
        level = ground arith;
      };
    }

    inside :
        (s : State) (b : Relabels hash dag.graph dag.state s)
        → All (IsMember (record dag { state = s }) (searchable s b)) vx.parents
    inside s b =
        All-of_contains (IsMember (record dag { state = s }) (searchable s b)) vx.parents
          λ p c. let (u, e, _) = g.linked vhash p vx found c in record { vertex = u; found = e }

    searched :
        (s : State)
        → Relabels hash dag.graph dag.state s
        → Returns
            (All (IsReached hash dag.graph s))
            (get_active_ancestor_constraints (record dag { state = s }) vx)
    searched s b =
        get_active_ancestor_constraints-Returns (record dag { state = s }) (searchable s b) vx
          some_parents (inside s b) (IsReached hash dag.graph s) (reached s b)
          (reached s b vhash vx found)

    voted-IsAnswer :
        (preferred : Bool) (s : State) (b : Relabels hash dag.graph dag.state s)
        {r : Result DagError Dag}
        → Returns (IsVoted hash (record dag { state = s })) r
        → IsAnswer dag vhash vx preferred r
    voted-IsAnswer preferred s b (returns v) =
        answered (record { graph = v.graph; change = Relabels-trans hash dag.graph b v.change })
    voted-IsAnswer preferred s b fails = refused

    pub record_pending-IsAnswer :
        (preferred : Bool) → IsAnswer dag vhash vx preferred (record_pending dag vhash vx preferred)
    unfolding record_pending
    record_pending-IsAnswer preferred = award (award_chit preferred dag.state (unity vhash)) refl (
        award_chit-Returns dag.graph preferred dag.state (unity vhash) w
          (unity-IsRegistered dag.state (Relabels-refl hash dag.graph dag.state w) vhash vx found))
      where
        votes : (s : State) → Result DagError (List Constraint) → Result DagError Dag
        votes s r = unwrap_result r >>= λ cs.
            try_fold (vote preferred) (record dag { state = s }) (cs ++ unity vhash ∷ [])

        search :
            (s : State) (b : Relabels hash dag.graph dag.state s)
            → award_chit preferred dag.state (unity vhash) ≡ ok s
            → (r : Result DagError (List Constraint))
            → get_active_ancestor_constraints (record dag { state = s }) vx ≡ r
            → Returns (All (IsReached hash dag.graph s)) r
            → IsAnswer dag vhash vx preferred (votes s r)
        search s b a (ok cs) e (returns p) = voted-IsAnswer preferred s b (
            vote_all-Returns preferred (record dag { state = s }) (cs ++ unity vhash ∷ []) b.wired
              (IsComplete-kept hash dag.graph dag.state s b.keeps k)
              (All-append (IsReached hash dag.graph s) cs (unity vhash ∷ []) p
                (own-IsReached s b, tt)))
        search s b a (err x) e p =
            orphaned (record { state = s; error = x; awarded = a; failed = e })
        search s b a panic e p = absurd (Returns-panic p refl)

        award :
            (r : Result DagError State)
            → award_chit preferred dag.state (unity vhash) ≡ r
            → Returns (Relabels hash dag.graph dag.state) r
            → IsAnswer dag vhash vx preferred
                (r >>= λ s. votes s (get_active_ancestor_constraints (record dag { state = s }) vx))
        award (ok s) a (returns b) =
            search s b a (get_active_ancestor_constraints (record dag { state = s }) vx) refl
              (searched s b)
        award (err x) a p = refused
        award panic a p = absurd (Returns-panic p refl)
