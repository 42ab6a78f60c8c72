-- ===== src/Dag/Answers.antt =====
-- What `query` and `get_frontier` answer on every DAG that can be reached, and what later steps leave of
-- a final answer.
use libtaurus.Prelude.{
  ℕ, ◌<◌, ◌≡◌, ◌≢◌, refl, ap, ◌∙◌, Bool, true, some, List, [], arith, Result, ok, u64_mod,
}
use libtaurus.Map.{get, get-insert}
use libtaurus.Hash.{Hash, Hash-Key}
use libtaurus.Constraint.{unity}
use libtaurus.Vertex.{Vertex}
use libtaurus.Dag.{Dag, DagError, Config, missing_parents, waiting_on_parents}
use libtaurus.Dag.Asking.{IsAnswer, unknown, waits, settled, unsettled, orphaned, query-IsAnswer}
use libtaurus.Dag.Ballot.{record_query_result-SameGraph}
use libtaurus.Dag.Decided.{is_decided, KeepsDecided}
use libtaurus.Dag.Frontier.{HasFrontier, get_frontier-HasFrontier}
use libtaurus.Dag.Grown.{
  Grown, submitted, retried, polled, Grown-IsGood, Grown-IsSound, Grown-IsFounded,
}
use libtaurus.Dag.Deciding.{record_query_result-KeepsDecided}
use libtaurus.Dag.Heights.{check_vertex-IsChecked}
use libtaurus.Dag.Pending.{on_error, try_insert, retry_pending}
use libtaurus.Dag.Query.{query, get_frontier}
use libtaurus.Dag.Retried.{retry_pending-keeps}
use libtaurus.Dag.Sound.{IsSound}
use libtaurus.Dag.Total.{IsOutcome, refused, accepted, IsTried, try_insert-IsTried}
use libtaurus.Dag.Vote.{record_query_result}

-- A vertex of the graph that is decided.
record IsFinal (h : Hash) (dag : Dag) : Type 0 where
  pub vertex : Vertex
  pub found : get dag.graph h ≡ some vertex
  pub decided : is_decided dag.state (unity h) ≡ true

answered-IsFinal :
    (dag : Dag) (h : Hash) (b : Bool) {r : Result DagError (Bool × Bool)}
    → IsAnswer dag h r
    → r ≡ ok (b, true)
    → IsFinal h dag
answered-IsFinal dag h b (unknown e k) q = cc
answered-IsFinal dag h b (waits e k) q = cc
answered-IsFinal dag h b (settled {v} e d) q = record {
  vertex = v;
  found = e;
  decided = ground (arith, d);
}
answered-IsFinal dag h b (unsettled e d s) q = cc
answered-IsFinal dag h b (orphaned e d s) q = cc

IsFinal-answered :
    (dag : Dag) (h : Hash) {r : Result DagError (Bool × Bool)}
    → IsAnswer dag h r
    → IsFinal h dag
    → (b : Bool) × (r ≡ ok (b, true))
IsFinal-answered dag h (unknown e k) f = ground (arith, e, f.found)
IsFinal-answered dag h (waits e k) f = ground (arith, e, f.found)
IsFinal-answered dag h (settled {b = b} e d) f = (b, refl)
IsFinal-answered dag h (unsettled e d s) f = absurd (ground (arith, d, f.decided))
IsFinal-answered dag h (orphaned e d s) f = absurd (ground (arith, d, f.decided))

module _ (hash : Vertex → Hash) (h : Hash) where
  tried-IsFinal :
      (dag : Dag) (vx : Vertex) (r : Dag × Result DagError (List Hash))
      → IsSound hash dag
      → IsTried hash dag vx r
      → IsFinal h dag
      → IsFinal h r.0
  tried-IsFinal dag vx r _ t f = outcome r t.kept t.outcome
    where
      same : (e : DagError) → IsFinal h (on_error hash dag vx e)
      same (missing_parents l) = record { vertex = f.vertex; found = f.found; decided = f.decided }
      same (waiting_on_parents l) = record {
        vertex = f.vertex;
        found = f.found;
        decided = f.decided;
      }
      same e = f

      outcome :
          (r : Dag × Result DagError (List Hash))
          → KeepsDecided dag.state r.0.state
          → IsOutcome hash dag vx r
          → IsFinal h r.0
      outcome r k (refused {e} c) = same e
      outcome r k (accepted {dag'} c x) =
          let checked = check_vertex-IsChecked dag vx hash c in
          record {
            vertex = f.vertex;
            found = ground (
              arith,
              ap (λ m. get m h) x.graph,
              get-insert dag.graph (hash vx) vx h,
              f.found,
              checked.fresh,
            );
            decided = k.at (unity h) f.decided;
          }

  voted-IsFinal :
      (dag : Dag) (vhash : Hash) (preferred : Bool) (dag' : Dag)
      → record_query_result dag vhash preferred ≡ ok dag'
      → IsFinal h dag
      → IsFinal h dag'
  voted-IsFinal dag vhash preferred dag' e f =
      let (_, same) = record_query_result-SameGraph dag vhash preferred dag' e in
      record {
        vertex = f.vertex;
        found = ap (λ m. get m h) same.graph ∙ f.found;
        decided =
            (record_query_result-KeepsDecided dag vhash preferred dag' e).at (unity h) f.decided;
      }

-- A DAG after further submissions, retries and votes.
pub data Later (hash : Vertex → Hash) (dag : Dag) : Dag → Type 0 where
  here : Later hash dag dag
  then_submitted :
      {dag' : Dag} (vx : Vertex)
      → vx.height < u64_mod
      → vx.height ≢ 0
      → Later hash dag dag'
      → Later hash dag (try_insert hash dag' vx).0
  then_retried :
      {dag' dag″ : Dag} (rounds : ℕ) (hashes successes : List Hash)
      → Later hash dag dag'
      → retry_pending hash rounds dag' hashes ≡ ok (dag″, successes)
      → Later hash dag dag″
  then_polled :
      {dag' dag″ : Dag} (vhash : Hash) (preferred : Bool)
      → Later hash dag dag'
      → record_query_result dag' vhash preferred ≡ ok dag″
      → Later hash dag dag″

module _ (hash : Vertex → Hash) (config : Config) (genesis : Vertex) (root : genesis.parents ≡ [])
    (fits : genesis.height < u64_mod) (dag : Dag) (g : Grown hash config genesis dag) where
  -- On every DAG that is reached from a genesis vertex without parents by submitting vertices whose
  -- height is a `u64` other than 0, by retrying what waits and by recording votes, `query` does not
  -- panic. A vertex that is not in the graph is an error. A decided vertex has its decision, and it is
  -- final. The answer for an undecided one is not final: it is whether every constraint that the search
  -- finds is the preferred one of its conflict set, or the error of the search.
  pub Grown-IsAnswer : (h : Hash) → IsAnswer dag h (query dag h)
  Grown-IsAnswer =
      query-IsAnswer hash dag (Grown-IsSound hash config genesis root fits g)
        (Grown-IsFounded hash config genesis root fits g)

  -- On every DAG that is reached so, `get_frontier` does not panic. It gives vertices of the graph, none
  -- twice, in the order of their timestamps, and they are exactly the vertices of the frontier that
  -- `query` finds strongly preferred.
  pub Grown-HasFrontier : (vs : List Vertex) × (get_frontier dag ≡ ok vs) × HasFrontier hash dag vs
  Grown-HasFrontier =
      get_frontier-HasFrontier hash dag (Grown-IsSound hash config genesis root fits g)
        (Grown-IsFounded hash config genesis root fits g)

  Later-Grown : {dag' : Dag} → Later hash dag dag' → Grown hash config genesis dag'
  Later-Grown here = g
  Later-Grown (then_submitted vx small risen l) = submitted vx small risen (Later-Grown l)
  Later-Grown (then_retried rounds hashes successes l e) =
      retried rounds hashes successes (Later-Grown l) e
  Later-Grown (then_polled vhash preferred l e) = polled vhash preferred (Later-Grown l) e

  Later-IsFinal : (h : Hash) {dag' : Dag} → Later hash dag dag' → IsFinal h dag → IsFinal h dag'
  Later-IsFinal h here f = f
  Later-IsFinal h (then_submitted {dag'} vx small risen l) f =
      let i = Grown-IsSound hash config genesis root fits (Later-Grown l) in
      tried-IsFinal hash h dag' vx (try_insert hash dag' vx) i
        (try_insert-IsTried hash dag' i vx small risen) (Later-IsFinal h l f)
  Later-IsFinal h (then_retried {dag'} {dag″} rounds hashes successes l e) f =
      let i = Grown-IsGood hash config genesis root fits (Later-Grown l) in
      let (_, _, k) =
        retry_pending-keeps hash (IsFinal h) (tried-IsFinal hash h) rounds dag' hashes
          (dag″, successes) i.sound i.known (Later-IsFinal h l f) e in
      k
  Later-IsFinal h (then_polled {dag'} {dag″} vhash preferred l e) f =
      voted-IsFinal hash h dag' vhash preferred dag″ e (Later-IsFinal h l f)

  -- Once `query` answers that a vertex is decided, it answers that it is decided, one way or the other,
  -- after every further submission of a vertex whose height is a `u64` other than 0, every retry and every
  -- vote.
  pub Later-stays_final :
      (h : Hash) (b : Bool) {dag' : Dag}
      → Later hash dag dag'
      → query dag h ≡ ok (b, true)
      → (b' : Bool) × (query dag' h ≡ ok (b', true))
  Later-stays_final h b {dag'} l e =
      IsFinal-answered dag' h
        (query-IsAnswer hash dag' (Grown-IsSound hash config genesis root fits (Later-Grown l))
          (Grown-IsFounded hash config genesis root fits (Later-Grown l)) h)
        (Later-IsFinal h l (answered-IsFinal dag h b (Grown-IsAnswer h) e))
