-- ===== src/Dag/Grown.antt =====
-- Every DAG that insertions, retries and votes can reach, and what the calls on one come to.
use mathlib.Core.Path.{subst}
use libtaurus.Prelude.{
  ℕ, ◌+◌, ◌<◌, ◌≡◌, ◌≢◌, sym, Bool, Result, List, [], ◌∷◌, inl, ok, panic, ap, arith, u64_mod,
  Returns-ok, Returns-panic,
}
use libtaurus.Map.{get}
use libtaurus.Hash.{Hash, Hash-Key}
use libtaurus.Vertex.{Vertex}
use libtaurus.Dag.{Dag, DagError, Config}
use libtaurus.Dag.Answered.{IsLost, IsRecorded-IsLost, record_query_result-IsSound}
use libtaurus.Dag.Ballot.{record_query_result-SameGraph}
use libtaurus.Dag.Founded.{IsFounded, tried-IsFounded, voted-IsFounded, started-IsFounded}
use libtaurus.Dag.Insert.{new}
use libtaurus.Dag.Knowing.{IsKnown, IsKnown-outcome}
use libtaurus.Dag.Origin.{single}
use libtaurus.Dag.Pending.{try_insert, retry_pending}
use libtaurus.Dag.Ledger.{Ledger, Admits}
use libtaurus.Dag.Refinement.{
  Implements, IsLedgered, tried-IsLedgered, voted-IsLedgered, started-IsLedgered,
}
use libtaurus.Dag.Retried.{retry_pending-HasRetried, retry_pending-keeps, retry_pending-more}
use libtaurus.Dag.Rooted.{new-Returns}
use libtaurus.Dag.Shape.{IsGrounded}
use libtaurus.Dag.Sound.{IsSound}
use libtaurus.Dag.Total.{IsOutcome, IsTried, try_insert-IsTried}
use libtaurus.Dag.Vote.{record_query_result}

-- The DAG starts from a genesis vertex; then vertices whose height is a `u64` other than 0 are
-- submitted, waiting vertices are tried again, and votes are recorded, in any order.
pub data Grown (hash : Vertex → Hash) (config : Config) (genesis : Vertex) : Dag → Type 0 where
  rooted : {dag : Dag} → new hash config (genesis ∷ []) ≡ ok dag → Grown hash config genesis dag
  submitted :
      {dag : Dag} (vx : Vertex)
      → vx.height < u64_mod
      → vx.height ≢ 0
      → Grown hash config genesis dag
      → Grown hash config genesis (try_insert hash dag vx).0
  retried :
      {dag dag' : Dag} (rounds : ℕ) (hashes successes : List Hash)
      → Grown hash config genesis dag
      → retry_pending hash rounds dag hashes ≡ ok (dag', successes)
      → Grown hash config genesis dag'
  polled :
      {dag dag' : Dag} (vhash : Hash) (preferred : Bool)
      → Grown hash config genesis dag
      → record_query_result dag vhash preferred ≡ ok dag'
      → Grown hash config genesis dag'

-- The votes of a history, the last one first.
pub answered :
    {hash : Vertex → Hash} {config : Config} {genesis : Vertex} {dag : Dag}
    → Grown hash config genesis dag
    → List Hash
answered (rooted h) = []
answered (submitted vx small risen g) = answered g
answered (retried rounds hashes successes g h) = answered g
answered (polled vhash preferred g h) = vhash ∷ answered g

module _ (hash : Vertex → Hash) (config : Config) (genesis : Vertex) (root : genesis.parents ≡ [])
    (fits : genesis.height < u64_mod) where
  pub record IsGood (answers : List Hash) (dag : Dag) : Type 0 where
    pub sound : IsSound hash dag
    pub known : IsKnown hash dag.vertex
    pub ledgered : IsLedgered hash genesis root answers dag
    pub founded : IsFounded dag

  retrying-IsLedgered :
      (answers : List Hash) (dag : Dag) (vx : Vertex) (r : Dag × Result DagError (List Hash))
      → IsSound hash dag
      → IsTried hash dag vx r
      → IsLedgered hash genesis root answers dag
      → IsLedgered hash genesis root answers r.0
  retrying-IsLedgered answers dag vx r i t j =
      tried-IsLedgered hash genesis root answers dag vx r t j

  pub Grown-IsGood : {dag : Dag} (g : Grown hash config genesis dag) → IsGood (answered g) dag
  unfolding answered
  Grown-IsGood (rooted {dag} h) =
      let s = Returns-ok (new-Returns hash config genesis root fits) h in
      record {
        sound = s.sound;
        known = s.known;
        ledgered = started-IsLedgered hash genesis root config fits dag s;
        founded =
            started-IsFounded hash config genesis dag h
              (λ k v f. ground (
                arith,
                ap (λ m. get m k) s.graph,
                single hash config genesis root fits (hash genesis) genesis k,
                f,
              ))
              s.frontier;
      }
  Grown-IsGood (submitted {dag} vx small risen g) =
      let i = Grown-IsGood g in
      let t = try_insert-IsTried hash dag i.sound vx small risen in
      record {
        sound = t.sound;
        known = IsKnown-outcome hash dag vx (try_insert hash dag vx) (inl risen) i.known t.outcome;
        ledgered =
            tried-IsLedgered hash genesis root (answered g) dag vx (try_insert hash dag vx) t
              i.ledgered;
        founded = tried-IsFounded hash dag vx (try_insert hash dag vx) i.sound t i.founded;
      }
  Grown-IsGood (retried {dag} {dag'} rounds hashes successes g h) =
      let i = Grown-IsGood g in
      let (s, k, j) =
        retry_pending-keeps hash (IsLedgered hash genesis root (answered g))
          (retrying-IsLedgered (answered g)) rounds dag hashes (dag', successes) i.sound i.known
          i.ledgered h in
      let (_, _, f) =
        retry_pending-keeps hash IsFounded (tried-IsFounded hash) rounds dag hashes
          (dag', successes) i.sound i.known i.founded h in
      record { sound = s; known = k; ledgered = j; founded = f }
  Grown-IsGood (polled {dag} {dag'} vhash preferred g h) =
      let i = Grown-IsGood g in
      let (asked, same) = record_query_result-SameGraph dag vhash preferred dag' h in
      record {
        sound = record_query_result-IsSound hash dag i.sound vhash preferred dag' h;
        known = subst (IsKnown hash) (sym same.vertex) i.known;
        ledgered =
            voted-IsLedgered hash genesis root (answered g) dag dag' vhash asked same i.ledgered;
        founded = voted-IsFounded dag vhash preferred dag' h i.founded;
      }

  pub Grown-IsFounded : {dag : Dag} → Grown hash config genesis dag → IsFounded dag
  Grown-IsFounded g = (Grown-IsGood g).founded

  -- In every DAG that is reached from a genesis vertex without parents by submitting vertices whose
  -- height is a `u64` other than 0, by retrying what waits and by recording votes, the graph is
  -- grounded, whatever a vertex of the graph commits to has a conflict set, and each conflict set has
  -- its entries for its constraints, with links to constraints that vertices of the graph commit to, the
  -- children on higher vertices.
  pub Grown-IsSound : {dag : Dag} → Grown hash config genesis dag → IsSound hash dag
  Grown-IsSound g = (Grown-IsGood g).sound

  -- Every DAG that is reached so implements a ledger: its graph holds the vertices that were placed, each
  -- under a new hash and on parents that were placed before it and are lower; its frontier holds the
  -- placed vertices that no placed vertex is on; and its pending queries are exactly those of the placed
  -- vertices, other than the genesis, that no vote of its history was on. Each vote was on a query that
  -- was pending.
  pub Grown-refines :
      {dag : Dag} (g : Grown hash config genesis dag)
      → (l : Ledger) × (l.answered ≡ answered g)
        × Admits hash genesis l
        × Implements hash genesis dag l
  Grown-refines g =
      let j = (Grown-IsGood g).ledgered in (j.ledger, j.same, j.admitted, j.implements)

  -- `DAG::new` on a genesis vertex without parents does not panic.
  pub new-ends : new hash config (genesis ∷ []) ≢ panic
  new-ends = Returns-panic (new-Returns hash config genesis root fits)

  module _ (dag : Dag) (g : Grown hash config genesis dag) where
    -- On such a DAG, submitting another such vertex does not panic: either `check_vertex` gives an
    -- error, that error is returned, and the vertex is at most remembered; or it gives none, and the
    -- vertex joins the graph, the known vertices, the pending queries and the frontier, where it replaces
    -- its parents.
    pub try_insert-IsOutcome :
        (vx : Vertex)
        → vx.height < u64_mod
        → vx.height ≢ 0
        → IsOutcome hash dag vx (try_insert hash dag vx)
    try_insert-IsOutcome vx small risen =
        (try_insert-IsTried hash dag (Grown-IsSound g) vx small risen).outcome

    -- On such a DAG, `retry_pending` ends for every list of hashes and does not panic, and more rounds
    -- than it needs give the same result.
    pub retry_pending-ends :
        (hashes : List Hash)
        → (rounds : ℕ) × (out : Dag × List Hash) × ((k : ℕ)
            → retry_pending hash (k + rounds) dag hashes ≡ ok out)
    retry_pending-ends hashes =
        let i = Grown-IsGood g in
        let t =
          retry_pending-HasRetried hash (IsLedgered hash genesis root (answered g))
            (retrying-IsLedgered (answered g)) dag hashes i.sound i.known i.ledgered in
        (
          t.rounds,
          (t.after, t.successes),
          λ k.
              retry_pending-more hash (IsLedgered hash genesis root (answered g))
                (retrying-IsLedgered (answered g)) k t.rounds dag hashes (t.after, t.successes)
                t.ends,
        )

    -- On such a DAG, recording a vote panics only when the vote is on a pending query and the search for
    -- the constraints of its vertex gives an error: every index and every recursion of it succeeds.
    pub record_query_result-IsLost :
        (vhash : Hash) (preferred : Bool)
        → record_query_result dag vhash preferred ≡ panic
        → IsLost dag vhash preferred
    record_query_result-IsLost vhash preferred h =
        IsRecorded-IsLost hash dag (Grown-IsSound g) vhash preferred h

-- In every DAG that is reached from a genesis vertex without parents by submitting vertices whose
-- height is a `u64` other than 0, by retrying what waits and by recording votes, the vertices of the
-- graph are known under their hashes, their parents are in the graph and lower, the frontier holds
-- exactly the vertices without children, and the pending queries are about vertices of the graph.
pub Grown-IsGrounded :
    (hash : Vertex → Hash) (config : Config) (genesis : Vertex) {dag : Dag}
    → genesis.parents ≡ []
    → genesis.height < u64_mod
    → Grown hash config genesis dag
    → IsGrounded hash dag
Grown-IsGrounded hash config genesis root fits g =
    (Grown-IsSound hash config genesis root fits g).grounded
