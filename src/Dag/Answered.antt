-- ===== src/Dag/Answered.antt =====
-- A vote on a sound DAG.
use mathlib.Core.Path.{subst}
use libtaurus.Prelude.{
  ◌≡◌, refl, sym, ap, Bool, true, false, Option, none, some, arith, if◌then◌else◌, Result, ok, err,
  panic, ok-injective,
}
use libtaurus.Map
use libtaurus.Map.{Map, get, get-remove, contains_key}
use libtaurus.Hash.{Hash, Hash-Key}
use libtaurus.Vertex.{Vertex}
use libtaurus.Dag.{Dag, DagError, already_recorded, waiting_on_insert, not_found}
use libtaurus.Dag.Answering.{
  IsOrphaned, IsAnswer, answered, refused, orphaned, record_pending-IsAnswer,
}
use libtaurus.Dag.Ballot.{record_query_result-SameGraph, record_query_result-IsGrounded}
use libtaurus.Dag.Polling.{IsVoted}
use libtaurus.Dag.Sound.{IsSound}
use libtaurus.Dag.Shape.{IsGrounded}
use libtaurus.Dag.Vote.{record_pending, record_query_result}
use libtaurus.Dag.Voting.{IsComplete-kept}
use libtaurus.Dag.Wired.{IsWired, IsComplete}

-- The DAG without the pending query.
abbrev taken : Dag → Hash → Dag
taken dag vhash = record dag { pending_query = Map.remove dag.pending_query vhash }

-- The vote is on a pending query, and the search for its constraints gives an error.
pub record IsLost (dag : Dag) (vhash : Hash) (preferred : Bool) : Type 0 where
  pub vertex : Vertex
  pub pending : get dag.pending_query vhash ≡ some vertex
  pub orphan : IsOrphaned (taken dag vhash) vhash vertex preferred

module _ (hash : Vertex → Hash) (dag : Dag) (i : IsSound hash dag) (vhash : Hash)
    (preferred : Bool) where
  taken-IsGrounded : IsGrounded hash (taken dag vhash)
  taken-IsGrounded = record {
    known = i.grounded.known;
    hashed = i.grounded.hashed;
    small = i.grounded.small;
    linked = i.grounded.linked;
    tip = i.grounded.tip;
    childless = i.grounded.childless;
    shown = i.grounded.shown;
    asked = λ h v e. ground (arith, get-remove dag.pending_query vhash h, i.grounded.asked h v, e);
  }

  data IsRecorded : Result DagError Dag → Type 0 where
    recorded : {d : Dag} → IsVoted hash (taken dag vhash) d → IsRecorded (ok d)
    unknown : {e : DagError} → IsRecorded (err e)
    lost : IsLost dag vhash preferred → IsRecorded panic

  pending-IsRecorded :
      (vx : Vertex)
      → get dag.pending_query vhash ≡ some vx
      → {r : Result DagError Dag} → IsAnswer hash (taken dag vhash) vhash vx preferred r
      → IsRecorded r
  pending-IsRecorded vx e (answered v) = recorded v
  pending-IsRecorded vx e refused = unknown
  pending-IsRecorded vx e (orphaned o) = lost (record { vertex = vx; pending = e; orphan = o })

  record_query_result-IsRecorded : IsRecorded (record_query_result dag vhash preferred)
  unfolding record_query_result
  record_query_result-IsRecorded = look (get dag.pending_query vhash) refl
    where
      absent :
          (b c : Bool)
          → IsRecorded (
              if b
              then err already_recorded
              else if c
              then err waiting_on_insert
              else err not_found)
      absent true c = unknown
      absent false true = unknown
      absent false false = unknown

      look :
          (o : Option Vertex)
          → get dag.pending_query vhash ≡ o
          → IsRecorded (elim o [
            | some vx ↦ record_pending (taken dag vhash) vhash vx preferred
            | none ↦
                if contains_key dag.graph vhash
                then err already_recorded
                else if contains_key dag.vertex vhash
                then err waiting_on_insert
                else err not_found
          ])
      look none e = absent (contains_key dag.graph vhash) (contains_key dag.vertex vhash)
      look (some vx) e = pending-IsRecorded vx e (
          record_pending-IsAnswer hash (taken dag vhash) taken-IsGrounded i.wired i.complete vhash
            vx (i.grounded.asked vhash vx e) (i.asking vhash vx e) preferred)

  -- A vote panics only when the search for the constraints of the vertex gives an error.
  pub IsRecorded-IsLost :
      record_query_result dag vhash preferred ≡ panic → IsLost dag vhash preferred
  IsRecorded-IsLost h =
      only (record_query_result dag vhash preferred) record_query_result-IsRecorded h
    where
      only : (r : Result DagError Dag) → IsRecorded r → r ≡ panic → IsLost dag vhash preferred
      only r (lost l) e = l
      only r (recorded v) e = cc
      only r unknown e = cc

  voted-IsSound :
      (dag' : Dag)
      → record_query_result dag vhash preferred ≡ ok dag'
      → IsVoted hash (taken dag vhash) dag'
      → IsSound hash dag'
  voted-IsSound dag' h v =
      let (_, same) = record_query_result-SameGraph dag vhash preferred dag' h in
      record {
        grounded = record_query_result-IsGrounded hash dag vhash preferred dag' i.grounded h;
        asking = λ j u e. i.asking j u (
            ground (
              arith,
              ap (λ m. get m j) same.pending_query,
              get-remove dag.pending_query vhash j,
              e,
            ));
        wired = subst (λ g. IsWired hash g dag'.state) (sym v.graph) v.change.wired;
        complete =
            subst (λ g. IsComplete hash g dag'.state) (sym v.graph)
              (IsComplete-kept hash dag.graph dag.state dag'.state v.change.keeps i.complete);
      }

  -- A vote that succeeds keeps the DAG sound.
  pub record_query_result-IsSound :
      (dag' : Dag) → record_query_result dag vhash preferred ≡ ok dag' → IsSound hash dag'
  record_query_result-IsSound dag' h =
      only (record_query_result dag vhash preferred) record_query_result-IsRecorded h
    where
      only : (r : Result DagError Dag) → IsRecorded r → r ≡ ok dag' → IsSound hash dag'
      only r (recorded v) e =
          voted-IsSound dag' h (subst (IsVoted hash (taken dag vhash)) (ok-injective e) v)
      only r unknown e = cc
      only r (lost l) e = cc
