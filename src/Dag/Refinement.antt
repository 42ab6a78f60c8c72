-- ===== src/Dag/Refinement.antt =====
-- The DAG implements a ledger.
use libtaurus.Prelude.{
  ◌<◌, ◌≡◌, refl, sym, ap, ◌∙◌, true, Option, none, some, List, [], ◌∷◌, ite, arith, ◌≟◌, Result,
  u64_mod,
}
use libtaurus.Map
use libtaurus.Map.{Map, get, get-insert, get-remove, get-nil, contains_key, is_some}
use libtaurus.Hash.{Hash, Hash-Key}
use libtaurus.Vertex.{Vertex}
use libtaurus.Dag.{Dag, DagError, Config, missing_parents, waiting_on_parents}
use libtaurus.Dag.Ballot.{SameGraph}
use libtaurus.Dag.Heights.{IsChecked, check_vertex-IsChecked}
use libtaurus.Dag.Insert.{remove_all}
use libtaurus.Dag.Ledger.{
  Ledger, find, is_tip, is_waiting, place, answer, Admits, founded, on_parents, settled,
  Admits-closed, Admits-genesis, Admits-answered,
}
use libtaurus.Dag.Origin.{single}
use libtaurus.Dag.Pending.{on_error}
use libtaurus.Dag.Rooted.{IsStarted}
use libtaurus.Dag.Shape.{IsGrounded, IsExtended, get-remove_all}
use libtaurus.Dag.Sound.{IsSound}
use libtaurus.Dag.Total.{IsOutcome, refused, accepted, IsTried}

module _ (hash : Vertex → Hash) where
  -- The graph is made of what was placed, the frontier of the tips, and the pending queries of what waits.
  pub record Implements (genesis : Vertex) (dag : Dag) (l : Ledger) : Type 0 where
    pub graph : (h : Hash) → get dag.graph h ≡ find hash l.placed h
    pub frontier : (h : Hash) → contains_key dag.frontier h ≡ is_tip hash l.placed h
    pub pending : (h : Hash) → contains_key dag.pending_query h ≡ is_waiting hash genesis l h

  module _ (genesis : Vertex) (root : genesis.parents ≡ []) where
    -- A ledger with these answers that can come of the genesis vertex is implemented.
    pub record IsLedgered (answers : List Hash) (dag : Dag) : Type 0 where
      pub ledger : Ledger
      pub same : ledger.answered ≡ answers
      pub admitted : Admits hash genesis ledger
      pub implements : Implements genesis dag ledger

    extended-Implements :
        (dag dag' : Dag) (vx : Vertex) (l : Ledger)
        → IsChecked dag vx hash
        → IsExtended hash dag vx dag'
        → Admits hash genesis l
        → Implements genesis dag l
        → Implements genesis dag' (place hash l vx)
    unfolding find
    extended-Implements dag dag' vx l k x a m = record {
      graph = λ h.
          ap (λ g. get g h) x.graph
          ∙ get-insert dag.graph (hash vx) vx h
          ∙ ap (λ o. ite (hash vx ≟ h) (some vx) o) (m.graph h);
      frontier = λ h. ground (
        arith,
        ap (λ g. contains_key g h) x.frontier,
        get-insert (remove_all dag.frontier vx.parents) (hash vx) vx h,
        get-remove_all dag.frontier vx.parents h,
        m.frontier h,
        m.graph h,
        k.fresh,
        k.present h,
        Admits-closed hash genesis l h root a,
      );
      pending = λ h. ground (
        arith,
        ap (λ g. contains_key g h) x.pending_query,
        get-insert dag.pending_query (hash vx) vx h,
        m.pending h,
        m.graph (hash vx),
        k.fresh,
        Admits-genesis hash genesis l a,
        Admits-answered hash genesis l (hash vx) a,
      );
    }

    extended-IsLedgered :
        (answers : List Hash) (dag dag' : Dag) (vx : Vertex)
        → IsChecked dag vx hash
        → IsExtended hash dag vx dag'
        → IsGrounded hash dag'
        → IsLedgered answers dag
        → IsLedgered answers dag'
    extended-IsLedgered answers dag dag' vx k x g j = record {
      ledger = place hash j.ledger vx;
      same = j.same;
      admitted =
          on_parents vx (sym (j.implements.graph (hash vx)) ∙ ground (arith, k.fresh))
            (λ p c.
              let self : get dag'.graph (hash vx) ≡ some vx =
                ap (λ m. get m (hash vx)) x.graph ∙ Map.get-insert_self dag.graph (hash vx) vx in
              let (u, e, b) = g.linked (hash vx) p vx self c in
              let before : get dag.graph p ≡ some u = ground (
                arith,
                ap (λ m. get m p) x.graph,
                get-insert dag.graph (hash vx) vx p,
                e,
                k.fresh,
                k.present p c,
              ) in
              (u, sym (j.implements.graph p) ∙ before, b))
            j.admitted;
      implements = extended-Implements dag dag' vx j.ledger k x j.admitted j.implements;
    }

    -- An attempt to insert a vertex.
    pub tried-IsLedgered :
        (answers : List Hash) (dag : Dag) (vx : Vertex) (r : Dag × Result DagError (List Hash))
        → IsTried hash dag vx r
        → IsLedgered answers dag
        → IsLedgered answers r.0
    tried-IsLedgered answers dag vx r t j = outcome r t.sound t.outcome
      where
        kept : (e : DagError) → IsLedgered answers (on_error hash dag vx e)
        kept (missing_parents l) = record {
          ledger = j.ledger;
          same = j.same;
          admitted = j.admitted;
          implements = record {
            graph = j.implements.graph;
            frontier = j.implements.frontier;
            pending = j.implements.pending;
          };
        }
        kept (waiting_on_parents l) = record {
          ledger = j.ledger;
          same = j.same;
          admitted = j.admitted;
          implements = record {
            graph = j.implements.graph;
            frontier = j.implements.frontier;
            pending = j.implements.pending;
          };
        }
        kept e = j

        outcome :
            (r : Dag × Result DagError (List Hash))
            → IsSound hash r.0
            → IsOutcome hash dag vx r
            → IsLedgered answers r.0
        outcome r s (refused {e} c) = kept e
        outcome r s (accepted {dag'} c x) =
            extended-IsLedgered answers dag dag' vx (check_vertex-IsChecked dag vx hash c) x
              s.grounded j

    -- A vote.
    pub voted-IsLedgered :
        (answers : List Hash) (dag dag' : Dag) (vhash : Hash)
        → contains_key dag.pending_query vhash ≡ true
        → SameGraph (record dag { pending_query = Map.remove dag.pending_query vhash }) dag'
        → IsLedgered answers dag
        → IsLedgered (vhash ∷ answers) dag'
    voted-IsLedgered answers dag dag' vhash asked same j = record {
      ledger = answer hash j.ledger vhash;
      same = ap (λ hs. vhash ∷ hs) j.same;
      admitted = settled vhash (sym (j.implements.pending vhash) ∙ asked) j.admitted;
      implements = record {
        graph = λ h. ap (λ m. get m h) same.graph ∙ j.implements.graph h;
        frontier = λ h. ap (λ m. contains_key m h) same.frontier ∙ j.implements.frontier h;
        pending = λ h. ground (
          arith,
          ap (λ m. contains_key m h) same.pending_query,
          get-remove dag.pending_query vhash h,
          j.implements.pending h,
        );
      };
    }

    none_left : (ps : List Hash) → get (remove_all [] ps) ≡ get {V = Vertex} []
    unfolding remove_all Map.remove
    none_left [] = refl
    none_left (p ∷ ps) = none_left ps

    -- The DAG of the genesis vertex.
    pub started-IsLedgered :
        (config : Config) (fits : genesis.height < u64_mod) (dag : Dag)
        → IsStarted hash config genesis root fits dag
        → IsLedgered [] dag
    unfolding find
    started-IsLedgered config fits dag s =
        let alone : (h : Hash)
            → get (Map.insert [] (hash genesis) genesis) h
              ≡ ite (hash genesis ≟ h) (some genesis) none =
          λ h. single hash config genesis root fits (hash genesis) genesis h in
        record {
          ledger = record { placed = genesis ∷ []; answered = [] };
          same = refl;
          admitted = founded;
          implements = record {
            graph = λ h. ap (λ m. get m h) s.graph ∙ alone h;
            frontier = λ h. ground (
              arith,
              ap (λ m. contains_key m h) s.frontier,
              get-insert (remove_all [] genesis.parents) (hash genesis) genesis h,
              ap (λ f. f h) (none_left genesis.parents),
              nothing h,
              root,
            );
            pending = λ h. ground (
              arith,
              ap (λ m. contains_key m h) s.pending_query,
              get-remove (Map.insert [] (hash genesis) genesis) (hash genesis) h,
              alone h,
            );
          };
        }
      where
        nothing : (h : Hash) → ◌≡◌ {A = Option Vertex} (get [] h) none
        nothing h = get-nil h
