-- ===== src/Dag/Founded.antt =====
-- The vertices of the graph without parents are decided: the DAG starts from accepted ones, and no
-- insertion adds another. And the frontier has one entry for each of its hashes.
use mathlib.Core.Path.{subst}
use libtaurus.Prelude.{
  ◌≡◌, refl, sym, ap, ◌∙◌, Bool, true, some, List, [], ◌∷◌, ◌++◌, arith, Result, ok, >>=-eq-ok,
  ok-injective, try_fold, distinct,
}
use libtaurus.Map
use libtaurus.Map.{Map, get, get-insert}
use libtaurus.Map.Keys.{keys, distinct-keys-insert, distinct-keys-remove}
use libtaurus.Hash.{Hash, Hash-Key}
use libtaurus.Vertex.{Vertex, parent_constraints}
use libtaurus.Constraint.{unity}
use libtaurus.Dag.{Dag, DagError, Config, check, empty, missing_parents, waiting_on_parents}
use libtaurus.Dag.Ballot.{record_query_result-SameGraph}
use libtaurus.Dag.Decided.{is_decided, KeepsDecided, accept_initial-is_decided}
use libtaurus.Dag.Deciding.{record_query_result-KeepsDecided}
use libtaurus.Dag.Heights.{check_vertex-IsChecked}
use libtaurus.Dag.Insert.{remove_all, insert_vertex, insert_initial, accept_initial, new}
use libtaurus.Dag.Pending.{on_error}
use libtaurus.Dag.Sound.{IsSound}
use libtaurus.Dag.Total.{IsOutcome, refused, accepted, IsTried}
use libtaurus.Dag.Vote.{record_query_result}

-- A vertex of the graph without parents is decided, and the frontier is a map.
pub record IsFounded (dag : Dag) : Type 0 where
  pub keyed : distinct (keys dag.frontier) ≡ true
  pub decided :
      (h : Hash) (v : Vertex)
      → get dag.graph h ≡ some v
      → v.parents ≡ []
      → is_decided dag.state (unity h) ≡ true

distinct-keys-remove_all :
    (m : Map Hash Vertex) (ps : List Hash)
    → distinct (keys m) ≡ true
    → distinct (keys (remove_all m ps)) ≡ true
unfolding remove_all
distinct-keys-remove_all m [] d = d
distinct-keys-remove_all m (p ∷ ps) d =
    distinct-keys-remove_all (Map.remove m p) ps (distinct-keys-remove m p d)

pub voted-IsFounded :
    (dag : Dag) (vhash : Hash) (preferred : Bool) (dag' : Dag)
    → record_query_result dag vhash preferred ≡ ok dag'
    → IsFounded dag
    → IsFounded dag'
voted-IsFounded dag vhash preferred dag' e i =
    let (_, same) = record_query_result-SameGraph dag vhash preferred dag' e in
    record {
      keyed = ap (λ m. distinct (keys m)) same.frontier ∙ i.keyed;
      decided = λ h v f root.
          (record_query_result-KeepsDecided dag vhash preferred dag' e).at (unity h)
            (i.decided h v (ap (λ m. get m h) (sym same.graph) ∙ f) root);
    }

module _ (hash : Vertex → Hash) where
  -- An attempt to insert a vertex.
  pub tried-IsFounded :
      (dag : Dag) (vx : Vertex) (r : Dag × Result DagError (List Hash))
      → IsSound hash dag
      → IsTried hash dag vx r
      → IsFounded dag
      → IsFounded r.0
  tried-IsFounded dag vx r _ t i = outcome r t.kept t.outcome
    where
      same : (e : DagError) → IsFounded (on_error hash dag vx e)
      same (missing_parents l) = record { keyed = i.keyed; decided = i.decided }
      same (waiting_on_parents l) = record { keyed = i.keyed; decided = i.decided }
      same e = i

      outcome :
          (r : Dag × Result DagError (List Hash))
          → KeepsDecided dag.state r.0.state
          → IsOutcome hash dag vx r
          → IsFounded r.0
      outcome r k (refused {e} c) = same e
      outcome r k (accepted {dag'} c x) =
          let checked = check_vertex-IsChecked dag vx hash c in
          let (p, u, m, _, _) = checked.above.attained in
          record {
            keyed =
                ap (λ m. distinct (keys m)) x.frontier
                ∙ distinct-keys-insert (remove_all dag.frontier vx.parents) (hash vx) vx
                    (distinct-keys-remove_all dag.frontier vx.parents i.keyed);
            decided = λ h v f root. k.at (unity h) (
                i.decided h v
                  (ground (
                    arith,
                    ap (λ m. get m h) x.graph,
                    get-insert dag.graph (hash vx) vx h,
                    f,
                    root,
                    m,
                  ))
                  root);
          }

  module _ (config : Config) (genesis : Vertex) where
    initial-is_decided :
        (start dag : Dag)
        → insert_initial hash start genesis ≡ ok dag
        → is_decided dag.state (unity (hash genesis)) ≡ true
    unfolding insert_initial
    initial-is_decided start dag h =
        let (d, e, h₁) = >>=-eq-ok (insert_vertex hash start genesis) _ h in
        let marks = parent_constraints genesis ++ unity (hash genesis) ∷ [] in
        let (s, k, h₂) = >>=-eq-ok (try_fold (accept_initial hash) d.state marks) _ h₁ in
        subst (λ (x : Dag). is_decided x.state (unity (hash genesis)) ≡ true) (ok-injective h₂)
          (accept_initial-is_decided hash (parent_constraints genesis) (unity (hash genesis))
            d.state s k)

    new-is_decided :
        (dag : Dag)
        → new hash config (genesis ∷ []) ≡ ok dag
        → is_decided dag.state (unity (hash genesis)) ≡ true
    unfolding new try_fold
    new-is_decided dag h =
        let (_, _, h₁) = >>=-eq-ok (check config) _ h in
        let (dag', e, h₂) = >>=-eq-ok (insert_initial hash (empty config) genesis) _ h₁ in
        subst (λ (x : Dag). is_decided x.state (unity (hash genesis)) ≡ true) (ok-injective h₂)
          (initial-is_decided (empty config) dag' e)

    pub started-IsFounded :
        (dag : Dag)
        → new hash config (genesis ∷ []) ≡ ok dag
        → ((h : Hash) (v : Vertex) → get dag.graph h ≡ some v → hash genesis ≡ h)
        → dag.frontier ≡ Map.insert (remove_all [] genesis.parents) (hash genesis) genesis
        → IsFounded dag
    started-IsFounded dag h only tips = record {
      keyed =
          ap (λ m. distinct (keys m)) tips
          ∙ distinct-keys-insert (remove_all [] genesis.parents) (hash genesis) genesis
              (distinct-keys-remove_all [] genesis.parents refl);
      decided = λ k v f _.
          subst (λ j. is_decided dag.state (unity j) ≡ true) (only k v f) (new-is_decided dag h);
    }
