-- ===== src/Dag/Ballot.antt =====
-- What a vote changes: the constraint graph, and the one pending query that it answers.
use mathlib.Core.Path.{subst}
use libtaurus.Prelude.{
  ◌≡◌, refl, sym, ap, ◌∙◌, Bool, true, false, none, [], ◌∷◌, ◌++◌, inl, inr, arith, Option-cases,
  Result, ok, err, >>=-eq-ok, ok-injective, unwrap, if◌then◌else◌, ite, ◌≟◌, try_fold_rel,
}
use libtaurus.Map
use libtaurus.Map.{get, get-remove_self, get-remove, contains_key, is_some}
use libtaurus.Hash.{Hash, Hash-Key}
use libtaurus.Vertex.{Vertex}
use libtaurus.Constraint.{
  Constraint, Constraint-Key, ConflictSetKey-Key, unity, conflict, conflict_set_key,
}
use libtaurus.Dag.{Dag, DagError, State, depth, already_recorded}
use libtaurus.Dag.Ancestors.{state_of, get_active_ancestor_constraints}
use libtaurus.Dag.Vote.{
  confidence_of, opposite_confidence, prefer, count_vote, can_accept, has_conflict, reject_opposite,
  accept, vote_for, vote_against, vote, award_chit, unwrap_result, record_pending,
  record_query_result,
}
use libtaurus.Dag.Shape.{IsGrounded}

-- Two DAGs that differ in their constraint graphs only.
pub record SameGraph (d e : Dag) : Type 0 where
  pub vertex : e.vertex ≡ d.vertex
  pub graph : e.graph ≡ d.graph
  pub pending_query : e.pending_query ≡ d.pending_query
  pub children : e.children ≡ d.children
  pub frontier : e.frontier ≡ d.frontier

SameGraph-refl : (d : Dag) → SameGraph d d
SameGraph-refl d = record {
  vertex = refl;
  graph = refl;
  pending_query = refl;
  children = refl;
  frontier = refl;
}

SameGraph-trans : (d e f : Dag) → SameGraph d e → SameGraph e f → SameGraph d f
SameGraph-trans d e f p q = record {
  vertex = q.vertex ∙ p.vertex;
  graph = q.graph ∙ p.graph;
  pending_query = q.pending_query ∙ p.pending_query;
  children = q.children ∙ p.children;
  frontier = q.frontier ∙ p.frontier;
}

-- A DAG with another constraint graph, under the name that a call gives it.
restated :
    (d : Dag) (s : State) {e : Dag}
    → ◌≡◌ {A = Result DagError Dag} (ok (record d { state = s })) (ok e)
    → SameGraph d e
restated d s h =
    subst (SameGraph d) (ok-injective h) (record {
      vertex = refl;
      graph = refl;
      pending_query = refl;
      children = refl;
      frontier = refl;
    })

accept-SameGraph :
    (dag : Dag) (c : Constraint) (dag' : Dag) → accept dag c ≡ ok dag' → SameGraph dag dag'
unfolding accept
accept-SameGraph dag c dag' h =
    let (s, e, h₁) = >>=-eq-ok (state_of dag.state c) _ h in
    let marked =
      Map.insert dag.state (conflict_set_key c)
        (record s { decision = Map.insert s.decision c true; preferred = c }) in
    let (t, e', h₂) = >>=-eq-ok (reject_opposite (depth dag) marked (conflict c)) _ h₁ in
    restated dag t h₂

vote_for-SameGraph :
    (dag : Dag) (c : Constraint) (dag' : Dag) → vote_for dag c ≡ ok dag' → SameGraph dag dag'
unfolding vote_for
vote_for-SameGraph dag c dag' h =
    let (c_conf, _, h₁) = >>=-eq-ok (confidence_of (depth dag) dag.state c) _ h in
    let (opp_conf, _, h₂) =
      >>=-eq-ok (opposite_confidence (depth dag) dag.state (conflict c)) _ h₁ in
    let (s, e, h₃) = >>=-eq-ok (state_of dag.state c) _ h₂ in
    let (s', e', h₄) = >>=-eq-ok (count_vote (prefer s c c_conf opp_conf) c) _ h₃ in
    let (c_count, _, h₅) = >>=-eq-ok (unwrap (get s'.count c)) _ h₄ in
    let (c_parents, _, h₆) = >>=-eq-ok (unwrap (get s'.parents c)) _ h₅ in
    let counted = record dag { state = Map.insert dag.state (conflict_set_key c) s' } in
    let (decided, _, h₇) =
      >>=-eq-ok (can_accept counted c_count c_parents (has_conflict dag.state (conflict c))) _ h₆ in
    branch decided (Map.insert dag.state (conflict_set_key c) s') h₇
  where
    branch :
        (decided : Bool) (s : State)
        → (if decided then accept (record dag { state = s }) c else ok (record dag { state = s }))
          ≡ ok dag'
        → SameGraph dag dag'
    branch true s k =
        SameGraph-trans dag (record dag { state = s }) dag' (restated dag s refl)
          (accept-SameGraph (record dag { state = s }) c dag' k)
    branch false s k = restated dag s k

vote-SameGraph :
    (preferred : Bool) (dag : Dag) (c : Constraint) (dag' : Dag)
    → vote preferred dag c ≡ ok dag'
    → SameGraph dag dag'
unfolding vote_against
vote-SameGraph true dag c dag' h = vote_for-SameGraph dag c dag' h
vote-SameGraph false dag c dag' h =
    let (s, _, h₁) = >>=-eq-ok (state_of dag.state c) _ h in restated dag _ h₁

record_pending-SameGraph :
    (dag : Dag) (vhash : Hash) (vx : Vertex) (preferred : Bool) (dag' : Dag)
    → record_pending dag vhash vx preferred ≡ ok dag'
    → SameGraph dag dag'
unfolding record_pending
record_pending-SameGraph dag vhash vx preferred dag' h =
    let (state, e, h₁) = >>=-eq-ok (award_chit preferred dag.state (unity vhash)) _ h in
    let awarded = record dag { state = state } in
    let (cs, _, h₂) = >>=-eq-ok (unwrap_result (get_active_ancestor_constraints awarded vx)) _ h₁ in
    SameGraph-trans dag awarded dag' (restated dag state refl) (
      try_fold_rel SameGraph (vote preferred) SameGraph-refl SameGraph-trans
        (vote-SameGraph preferred) (cs ++ unity vhash ∷ []) awarded dag' h₂)

-- A vote that succeeds answers a pending query, and takes that query, and nothing else, out of the
-- graph, its maps and its frontier.
pub record_query_result-SameGraph :
    (dag : Dag) (vhash : Hash) (preferred : Bool) (dag' : Dag)
    → record_query_result dag vhash preferred ≡ ok dag'
    → (contains_key dag.pending_query vhash ≡ true)
      × SameGraph (record dag { pending_query = Map.remove dag.pending_query vhash }) dag'
unfolding record_query_result
record_query_result-SameGraph dag vhash preferred dag' h =
    elim (Option-cases (get dag.pending_query vhash)) [
      | inl e ↦ ground (arith, e)
      | inr (vx, e) ↦ (
        rw (e) refl,
        record_pending-SameGraph (record dag { pending_query = Map.remove dag.pending_query vhash })
            vhash vx preferred dag' (rw (e, record_query_result) at h),
      )
    ]

settled :
    (d : Dag) (vhash : Hash) (preferred : Bool)
    → get d.pending_query vhash ≡ none
    → contains_key d.graph vhash ≡ true
    → record_query_result d vhash preferred ≡ err already_recorded
unfolding record_query_result
settled d vhash preferred e known = ground (arith, e, known)

-- A vote on a vertex of the graph counts once: a second one is refused.
pub record_query_result-once :
    (dag : Dag) (vhash : Hash) (first second : Bool) (dag' : Dag)
    → contains_key dag.graph vhash ≡ true
    → record_query_result dag vhash first ≡ ok dag'
    → record_query_result dag' vhash second ≡ err already_recorded
record_query_result-once dag vhash first second dag' known h =
    let (_, same) = record_query_result-SameGraph dag vhash first dag' h in
    settled dag' vhash second
      (ap (λ m. get m vhash) same.pending_query ∙ get-remove_self dag.pending_query vhash)
      (ap (λ m. contains_key m vhash) same.graph ∙ known)

-- A vote that succeeds keeps the graph grounded.
pub record_query_result-IsGrounded :
    (hash : Vertex → Hash) (dag : Dag) (vhash : Hash) (preferred : Bool) (dag' : Dag)
    → IsGrounded hash dag
    → record_query_result dag vhash preferred ≡ ok dag'
    → IsGrounded hash dag'
record_query_result-IsGrounded hash dag vhash preferred dag' i h =
    let (_, same) = record_query_result-SameGraph dag vhash preferred dag' h in
    let in_graph : (j : Hash) → get dag'.graph j ≡ get dag.graph j =
      λ j. ap (λ m. get m j) same.graph in
    let in_vertex : (j : Hash) → get dag'.vertex j ≡ get dag.vertex j =
      λ j. ap (λ m. get m j) same.vertex in
    let in_frontier : (j : Hash) → get dag'.frontier j ≡ get dag.frontier j =
      λ j. ap (λ m. get m j) same.frontier in
    let asked_before : (j : Hash)
        → get dag'.pending_query j ≡ ite (vhash ≟ j) none (get dag.pending_query j) =
      λ j. ap (λ m. get m j) same.pending_query ∙ get-remove dag.pending_query vhash j in
    record {
      known = λ j v e. in_vertex j ∙ i.known j v (sym (in_graph j) ∙ e);
      hashed = λ j v e. i.hashed j v (sym (in_graph j) ∙ e);
      small = λ j v e. i.small j v (sym (in_vertex j) ∙ e);
      linked = λ j p v e c.
          let (u, f, l) = i.linked j p v (sym (in_graph j) ∙ e) c in (u, in_graph p ∙ f, l);
      tip = λ j v e. in_graph j ∙ i.tip j v (sym (in_frontier j) ∙ e);
      childless = λ j k v c e.
          i.childless j k v (ap is_some (sym (in_frontier j)) ∙ c) (sym (in_graph k) ∙ e);
      shown = λ j c f.
          ap is_some (in_frontier j)
          ∙ i.shown j (ap is_some (sym (in_graph j)) ∙ c) (λ k v e. f k v (in_graph k ∙ e));
      asked = λ j v e. ground (arith, asked_before j, in_graph j, i.asked j v, e);
    }
