-- ===== src/Dag/Asking.antt =====
-- What `query` answers on a sound DAG.
use mathlib.Core.Path.{subst}
use libtaurus.Prelude.{
  ◌≡◌, ◌≢◌, refl, Bool, true, false, Option, none, some, List, [], ◌∷◌, inl, inr, arith, map, all,
  contains-filter, filter, flat_map, unique, ◌++◌, if◌then◌else◌, Result, ok, err, panic, ◌>>=◌,
  ◌==◌, Option-cases, >>=-eq-ok, ok-injective, try_map, All, All-of_contains, Returns, returns,
  Returns-panic,
}
use libtaurus.Map.{get, contains_key}
use libtaurus.Hash.{Hash, Hash-Key}
use libtaurus.Constraint.{Constraint, Constraint-Key, ConflictSetKey-Key, unity, conflict_set_key}
use libtaurus.Vertex.{Vertex, parent_constraints}
use libtaurus.Dag.{Dag, DagError, ConflictSet, State, waiting_on_insert, not_found}
use libtaurus.Dag.Ancestors.{
  vertex_at, is_undecided, get_active_ancestors, get_active_ancestor_constraints,
}
use libtaurus.Dag.Decisions.{decision}
use libtaurus.Dag.Descent.{parents-IsMember, get_active_ancestor_constraints-Returns}
use libtaurus.Dag.Founded.{IsFounded}
use libtaurus.Dag.Query.{ancestor_status, query}
use libtaurus.Dag.Sound.{IsSound, IsSound-IsSearchable, IsCommitted-of_parents, unity-IsCommitted}
use libtaurus.Dag.Wired.{IsRegistered}

-- Whether a constraint is the preferred one of its conflict set.
pub prefers : State → Constraint → Bool
prefers state c = elim (get state (conflict_set_key c)) [ some s ↦ s.preferred == c | none ↦ false ]

-- The answers: a vertex that is not in the graph is an error, a decided one has its decision, and an
-- undecided one is strongly preferred when every undecided constraint of its ancestry is preferred.
pub data IsAnswer (dag : Dag) (h : Hash) : Result DagError (Bool × Bool) → Type 0 where
  unknown :
      get dag.graph h ≡ none → contains_key dag.vertex h ≡ false → IsAnswer dag h (err not_found)
  waits :
      get dag.graph h ≡ none
      → contains_key dag.vertex h ≡ true
      → IsAnswer dag h (err waiting_on_insert)
  settled :
      {v : Vertex} {b : Bool}
      → get dag.graph h ≡ some v
      → decision dag.state (unity h) ≡ some b
      → IsAnswer dag h (ok (b, true))
  unsettled :
      {v : Vertex} {cs : List Constraint}
      → get dag.graph h ≡ some v
      → decision dag.state (unity h) ≡ none
      → get_active_ancestor_constraints dag v ≡ ok cs
      → IsAnswer dag h (ok (all (prefers dag.state) cs, false))
  orphaned :
      {v : Vertex} {e : DagError}
      → get dag.graph h ≡ some v
      → decision dag.state (unity h) ≡ none
      → get_active_ancestor_constraints dag v ≡ err e
      → IsAnswer dag h (err e)

-- A registered constraint without a decision.
record IsOpen (state : State) (c : Constraint) : Type 0 where
  pub registered : IsRegistered state c
  pub undecided : is_undecided state c ≡ true

ancestor_status-IsOpen :
    (state : State) (c : Constraint)
    → IsOpen state c
    → ancestor_status state c ≡ ok (prefers state c, false)
unfolding ancestor_status prefers
ancestor_status-IsOpen state c o = let r = o.registered in ground (arith, r.found, o.undecided)

statuses-IsOpen :
    (state : State) (cs : List Constraint)
    → All (IsOpen state) cs
    → try_map (ancestor_status state) cs ≡ ok (map (λ c. (prefers state c, false)) cs)
unfolding try_map
statuses-IsOpen state [] _ = refl
statuses-IsOpen state (c ∷ cs) (p, ps) =
    rw (ancestor_status-IsOpen state c p, statuses-IsOpen state cs ps) refl

all-statuses :
    (state : State) (cs : List Constraint)
    → all (λ (s : Bool × Bool). s.0) (map (λ c. (prefers state c, false)) cs)
      ≡ all (prefers state) cs
all-statuses state [] = refl
all-statuses state (c ∷ cs) = rw (all-statuses state cs) refl

-- The search leaves out what is decided.
search-undecided :
    (dag : Dag) (v : Vertex) (cs : List Constraint)
    → get_active_ancestor_constraints dag v ≡ ok cs
    → All (λ c. is_undecided dag.state c ≡ true) cs
unfolding get_active_ancestor_constraints
search-undecided dag v cs h =
    let (hs, _, h₁) = >>=-eq-ok (get_active_ancestors dag v) _ h in
    let (vs, _, h₂) = >>=-eq-ok (try_map (vertex_at dag) hs) _ h₁ in
    let found = unique (flat_map parent_constraints vs ++ parent_constraints v) in
    subst (All (λ c. is_undecided dag.state c ≡ true)) (ok-injective h₂) (
      All-of_contains (λ c. is_undecided dag.state c ≡ true) (filter (is_undecided dag.state) found)
        λ c m. ground (arith, contains-filter (is_undecided dag.state) found c, m))

both-IsOpen :
    (state : State) (cs : List Constraint)
    → All (IsRegistered state) cs
    → All (λ c. is_undecided state c ≡ true) cs
    → All (IsOpen state) cs
both-IsOpen state [] _ _ = tt
both-IsOpen state (c ∷ cs) (p, ps) (q, qs) =
    (record { registered = p; undecided = q }, both-IsOpen state cs ps qs)

module _ (hash : Vertex → Hash) (dag : Dag) (i : IsSound hash dag) (f : IsFounded dag) where
  committed-IsRegistered :
      (h : Hash) (v : Vertex)
      → get dag.graph h ≡ some v
      → All (IsRegistered dag.state) (parent_constraints v)
  committed-IsRegistered h v e =
      All-of_contains (IsRegistered dag.state) (parent_constraints v)
        λ c m. i.complete.registered c (IsCommitted-of_parents hash dag.graph h v c e m)

  -- The search does not panic, and gives registered constraints.
  search-Returns :
      (h : Hash) (v : Vertex)
      → get dag.graph h ≡ some v
      → v.parents ≢ []
      → Returns (All (IsRegistered dag.state)) (get_active_ancestor_constraints dag v)
  search-Returns h v e some_parents =
      let s = IsSound-IsSearchable hash dag i in
      get_active_ancestor_constraints-Returns dag s v some_parents (parents-IsMember dag s h v e)
        (IsRegistered dag.state) committed-IsRegistered (committed-IsRegistered h v e)

  -- The answer from the ancestry.
  ancestry : Vertex → Result DagError (Bool × Bool)
  ancestry v = do
    constraints ← get_active_ancestor_constraints dag v
    states ← try_map (ancestor_status dag.state) constraints
    ok (all (λ s. s.0) states, false)

  undecided-IsAnswer :
      (h : Hash) (v : Vertex)
      → get dag.graph h ≡ some v
      → decision dag.state (unity h) ≡ none
      → IsAnswer dag h (ancestry v)
  unfolding ancestry
  undecided-IsAnswer h v e d =
      go (get_active_ancestor_constraints dag v) refl
        (search-Returns h v e λ root. ground (arith, f.decided h v e root, d))
    where
      go :
          (r : Result DagError (List Constraint))
          → get_active_ancestor_constraints dag v ≡ r
          → Returns (All (IsRegistered dag.state)) r
          → IsAnswer dag h (
              r >>= λ constraints. try_map (ancestor_status dag.state) constraints >>= λ states.
              ok (all (λ s. s.0) states, false))
      go (ok cs) q (returns p) =
          rw
            (
              statuses-IsOpen dag.state cs
                  (both-IsOpen dag.state cs p (search-undecided dag v cs q)),
              all-statuses dag.state cs,
            )
            (unsettled e d q)
      go (err x) q p = orphaned e d q
      go panic q p = absurd (Returns-panic p refl)

  known-IsAnswer : (h : Hash) (v : Vertex) → get dag.graph h ≡ some v → IsAnswer dag h (query dag h)
  unfolding query ancestry
  known-IsAnswer h v e =
      let r = i.complete.registered (unity h) (unity-IsCommitted hash dag i.grounded h v e) in
      rw (e, query)
        (rw (r.found)
          (branch r.entry r.found (get r.entry.decision (unity h)) refl (undecided-IsAnswer h v e)))
    where
      branch :
          (s : ConflictSet)
          → get dag.state (conflict_set_key (unity h)) ≡ some s
          → (o : Option Bool) → get s.decision (unity h) ≡ o
          → (decision dag.state (unity h) ≡ none → IsAnswer dag h (ancestry v))
          → IsAnswer dag h (elim o [
            | some true ↦ ok (true, true)
            | some false ↦ ok (false, true)
            | none ↦ ancestry v
          ])
      branch s k (some true) q a = settled e (ground (arith, k, q))
      branch s k (some false) q a = settled e (ground (arith, k, q))
      branch s k none q a = a (ground (arith, k, q))

  pub query-IsAnswer : (h : Hash) → IsAnswer dag h (query dag h)
  unfolding query
  query-IsAnswer h = elim (Option-cases (get dag.graph h)) [
    | inr (v, e) ↦ known-IsAnswer h v e
    | inl e ↦ rw (e, query) (missing (contains_key dag.vertex h) refl e)
  ]
    where
      missing :
          (b : Bool)
          → contains_key dag.vertex h ≡ b
          → get dag.graph h ≡ none
          → IsAnswer dag h (if b then err waiting_on_insert else err not_found)
      missing true k e = waits e k
      missing false k e = unknown e k
