-- ===== src/Dag/Rooted.antt =====
-- `DAG::new` on a genesis vertex gives a sound DAG.
use mathlib.Core.Path.{subst}
use libtaurus.Prelude.{
  ◌<◌, ◌≡◌, refl, sym, ap, ◌∙◌, Option, none, some, List, [], ◌∷◌, ◌++◌, inr, arith, ite, ◌≟◌, ltb,
  contains, u64_mod, All-of_contains, contains-All, contains-append, contains-unique, unique,
  try_fold, Returns, returns, Returns-bind, Returns-weaken, Returns-if, Returns-try_fold,
}
use libtaurus.Map
use libtaurus.Map.{Map, get, get-insert, get-nil, get-remove, contains_key}
use libtaurus.Hash.{Hash, Hash-Key}
use libtaurus.Constraint.{
  Constraint, Constraint-Key, ConflictSetKey, ConflictSetKey-Key, unity, conflict_set_key,
}
use libtaurus.Vertex.{Vertex, parent_constraints}
use libtaurus.Dag.{Dag, Config, ConflictSet, State, check, empty}
use libtaurus.Dag.Insert.{
  new_constraints, remove_all, insert_vertex, insert_initial, register, accept_initial, new,
}
use libtaurus.Dag.Shape.{IsExtended}
use libtaurus.Dag.Origin.{single, alone-IsGrounded}
use libtaurus.Dag.Sound.{IsSound}
use libtaurus.Dag.Registering.{IsLinked}
use libtaurus.Dag.Arrival.{HasRegisteredAll, arrive-Returns}
use libtaurus.Dag.Knowing.{IsRaised, IsKnown}
use libtaurus.Dag.Relabel.{Relabels, Relabels-refl, Relabels-trans, accept_initial-Returns}
use libtaurus.Dag.Wired.{IsRegistered, IsWired, IsComplete}

nothing_at : (k : ConflictSetKey) → ◌≡◌ {A = Option ConflictSet} (get [] k) none
nothing_at k = get-nil k

nothing-IsWired : (hash : Vertex → Hash) (graph : Map Hash Vertex) → IsWired hash graph []
nothing-IsWired hash graph = record {
  entry = λ c s e. ground (arith, nothing_at (conflict_set_key c), e);
}

module _ (hash : Vertex → Hash) (config : Config) (genesis : Vertex) (root : genesis.parents ≡ [])
    (fits : genesis.height < u64_mod) where
  alone : Map Hash Vertex
  alone = Map.insert [] (hash genesis) genesis

  only : (h : Hash) (v : Vertex) → get alone h ≡ some v → genesis ≡ v
  unfolding alone
  only h v e = ground (arith, single hash config genesis root fits (hash genesis) genesis h, e)

  self : get alone (hash genesis) ≡ some genesis
  unfolding alone
  self = Map.get-insert_self [] (hash genesis) genesis

  alone-IsLinked : IsLinked alone alone
  alone-IsLinked = record {
    known = λ h v e. e;
    linked = λ h p v e c. ground (arith, only h v e, root, c);
  }

  Registers : State → Type 0
  Registers = HasRegisteredAll hash alone alone alone-IsLinked [] (new_constraints hash genesis)

  genesis_registered :
      Returns Registers (try_fold (register alone) [] (new_constraints hash genesis))
  unfolding Registers
  genesis_registered =
      arrive-Returns hash alone alone alone-IsLinked [] genesis self
        (λ p u c e. ground (arith, root, c)) (nothing-IsWired hash alone)

  -- What the insertion of the genesis vertex establishes.
  record IsPlanted (d : Dag) : Type 0 where
    pub extended : IsExtended hash (empty config) genesis d
    pub registers : Registers d.state

  plant : Returns IsPlanted (insert_vertex hash (empty config) genesis)
  unfolding insert_vertex alone
  plant = Returns-bind genesis_registered λ s r. returns (record {
    extended = record { graph = refl; vertex = refl; pending_query = refl; frontier = refl };
    registers = r;
  })

  initial_constraints : List Constraint
  initial_constraints = parent_constraints genesis ++ unity (hash genesis) ∷ []

  accept_all :
      (s : State)
      → Registers s
      → Returns (Relabels hash alone s) (try_fold (accept_initial hash) s initial_constraints)
  unfolding initial_constraints Registers
  accept_all s r =
      Returns-try_fold (IsRegistered s) (Relabels hash alone s) (accept_initial hash)
        (λ t c here b.
          Returns-weaken (accept_initial-Returns hash alone t c b.wired (b.keeps.kept c here))
            λ u b'. Relabels-trans hash alone b b')
        initial_constraints s
        (All-of_contains (IsRegistered s) initial_constraints λ c m.
          contains-All (IsRegistered s) (new_constraints hash genesis) c r.here (
            contains-append (unique (parent_constraints genesis)) (unity (hash genesis) ∷ []) c
            ∙ ground (
              arith,
              contains-append (parent_constraints genesis) (unity (hash genesis) ∷ []) c,
              contains-unique (parent_constraints genesis) c,
              m,
            )))
        (Relabels-refl hash alone s r.wired)

  completed : (s t : State) → Registers s → Relabels hash alone s t → IsComplete hash alone t
  unfolding Registers
  completed s t r b = record {
    registered = λ c m. b.keeps.kept c (
        contains-All (IsRegistered s) (new_constraints hash genesis) c r.here
          (ap (λ v. contains (new_constraints hash v) c) (only m.at m.vertex m.found) ∙ m.member));
  }

  planted-IsSound :
      (d : Dag) (t : State)
      → IsPlanted d
      → Relabels hash alone d.state t
      → IsSound hash
          (record d { pending_query = Map.remove d.pending_query (hash genesis); state = t })
  unfolding alone
  planted-IsSound d t p b = record {
    grounded = alone-IsGrounded hash config genesis root fits d t p.extended;
    asking = λ h v e. ground (
      arith,
      ap (λ m. get (Map.remove m (hash genesis)) h) p.extended.pending_query,
      get-remove (Map.insert [] (hash genesis) genesis) (hash genesis) h,
      single hash config genesis root fits (hash genesis) genesis h,
      e,
    );
    wired = subst (λ m. IsWired hash m t) (sym p.extended.graph) b.wired;
    complete =
        subst (λ m. IsComplete hash m t) (sym p.extended.graph) (completed d.state t p.registers b);
  }

  check-Returns : Returns (λ _. Unit {0}) (check config)
  unfolding check
  check-Returns =
      Returns-if (ltb config.thresh_accepted config.thresh_safe_early_commit) _ λ _. returns tt

  single-IsKnown : IsKnown hash (Map.insert [] (hash genesis) genesis)
  single-IsKnown =
      let at : (j : Hash)
          → get (Map.insert [] (hash genesis) genesis) j
            ≡ ite (hash genesis ≟ j) (some genesis) none =
        λ j. single hash config genesis root fits (hash genesis) genesis j in
      record {
        named = λ h v e. ground (arith, at h, e);
        raised = λ h v e.
            let same : genesis ≡ v = ground (arith, at h, e) in subst IsRaised same (inr root);
      }

  -- What `DAG::new` establishes.
  pub record IsStarted (dag : Dag) : Type 0 where
    pub sound : IsSound hash dag
    pub known : IsKnown hash dag.vertex
    pub graph : dag.graph ≡ Map.insert [] (hash genesis) genesis
    pub frontier : dag.frontier ≡ Map.insert (remove_all [] genesis.parents) (hash genesis) genesis
    pub pending_query :
        dag.pending_query ≡ Map.remove (Map.insert [] (hash genesis) genesis) (hash genesis)

  planted-IsStarted :
      (d : Dag) (t : State)
      → IsPlanted d
      → Relabels hash alone d.state t
      → IsStarted
          (record d { pending_query = Map.remove d.pending_query (hash genesis); state = t })
  planted-IsStarted d t p b = record {
    sound = planted-IsSound d t p b;
    known = subst (IsKnown hash) (sym p.extended.vertex) single-IsKnown;
    graph = p.extended.graph;
    frontier = p.extended.frontier;
    pending_query = ap (λ m. Map.remove m (hash genesis)) p.extended.pending_query;
  }

  -- `DAG::new` on a genesis vertex without parents does not panic, and gives a sound DAG.
  pub new-Returns : Returns IsStarted (new hash config (genesis ∷ []))
  unfolding new try_fold insert_initial initial_constraints parent_constraints
  new-Returns = Returns-bind check-Returns λ _ _.
      Returns-bind
        (Returns-bind plant λ d p.
          Returns-bind (accept_all d.state p.registers) λ t b. returns (planted-IsStarted d t p b))
        λ dag s. returns s
