-- ===== src/Dag/Vote.antt =====
-- src/consensus/dag.rs: `record_query_result`, the Avalanche vote.
use libtaurus.Prelude.{
  ℕ, zero, suc, Bool, true, false, not, ◌&&◌, Option, none, some, List, [], ◌∷◌, ◌++◌,
  if◌then◌else◌, ◌==◌, ltb, leb, length, unique, flat_map, add64, Result, ok, err, panic, ◌>>=◌,
  unwrap, try_map, try_fold,
}
use libtaurus.Map
use libtaurus.Map.{get, contains_key}
use libtaurus.Hash.{Hash, Hash-Key}
use libtaurus.Constraint.{
  Constraint, Constraint-Key, ConflictSetKey-Key, unity, conflict_set_key, conflict,
}
use libtaurus.Vertex.{Vertex}
use libtaurus.Dag.{
  Dag, DagError, ConflictSet, State, depth, already_recorded, waiting_on_insert, not_found,
}
use libtaurus.Dag.Ancestors.{state_of, decision_of, get_active_ancestor_constraints}

-- `progeny_with_chits`
unfoldable pub progeny_with_chits : ℕ → State → Constraint → Result DagError (List Constraint)
progeny_with_chits zero state c = panic
progeny_with_chits (suc fuel) state c = do
  s ← state_of state c
  children ← unwrap (get s.children c)
  progeny ← try_map (progeny_with_chits fuel state) children
  chit ← unwrap (get s.chit c)
  ok (flat_map (λ l. l) progeny ++ (if chit then c ∷ [] else []))

-- `reject_progeny`
unfoldable pub reject_progeny : ℕ → State → Constraint → Result DagError State
reject_progeny zero state c = panic
reject_progeny (suc fuel) state c = do
  s ← state_of state c
  children ← unwrap (get s.children c)
  try_fold (reject_progeny fuel)
      (Map.insert state (conflict_set_key c)
        (record s { decision = Map.insert s.decision c false }))
      children

-- The number of distinct constraints with a chit in the progeny.
abbrev pub confidence_of : ℕ → State → Constraint → Result DagError ℕ
confidence_of fuel state c = do
  progeny ← progeny_with_chits fuel state c
  ok (length (unique progeny))

abbrev pub opposite_confidence : ℕ → State → Option Constraint → Result DagError ℕ
opposite_confidence fuel state none = ok 0
opposite_confidence fuel state (some opp) = confidence_of fuel state opp

abbrev pub has_conflict : State → Option Constraint → Bool
has_conflict state none = false
has_conflict state (some opp) = contains_key state (conflict_set_key opp)

-- The counter of consecutive votes for `c`.
unfoldable pub count_vote : ConflictSet → Constraint → Result DagError ConflictSet
count_vote s c =
    if not (s.last == c)
    then ok (record s { last = c; count = Map.insert s.count c 1 })
    else (do n ← unwrap (get s.count c); ok (record s { count = Map.insert s.count c (add64 n 1) }))

-- Whether every parent constraint is accepted; it stops at the first that is not.
unfoldable pub all_accepted : State → List Constraint → Result DagError Bool
all_accepted state [] = ok true
all_accepted state (p ∷ ps) = do
  decision ← decision_of state p
  elim decision [ some true ↦ all_accepted state ps | _ ↦ ok false ]

-- The test under which a constraint is accepted.
unfoldable pub can_accept : Dag → ℕ → List Constraint → Bool → Result DagError Bool
can_accept dag c_count c_parents conflicted =
    if leb dag.config.thresh_accepted c_count then ok true else (do
      accepted ← all_accepted dag.state c_parents
      ok (accepted && not conflicted && leb dag.config.thresh_safe_early_commit c_count))

abbrev pub reject_opposite : ℕ → State → Option Constraint → Result DagError State
reject_opposite fuel state none = ok state
reject_opposite fuel state (some opp) = reject_progeny fuel state opp

-- Accepts a constraint, and rejects its conflict with all that depends on it.
unfoldable pub accept : Dag → Constraint → Result DagError Dag
accept dag c = do
  s ← state_of dag.state c
  let accepted = record s { decision = Map.insert s.decision c true; preferred = c }
  state ←
      reject_opposite (depth dag) (Map.insert dag.state (conflict_set_key c) accepted) (conflict c)
  ok (record dag { state = state })

-- The confidence and the preference after a vote for `c`.
abbrev pub prefer : ConflictSet → Constraint → ℕ → ℕ → ConflictSet
prefer s c c_conf opp_conf = record s {
  confidence = Map.insert s.confidence c c_conf;
  preferred = if ltb opp_conf c_conf then c else s.preferred;
}

-- The update of one constraint that the peers prefer.
unfoldable pub vote_for : Dag → Constraint → Result DagError Dag
vote_for dag c = do
  c_conf ← confidence_of (depth dag) dag.state c
  let conflicted = has_conflict dag.state (conflict c)
  opp_conf ← opposite_confidence (depth dag) dag.state (conflict c)
  s ← state_of dag.state c
  s' ← count_vote (prefer s c c_conf opp_conf) c
  c_count ← unwrap (get s'.count c)
  c_parents ← unwrap (get s'.parents c)
  let dag' = record dag { state = Map.insert dag.state (conflict_set_key c) s' }
  decided ← can_accept dag' c_count c_parents conflicted
  if decided then accept dag' c else ok dag'

-- The update of one constraint that the peers do not prefer.
unfoldable pub vote_against : Dag → Constraint → Result DagError Dag
vote_against dag c = do
  s ← state_of dag.state c
  ok (record dag {
    state = Map.insert dag.state (conflict_set_key c) (record s { count = Map.insert s.count c 0 });
  })

abbrev pub vote : Bool → Dag → Constraint → Result DagError Dag
vote strongly_preferred dag c = if strongly_preferred then vote_for dag c else vote_against dag c

-- Awards a chit to the unity constraint of a preferred vertex.
unfoldable pub award_chit : Bool → State → Constraint → Result DagError State
award_chit strongly_preferred state c =
    if strongly_preferred
    then (do
      s ← state_of state c
      ok (Map.insert state (conflict_set_key c) (record s { chit = Map.insert s.chit c true })))
    else ok state

-- `unwrap()` of a result.
abbrev pub unwrap_result : {A : Type 0} → Result DagError A → Result DagError A
unwrap_result (ok a) = ok a
unwrap_result (err e) = panic
unwrap_result panic = panic

-- The vote for a vertex that was taken from the pending queries.
unfoldable pub record_pending : Dag → Hash → Vertex → Bool → Result DagError Dag
record_pending dag vhash vx strongly_preferred = do
  state ← award_chit strongly_preferred dag.state (unity vhash)
  let dag' = record dag { state = state }
  constraints ← unwrap_result (get_active_ancestor_constraints dag' vx)
  try_fold (vote strongly_preferred) dag' (constraints ++ unity vhash ∷ [])

-- `record_query_result`
unfoldable pub record_query_result : Dag → Hash → Bool → Result DagError Dag
record_query_result dag vhash strongly_preferred = elim (get dag.pending_query vhash) [
  | some vx ↦
      record_pending (record dag { pending_query = Map.remove dag.pending_query vhash }) vhash vx
        strongly_preferred
  | none ↦
      if contains_key dag.graph vhash
      then err already_recorded
      else if contains_key dag.vertex vhash
      then err waiting_on_insert
      else err not_found
]
