-- ===== src/Dag/Suite/Votes.antt =====
-- The tests of src/consensus/dag.rs about votes, preferences and queries.
use libtaurus.Prelude.{
  ℕ, ◌≡◌, refl, Bool, true, false, not, ◌&&◌, Option, none, some, if◌then◌else◌, Result, ok, ◌>>=◌,
  unwrap,
}
use libtaurus.Map
use libtaurus.Map.{get}
use libtaurus.Hash.{Hash-Key}
use libtaurus.Constraint.{
  Constraint, Constraint-Key, ConflictSetKey-Key, unity, conflict, conflict_set_key,
}
use libtaurus.Dag.{Dag, DagError, ConflictSet, already_recorded}
use libtaurus.Dag.Insert.{insert_vertex}
use libtaurus.Dag.Pending.{try_insert}
use libtaurus.Dag.Query.{is_preferred, query}
use libtaurus.Dag.Vote.{record_query_result}
use libtaurus.Dag.Suite.{
  start_dag, is_answer, is_true, is_false, is_ok, fails, is_not_found, is_waiting_on_insert, v3,
}
use libtaurus.Dag.Tests.{root, hash_of, v0, v1, v2, x2, program}

abbrev is_already_recorded : DagError → Bool
is_already_recorded already_recorded = true
is_already_recorded _ = false

abbrev chit_of : Dag → ℕ → Option Bool
chit_of dag id = elim (get dag.state (conflict_set_key (unity (hash_of id)))) [
  | some s ↦ get s.chit (unity (hash_of id))
  | none ↦ none
]

abbrev same_chit : Option Bool → Option Bool → Bool
same_chit none none = true
same_chit (some a) (some b) = if a then b else not b
same_chit _ _ = false

-- `check_chits`
abbrev chits_are : Dag → Option Bool → Option Bool → Option Bool → Option Bool → Bool
chits_are dag a b c d =
    same_chit a (chit_of dag 1)
    && same_chit b (chit_of dag 2)
    && same_chit c (chit_of dag 3)
    && same_chit d (chit_of dag 5)

-- `record_query_result`
abbrev test_record_query_result : Result DagError Bool
test_record_query_result = do
  dag ← start_dag
  let (dag_a, a) = try_insert root dag v0
  let (dag_b, b) = try_insert root dag_a v1
  dag_c ← record_query_result dag_b (hash_of 1) true
  dag_d ← record_query_result dag_c (hash_of 2) false
  let (dag_e, e) = try_insert root dag_d v3
  let (dag_f, f) = try_insert root dag_e v2
  let (dag_g, g) = try_insert root dag_f v3
  dag_h ← record_query_result dag_g (hash_of 5) true
  dag_i ← record_query_result dag_h (hash_of 3) true
  ok (
      is_ok a
      && is_ok b
      && chits_are dag_d (some true) (some false) none none
      && fails is_already_recorded (record_query_result dag_d (hash_of 1) true)
      && fails is_not_found (record_query_result dag_d (hash_of 5) true)
      && not (is_ok e)
      && fails is_waiting_on_insert (record_query_result dag_e (hash_of 5) true)
      && chits_are dag_e (some true) (some false) none none
      && is_ok f
      && fails is_waiting_on_insert (record_query_result dag_f (hash_of 5) true)
      && chits_are dag_f (some true) (some false) (some false) none
      && is_ok g
      && chits_are dag_h (some true) (some false) (some false) (some true)
      && chits_are dag_i (some true) (some false) (some true) (some true))

record_query_result_passes : test_record_query_result ≡ ok true
unfolding program
record_query_result_passes = refl

-- `is_preferred`
abbrev test_is_preferred : Result DagError Bool
test_is_preferred = do
  dag ← start_dag
  let (dag_a, a) = try_insert root dag v2
  dag_b ← insert_vertex root dag_a v0
  dag_c ← insert_vertex root dag_b v1
  dag_d ← insert_vertex root dag_c v2
  dag_e ← insert_vertex root dag_d x2
  ok (
      fails is_not_found (is_preferred dag (hash_of 3))
      && fails is_waiting_on_insert (is_preferred dag_a (hash_of 3))
      && is_true (is_preferred dag_d (hash_of 3))
      && is_false (is_preferred dag_e (hash_of 4)))

is_preferred_passes : test_is_preferred ≡ ok true
unfolding program
is_preferred_passes = refl

abbrev decided : ConflictSet → Constraint → Option Bool → ConflictSet
decided s c none = record s { decision = Map.remove s.decision c }
decided s c (some d) = record s { decision = Map.insert s.decision c d }

-- `set_decision`
abbrev pub set_decision : Dag → Constraint → Option Bool → Result DagError Dag
set_decision dag c d = do
  s ← unwrap (get dag.state (conflict_set_key c))
  ok (record dag { state = Map.insert dag.state (conflict_set_key c) (decided s c d) })

-- `set_preferred`
abbrev set_preferred : Dag → Constraint → Bool → Result DagError Dag
set_preferred dag c p = do
  s ← unwrap (get dag.state (conflict_set_key c))
  preferred ← if p then ok c else unwrap (conflict c)
  ok (record dag {
    state = Map.insert dag.state (conflict_set_key c) (record s { preferred = preferred });
  })

-- The two vertices of the lower height, and the constraint between them.
abbrev both : Constraint
both = record { left = hash_of 1; right = hash_of 2 }

-- One state of the constraints of the test of `query`.
abbrev decide : Dag → Option Bool → Option Bool → Option Bool → Option Bool → Result DagError Dag
decide dag first second between own = do
  dag_a ← set_decision dag (unity (hash_of 1)) first
  dag_b ← set_decision dag_a (unity (hash_of 2)) second
  dag_c ← set_decision dag_b both between
  set_decision dag_c (unity (hash_of 3)) own

-- `query`
abbrev test_query : Result DagError Bool
test_query = do
  dag ← start_dag
  let (dag_a, a) = try_insert root dag v0
  let (dag_b, b) = try_insert root dag_a v1
  let (dag_c, c) = try_insert root dag_b v2
  s_a ← decide dag_c (some true) (some true) (some true) (some true)
  s_b ← decide s_a (some false) (some false) (some false) (some true)
  p_c ← set_preferred s_b both false
  s_c ← decide p_c none (some false) none (some true)
  s_d ← decide s_c (some true) (some true) (some true) (some false)
  s_e ← decide s_d (some true) none (some true) (some false)
  p_f ← set_preferred s_e both true
  s_f ← decide p_f (some true) (some true) (some true) none
  p_g ← set_preferred s_f both true
  s_g ← decide p_g none none none none
  p_h ← set_preferred s_g both false
  s_h ← decide p_h none none none none
  ok (
      is_ok a
      && is_ok b
      && fails is_not_found (query dag_b (hash_of 3))
      && is_ok c
      && is_answer true true (query dag_c (hash_of 0))
      && is_answer true false (query dag_c (hash_of 1))
      && is_answer true false (query dag_c (hash_of 2))
      && is_answer true false (query dag_c (hash_of 3))
      && is_answer true true (query s_a (hash_of 3))
      && is_answer true true (query s_b (hash_of 3))
      && is_answer true true (query s_c (hash_of 3))
      && is_answer false true (query s_d (hash_of 3))
      && is_answer false true (query s_e (hash_of 3))
      && is_answer true false (query s_f (hash_of 3))
      && is_answer true false (query s_g (hash_of 3))
      && is_answer false false (query s_h (hash_of 3)))

query_passes : test_query ≡ ok true
unfolding program
query_passes = refl
