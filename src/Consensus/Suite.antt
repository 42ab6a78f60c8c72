-- ===== src/Consensus/Suite.antt =====
-- The tests of src/consensus/task.rs, as functions that return whether their assertions hold. Peers are
-- numbers, and the random indices of a choice are given.
use libtaurus.Prelude.{
  ℕ, ◌≡◌, refl, Bool, true, false, ◌&&◌, List, [], ◌∷◌, ◌==◌, ℕ-Key, insert, Result, ok, err, panic,
}
use libtaurus.Dag.{default_config, bad_cfg_threshold}
use libtaurus.Dag.Tests.{root, program}
use libtaurus.Consensus.Task as task
use libtaurus.Consensus.Task.{
  Task, TaskError, Config, default, bad_cfg_quorum_count, need_validators, of_dag, new_task,
  get_validators_for_query,
}

module _ {A : Type 0} where
  abbrev is_ok : Result TaskError A → Bool
  is_ok (ok a) = true
  is_ok _ = false

  abbrev has_bad_quorum : Result TaskError A → Bool
  has_bad_quorum (err bad_cfg_quorum_count) = true
  has_bad_quorum _ = false

  abbrev has_bad_threshold : Result TaskError A → Bool
  has_bad_threshold (err (of_dag bad_cfg_threshold)) = true
  has_bad_threshold _ = false

  abbrev needs : ℕ → ℕ → Result TaskError A → Bool
  needs count known (err (need_validators n m)) = (n == count) && (m == known)
  needs count known _ = false

abbrev started : Config → Result TaskError (Task ℕ)
started config = new_task root config

-- `new_task`
abbrev test_new_task : Bool
test_new_task =
    is_ok (started default)
    && has_bad_quorum (started (record default { query_count = 10; quorum_size = 11 }))
    && has_bad_threshold (
        started (record default {
          dag_config = record default_config { thresh_safe_early_commit = 5; thresh_accepted = 4 };
        }))

test_new_task_passes : test_new_task ≡ true
unfolding program new_task task.check
test_new_task_passes = refl

abbrev joined : List ℕ → Task ℕ → Task ℕ
joined [] t = t
joined (peer ∷ peers) t = joined peers (record t { validators = insert peer t.validators })

abbrev chosen : List ℕ → List ℕ → Result TaskError (Task ℕ) → Result TaskError (List ℕ)
chosen peers draws (ok t) = get_validators_for_query root (joined peers t) draws
chosen peers draws (err e) = err e
chosen peers draws panic = panic

abbrev few : Result TaskError (Task ℕ)
few = started (record default { query_count = 2; quorum_size = 1 })

-- `get_validators_for_query`
abbrev test_get_validators_for_query : Bool
test_get_validators_for_query =
    needs 2 0 (chosen [] [] few)
    && needs 2 1 (chosen (1 ∷ []) (0 ∷ []) few)
    && is_ok (chosen (1 ∷ 2 ∷ []) (1 ∷ 1 ∷ 0 ∷ []) few)
    && is_ok (chosen (1 ∷ 2 ∷ 3 ∷ []) (2 ∷ 0 ∷ 1 ∷ []) few)

test_get_validators_for_query_passes : test_get_validators_for_query ≡ true
unfolding program new_task task.check get_validators_for_query insert
test_get_validators_for_query_passes = refl
