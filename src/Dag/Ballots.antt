-- ===== src/Dag/Ballots.antt =====
-- Votes in a row, on the vertices of the tests of src/consensus/dag.rs.
use libtaurus.Prelude.{◌≤◌, ◌≡◌, ◌≢◌, refl, true, false, List, [], ◌∷◌, ok, arith}
use libtaurus.Hash
use libtaurus.Constraint.{Constraint}
use libtaurus.Dag.{Dag, Config}
use libtaurus.Dag.Decisions.{accepted}
use libtaurus.Dag.Insert.{new}
use libtaurus.Dag.Streak.{Ballot, Polled, rooted, submitted, voted, streak, vote_for-late}
use libtaurus.Dag.Vote.{vote_for}
use libtaurus.Dag.Histories.{add, dag_of-returned}
use libtaurus.Dag.Tests.{root, genesis, v0, v1, v2, x2, hash_of, dag_of, program}

-- Two votes in a row are enough to accept.
abbrev patient : Config
patient = record { genesis = Hash.default; thresh_accepted = 2; thresh_safe_early_commit = 1 }

abbrev patient_start : Dag
patient_start = dag_of (new root patient (genesis ∷ []))

patient_runs : new root patient (genesis ∷ []) ≡ ok patient_start
unfolding program
patient_runs = refl

-- Two vertices name the same parents in opposite orders.
abbrev torn : Dag
torn = add (add (add (add patient_start v0) v1) v2) x2

abbrev between : Constraint
between = record { left = hash_of 1; right = hash_of 2 }

abbrev once : Dag
once = dag_of (vote_for torn between)

abbrev twice : Dag
twice = dag_of (vote_for once between)

once_runs : vote_for torn between ≡ ok once
unfolding program
once_runs = dag_of-returned (vote_for torn between) refl

twice_runs : vote_for once between ≡ ok twice
unfolding program
twice_runs = dag_of-returned (vote_for once between) refl

abbrev ballots : List Ballot
ballots = record { on = between; preferred = true } ∷ []

once-Polled : Polled root patient genesis ballots once
once-Polled =
    voted (record { on = between; preferred = true }) once_runs
      (submitted x2 (submitted v2 (submitted v1 (submitted v0 (rooted patient_runs)))))

between_apart : hash_of 1 ≢ hash_of 2
unfolding program
between_apart e = ground arith

once_undecided : accepted once.state between ≡ false
unfolding program
once_undecided = refl

twice_accepted : accepted twice.state between ≡ true
unfolding program
twice_accepted = refl

vote_for-late_example :
    once.config.thresh_accepted
    ≤ streak between (record { on = between; preferred = true } ∷ ballots)
vote_for-late_example =
    vote_for-late root patient genesis once-Polled between twice between_apart twice_runs
      once_undecided twice_accepted

-- The second vote is the second in a row.
streak_two : streak between (record { on = between; preferred = true } ∷ ballots) ≡ 2
unfolding program streak
streak_two = refl
