-- ===== src/Dag.antt =====
-- src/consensus/dag.rs: the data of the DAG. Its methods are in the modules below: `Ancestors`,
-- `Insert`, `Check`, `Pending`, `Vote` and `Query`.
pub mod Ancestors
pub mod Insert
pub mod Check
pub mod Pending
pub mod Vote
pub mod Query
pub mod Decisions
pub mod Safety
pub mod Decided
pub mod Deciding
pub mod Runs
pub mod Levels
pub mod Descent
pub mod Wired
pub mod Registration
pub mod Arrival
pub mod Sound
pub mod Inserting
pub mod Relabel
pub mod Rooted
pub mod Tally
pub mod Counting
pub mod Streak
pub mod Total
pub mod Knowing
pub mod Retrying
pub mod Retried
pub mod Ledger
pub mod Refinement
pub mod Voting
pub mod Polling
pub mod Casting
pub mod Answering
pub mod Answered
pub mod Registering
pub mod Heights
pub mod Built
pub mod Shape
pub mod Ballot
pub mod Origin
pub mod Founded
pub mod Asking
pub mod Frontier
pub mod Grown
pub mod Answers
pub mod Placed
pub mod Commit
pub mod Refusals
pub mod Orphan
pub mod Tests
pub mod Ballots
mod Histories
pub mod Replies
mod Suite
use libtaurus.Prelude.{
  ℕ, suc, Bool, true, false, Option, none, some, List, [], ◌∷◌, if◌then◌else◌, ltb, length, Result,
  ok, err,
}
use libtaurus.Map
use libtaurus.Map.{Map}
use libtaurus.Hash
use libtaurus.Hash.{Hash}
use libtaurus.Constraint.{Constraint, ConflictSetKey, conflict}
use libtaurus.Vertex.{Vertex, VertexError}

-- `dag::Error`
pub data DagError : Type 0 where
  already_inserted already_recorded bad_cfg_threshold : DagError
  bad_height : ℕ → ℕ → DagError
  conflicting_ancestors : DagError
  missing_parents : List Hash → DagError
  not_found rejected_ancestor self_referential_parent : DagError
  of_vertex : VertexError → DagError
  waiting_on_parents : List Hash → DagError
  waiting_on_insert : DagError

pub record Config : Type 0 where
  pub genesis : Hash
  pub thresh_accepted : ℕ
  pub thresh_safe_early_commit : ℕ

-- `Config::default`
abbrev pub default_config : Config
default_config = record {
  genesis = Hash.default;
  thresh_accepted = 9;
  thresh_safe_early_commit = 6;
}

-- `Config::check`
unfoldable pub check : Config → Result DagError (Unit {0})
check config =
    if ltb config.thresh_accepted config.thresh_safe_early_commit
    then err bad_cfg_threshold
    else ok tt

pub record ConflictSet : Type 0 where
  pub preferred : Constraint
  pub last : Constraint
  pub chit : Map Constraint Bool
  pub confidence : Map Constraint ℕ
  pub count : Map Constraint ℕ
  pub parents : Map Constraint (List Constraint)
  pub children : Map Constraint (List Constraint)
  pub decision : Map Constraint Bool

-- `keys.iter().copied().zip([first, second]).collect()`
abbrev pub zip_keys : {A : Type 0} → Constraint → Option Constraint → A → A → Map Constraint A
zip_keys initial none first second = (initial, first) ∷ []
zip_keys initial (some opposite) first second = (initial, first) ∷ (opposite, second) ∷ []

-- `ConflictSet::new`
unfoldable pub new_conflict_set : Constraint → List Constraint → ConflictSet
new_conflict_set initial parents =
    let opposite = conflict initial in
    record {
      preferred = initial;
      last = initial;
      chit = zip_keys initial opposite false false;
      confidence = zip_keys initial opposite 0 0;
      count = zip_keys initial opposite 0 0;
      parents = zip_keys initial opposite parents [];
      children = zip_keys initial opposite [] [];
      decision = [];
    }

abbrev pub State : Type 0
State = Map ConflictSetKey ConflictSet

pub record Dag : Type 0 where
  pub config : Config
  pub vertex : Map Hash Vertex
  pub graph : Map Hash Vertex
  pub pending_query : Map Hash Vertex
  pub children : Map Hash (List Hash)
  pub state : State
  pub frontier : Map Hash Vertex

abbrev pub empty : Config → Dag
empty config = record {
  config = config;
  vertex = [];
  graph = [];
  pending_query = [];
  children = [];
  state = [];
  frontier = [];
}

-- The recursions over the graph and over the constraints are at most this deep.
abbrev pub depth : Dag → ℕ
depth dag = suc (length dag.graph)
