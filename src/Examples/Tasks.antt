-- ===== src/Examples/Tasks.antt =====
-- Runs of the tasks around the DAG at concrete inputs.
use libtaurus.Prelude.{
  ℕ, suc, ◌<◌, ◌≡◌, refl, ◌⊎◌, ◌↔◌, Bool, true, false, none, some, List, [], ◌∷◌, arith, ℕ-Key,
  ◌==◌, distinct, length, contains, insert, Result, ok, err, panic,
}
use libtaurus.Hash.{Hash, Hash-Key}
use libtaurus.Vertex.{Vertex}
use libtaurus.Dag as dag
use libtaurus.Dag.{default_config}
use libtaurus.Dag.Safety.{IsConsistent}
use libtaurus.Dag.Tests.{program, hash_of, root, vertex, v0, orphan}
use libtaurus.P2p.Request as request
use libtaurus.P2p.Request.{preference, error, Response}
use libtaurus.P2p.Broadcast as broadcast
use libtaurus.P2p.Listener.{start_listener, start_listener-finds, IsFirst, NoneBinds}
use libtaurus.P2p.Task as p2p
use libtaurus.P2p.Delivery.{request-answered_once, respond-once, asked_twice, responded_twice}
use libtaurus.Consensus.Pollster.{Pollster, recorded, waiting, run}
use libtaurus.Consensus.Poll.{run-waiting, run-ends}
use libtaurus.Consensus.Task as task
use libtaurus.Consensus.Task.{Task, new_task, handle, get_validators_for_query}
use libtaurus.Consensus.Safety.{started_task, handled, Served-IsConsistent}
use libtaurus.Consensus.Validators.{get_validators-chooses}
use libtaurus.Consensus.Api.{ApiError}
use libtaurus.Fetcher as fetcher
use libtaurus.Fetcher.Requests.{task_fn-once}
use libtaurus.Util.{human_readable, human_readable-ends, prefixes}

abbrev poll : Pollster ℕ
poll = record { vhash = hash_of 1; peers_to_poll = 1 ∷ 2 ∷ 3 ∷ []; quorum_size = 2 }

abbrev answers : List Response
answers = preference true ∷ error request.not_found ∷ preference true ∷ []

abbrev split : List Response
split = preference true ∷ preference false ∷ []

run-waiting_example : (run poll split ≡ waiting) ↔ ((1 < 2) × (1 < 2))
run-waiting_example = run-waiting poll split refl

run-ends_example : (b : Bool) × (run poll answers ≡ recorded b)
run-ends_example = run-ends poll answers refl (omega arith)

-- The port 8080 is free.
abbrev free : ℕ → Bool
free port = port == 8080

start_listener-finds_example :
    ((p : ℕ) × (start_listener free true 8078 ≡ some (some p)) × IsFirst free 8078 p)
    ⊎ ((start_listener free true 8078 ≡ some none) × NoneBinds free 8078)
start_listener-finds_example = start_listener-finds free 8078 (omega arith)

abbrev pub net : p2p.Net
net = record {
  Peer = ℕ;
  Address = ℕ;
  InboundId = ℕ;
  OutboundId = ℕ;
  MessageId = ℕ;
  Topic = ℕ;
  Channel = ℕ;
  Requester = ℕ;
  inbound-Key = ℕ-Key;
  outbound-Key = ℕ-Key;
}

abbrev pub no_bytes : broadcast.BroadcastMessage → Result broadcast.BroadcastError (List ℕ)
no_bytes p = err broadcast.empty_broadcast

abbrev pub no_message : List ℕ → Result broadcast.BroadcastError broadcast.BroadcastMessage
no_message bytes = err broadcast.empty_broadcast

abbrev pub idle : p2p.Task net
idle = p2p.new net no_bytes no_message

request-answered_once_example :
    asked_twice net no_bytes no_message 0 5 idle 1
      (request.get_vertex (hash_of 1))
      7
      (preference true)
      (preference false)
    ≡ ok (
      p2p.send_request 1 (request.get_vertex (hash_of 1)) ∷ [],
      p2p.deliver 7 (preference true) ∷ [],
      [],
    )
request-answered_once_example =
    request-answered_once net no_bytes no_message 0 5 idle 1 (request.get_vertex (hash_of 1)) 7
      (preference true) (preference false)

respond-once_example :
    responded_twice net no_bytes no_message 0 5 idle 4
      (request.get_vertex (hash_of 1))
      7
      (preference true)
      (preference false)
    ≡ ok (p2p.send_response 7 (preference true) ∷ [], [])
respond-once_example =
    respond-once net no_bytes no_message 0 5 idle 4 (request.get_vertex (hash_of 1)) 7
      (preference true) (preference false)

abbrev task_of : Result task.TaskError (Task ℕ) → Task ℕ
task_of (ok t) = t
task_of (err e) = record { config = task.default; dag = dag.empty default_config; validators = [] }
task_of panic = record { config = task.default; dag = dag.empty default_config; validators = [] }

abbrev task_after : Result task.TaskError (Task ℕ × task.Effects ℕ) → Task ℕ
task_after (ok (t, fx)) = t
task_after r = task_of (new_task root task.default)

abbrev effects_of : Result task.TaskError (Task ℕ × task.Effects ℕ) → task.Effects ℕ
effects_of (ok (t, fx)) = fx
effects_of r = task.quiet root task.no_reply

abbrev begun : Task ℕ
begun = task_of (new_task root task.default)

abbrev submission : Result task.TaskError (Task ℕ × task.Effects ℕ)
submission = handle root 3 (λ v. []) begun (task.submit_vertex (vertex 1 1 []))

abbrev no_draws : Vertex → List ℕ
no_draws v = []

Served-IsConsistent_example : IsConsistent (task_after submission).dag.state
unfolding program task.new_task task.check handle task.inserted task.start_pollsters
    task.get_validators_for_query
Served-IsConsistent_example = Served-IsConsistent root task.default (
    handled {fx = effects_of submission} 3 no_draws (task.submit_vertex (vertex 1 1 []))
      (started_task {t = begun} refl) refl)

abbrev staffed : Task ℕ
staffed = record begun { validators = 10 ∷ 20 ∷ 30 ∷ 40 ∷ 50 ∷ 60 ∷ [] }

abbrev draws : List ℕ
draws = 3 ∷ 0 ∷ 3 ∷ 5 ∷ 1 ∷ 2 ∷ []

draws-below : (i : ℕ) → contains draws i ≡ true → i < 6
draws-below i h = ground (arith, h)

get_validators-chooses_example :
    (chosen : List ℕ) × (get_validators_for_query root staffed draws ≡ ok chosen)
    × (length chosen ≡ 5)
    × (distinct chosen ≡ true)
    × ((p : ℕ) → contains chosen p ≡ true → contains staffed.validators p ≡ true)
unfolding program task.new_task task.check insert
get_validators-chooses_example =
    get_validators-chooses root staffed draws refl (omega arith) draws-below (omega arith)

abbrev gossip : broadcast.Broadcast ℕ ℕ ℕ
gossip = record { id = 1; src = 2; topic = 3; content = broadcast.vertex orphan }

abbrev conflicting : Result ApiError (List Hash)
conflicting = err (ApiError.of_task (task.of_dag dag.conflicting_ancestors))

-- A task that misses one parent of each vertex.
abbrev hungry : ℕ → Vertex → ℕ × Result ApiError (List Hash)
hungry n v =
    (suc n, err (ApiError.of_task (task.of_dag (dag.missing_parents (hash_of n ∷ hash_of 8 ∷ [])))))

task_fn-once_example :
    distinct
      (fetcher.task_fn {Peer = ℕ} hungry 1
        (hash_of 8 ∷ [])
        0
        (request.vertex v0 ∷ request.vertex v0 ∷ [])).0.sent
    ≡ true
task_fn-once_example =
    task_fn-once {Peer = ℕ} hungry 1 (hash_of 8 ∷ []) 0 (request.vertex v0 ∷ request.vertex v0 ∷ [])

human_readable-ends_example :
    (n : ℕ) × (p : ℕ) × (human_readable 12345678 ≡ some (n, p)) × (n < 10000) × (p < prefixes)
human_readable-ends_example = human_readable-ends 12345678 (omega arith)
