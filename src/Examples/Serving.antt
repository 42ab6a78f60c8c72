-- ===== src/Examples/Serving.antt =====
-- The consensus task and the sequencer on a DAG, at concrete inputs.
use libtaurus.Prelude.{
  ℕ, ◌+◌, ◌<◌, ◌≡◌, refl, true, some, List, [], ◌∷◌, map, arith, ℕ-Key, insert, contains,
  ℕ_discrete, Result, ok, err, panic,
}
use libtaurus.Map
use libtaurus.Vertex.{Vertex}
use libtaurus.Dag.{default_config}
use libtaurus.Dag as dag
use libtaurus.Dag.Check.{check_vertex}
use libtaurus.Dag.Replies.{crossed, crossed-Grown, crossed_frontier}
use libtaurus.Dag.Tests.{program, hash_of, root, vertex, genesis}
use libtaurus.Consensus.Api.{meta_of}
use libtaurus.Consensus.Ending.{IsReceived, IsHandled, submit_vertex-IsReceived, handle-IsHandled}
use libtaurus.Consensus.Starting.{IsBegun, start, start-IsBegun}
use libtaurus.Consensus.Steady.{Steady, begun, acted}
use libtaurus.Consensus.Task as task
use libtaurus.Consensus.Task.{
  Task, Effects, add_validator, submit_vertex, get_accepted_frontier, new_task, handle,
}
use libtaurus.Daemon.Dispatch.{handle_p2p_event}
use libtaurus.Daemon.Serving.{
  calls_to, told, judged, request_served, request_served-told, handle_gossipsub-judged,
}
use libtaurus.Examples.Tasks.{net, no_bytes, no_message, idle}
use libtaurus.P2p.Broadcast.{Broadcast}
use libtaurus.P2p.Broadcast as broadcast
use libtaurus.P2p.Loop.{IsRun, round, round-IsRun, inbound_action}
use libtaurus.P2p.Request as request
use libtaurus.P2p.Task as p2p
use libtaurus.Sequencer.{propose}
use libtaurus.Sequencer.Ticking.{IsProposal, propose-IsProposal}

abbrev task_of : Result task.TaskError (Task ℕ) → Task ℕ
task_of (ok t) = t
task_of (err e) = record { config = task.default; dag = dag.empty default_config; validators = [] }
task_of panic = record { config = task.default; dag = dag.empty default_config; validators = [] }

abbrev started : Task ℕ
started = task_of (new_task root task.default)

started_runs : new_task root task.default ≡ ok started
unfolding program new_task task.check
started_runs = refl

started-Steady : Steady root task.default started
started-Steady = begun started_runs

-- With one validator.
abbrev staffed : Task ℕ
staffed = record started { validators = 7 ∷ [] }

abbrev first : Vertex → List ℕ
first vx = 0 ∷ []

staffed-Steady : Steady root task.default staffed
unfolding program new_task task.check handle insert
staffed-Steady =
    acted {fx = task.quiet root task.no_reply} 0 first (add_validator 7) tt started-Steady refl

first-below : (vx : Vertex) (i : ℕ) → contains (first vx) i ≡ true → i < 1
first-below vx i h = ground (arith, h)

abbrev child : Vertex
child = record (vertex 1 1 []) { parents = root task.genesis_vertex ∷ [] }

submit_vertex-IsReceived_example :
    (rounds : ℕ) × (t : Task ℕ) × (fx : Effects ℕ) × ((k : ℕ)
      → handle root (k + rounds) first staffed (submit_vertex child) ≡ ok (t, fx))
    × IsReceived root first staffed child t fx
submit_vertex-IsReceived_example =
    submit_vertex-IsReceived root task.default first staffed first-below staffed-Steady child
      (omega arith) (ground arith)

handle-IsHandled_example : IsHandled root first staffed (submit_vertex child)
handle-IsHandled_example =
    handle-IsHandled root task.default first staffed first-below staffed-Steady
      (submit_vertex child) (omega arith, ground arith)

propose-IsProposal_example : IsProposal root crossed 7 [] (propose 7 (map (meta_of root) []))
propose-IsProposal_example =
    propose-IsProposal root default_config genesis refl (omega arith) crossed crossed-Grown 7 []
      crossed_frontier

-- A peer asks for a vertex that is not known.
request_served-told_example :
    request_served net no_bytes no_message root 0 first staffed 0 5 idle 4
      (request.get_vertex (hash_of 9))
      7
    ≡ ok (
      record idle { pending_responses = [] },
      p2p.send_response 7 (told staffed.dag (request.get_vertex (hash_of 9))) ∷ [],
    )
unfolding Map.remove Map.insert ℕ_discrete
request_served-told_example =
    request_served-told net no_bytes no_message root 0 first staffed 0 5 idle 4
      (request.get_vertex (hash_of 9)) 7

abbrev gossip : Broadcast ℕ ℕ ℕ
gossip = record { id = 1; src = 2; topic = 3; content = broadcast.vertex child }

handle_gossipsub-judged_example :
    (rounds : ℕ) × ((k : ℕ)
      → handle_p2p_event net
          (calls_to root (k + rounds) first staffed)
          (p2p.gossipsub_message gossip)
        ≡ judged net gossip (check_vertex root staffed.dag child))
handle_gossipsub-judged_example =
    handle_gossipsub-judged net root task.default first staffed first-below staffed-Steady gossip
      child refl (omega arith) (ground arith)

start-IsBegun_example : IsBegun {Peer = ℕ} root task.default (start true root task.default)
start-IsBegun_example = start-IsBegun root task.default

-- The node knows that it is peer 3, and is asked to answer a request that it does not hold.
abbrev known : p2p.Task net
known = record idle { peer_id = some 3 }

round-IsRun_example : IsRun net known (
    round net no_bytes no_message true 0 5 known
      (inbound_action (some (p2p.respond 4 (request.preference true)))))
round-IsRun_example =
    round-IsRun net no_bytes no_message 0 5 known 3
      (inbound_action (some (p2p.respond 4 (request.preference true)))) refl tt
