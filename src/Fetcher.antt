-- ===== src/Fetcher.antt =====
-- src/fetcher/task.rs: the task that fetches missing ancestors from one peer. `S` is the state of the
-- consensus task behind the API, `submit` what `submit_vertex` does to it and returns.
pub mod Requests
use libtaurus.Prelude.{
  Bool, true, false, Option, none, some, List, [], ◌∷◌, ◌++◌, if◌then◌else◌, contains, insert,
  Result, ok, err, panic,
}
use libtaurus.Hash.{Hash, Hash-Key}
use libtaurus.Vertex.{Vertex}
use libtaurus.Dag.{missing_parents}
use libtaurus.Consensus.Task.{of_dag}
use libtaurus.Consensus.Api.{ApiError, of_task}
use libtaurus.P2p.Request.{Request, get_vertex, Response, error, vertex, preference}

pub record Task (Peer : Type 0) : Type 0 where
  pub peer : Peer
  pub initial : List Hash
  pub requested : List Hash
  -- What the task has asked of the P2P task: the vertices to request from `peer`, in order, and whether
  -- it blocked the peer.
  pub sent : List Hash
  pub blocked : Bool

-- `Task::new`
abbrev pub new : {Peer : Type 0} → Peer → List Hash → Task Peer
new peer initial = record {
  peer = peer;
  initial = initial;
  requested = [];
  sent = [];
  blocked = false;
}

module _ {Peer S : Type 0} (submit : S → Vertex → S × Result ApiError (List Hash)) where
  -- `request_hashes`
  unfoldable pub request_hashes : Task Peer → List Hash → Task Peer
  request_hashes task [] = task
  request_hashes task (hash ∷ hashes) =
      if contains task.requested hash
      then request_hashes task hashes
      else request_hashes
          (record task { requested = insert hash task.requested; sent = task.sent ++ hash ∷ [] })
          hashes

  abbrev pub after_submit : Task Peer → S × Result ApiError (List Hash) → Task Peer × S
  after_submit task (s, err (of_task (of_dag (missing_parents parents)))) =
      (request_hashes task parents, s)
  after_submit task (s, _) = (task, s)

  -- The loop of `task_fn` on the responses that arrive; the flag says whether the task goes on.
  unfoldable pub handle_all : Task Peer → S → List Response → Task Peer × S × Bool
  handle_all task s [] = (task, s, true)
  handle_all task s (vertex vx ∷ responses) =
      let (task', s') = after_submit task (submit s vx) in handle_all task' s' responses
  handle_all task s (error code ∷ responses) = handle_all task s responses
  handle_all task s (preference pref ∷ responses) = (record task { blocked = true }, s, false)

  -- `task_fn`
  unfoldable pub task_fn : Peer → List Hash → S → List Response → Task Peer × S × Bool
  unfolding handle_all request_hashes
  task_fn peer initial s responses =
      handle_all (request_hashes (new peer initial) initial) s responses
