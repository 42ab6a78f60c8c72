-- ===== src/Fetcher/Requests.antt =====
-- What the fetcher requests.
use libtaurus.Prelude.{
  ◌≡◌, refl, true, List, [], ◌∷◌, ◌++◌, arith, contains, insert, distinct, distinct-append, Result,
  ok, err, panic, Bool-cases, inl, inr, ap,
}
use libtaurus.Hash.{Hash, Hash-Key}
use libtaurus.Vertex.{Vertex}
use libtaurus.Dag.{missing_parents}
use libtaurus.Consensus.Task.{of_dag}
use libtaurus.Consensus.Api.{ApiError, of_task}
use libtaurus.P2p.Request.{Response, error, vertex, preference}
use libtaurus.Fetcher.{Task, new, request_hashes, after_submit, handle_all, task_fn}

module _ {Peer S : Type 0} (submit : S → Vertex → S × Result ApiError (List Hash)) where
  -- The requests that were sent are those on record, none twice.
  pub record IsRecorded (task : Task Peer) : Type 0 where
    pub same : task.sent ≡ task.requested
    pub once : distinct task.sent ≡ true

  request_hashes-IsRecorded :
      (task : Task Peer) (hashes : List Hash)
      → IsRecorded task
      → IsRecorded (request_hashes submit task hashes)
  unfolding request_hashes insert
  request_hashes-IsRecorded task [] r = r
  request_hashes-IsRecorded task (hash ∷ hashes) r =
      elim (Bool-cases (contains task.requested hash)) [
        | inl e ↦ rw (e) (request_hashes-IsRecorded task hashes r)
        | inr e ↦ rw (e) (
            request_hashes-IsRecorded
              (record task {
                requested = task.requested ++ hash ∷ [];
                sent = task.sent ++ hash ∷ [];
              })
              hashes
              (record {
                same = ap (λ l. l ++ hash ∷ []) r.same;
                once = distinct-append task.sent hash r.once (ground (arith, r.same));
              }))
      ]

  after_submit-IsRecorded :
      (task : Task Peer) (p : S × Result ApiError (List Hash))
      → IsRecorded task
      → IsRecorded (after_submit submit task p).0
  after_submit-IsRecorded task (s, ok l) r = r
  after_submit-IsRecorded task (s, panic) r = r
  after_submit-IsRecorded task (s, err (of_task (of_dag (missing_parents parents)))) r =
      request_hashes-IsRecorded task parents r
  after_submit-IsRecorded task (s, err e) r = r

  handle_all-IsRecorded :
      (task : Task Peer) (s : S) (responses : List Response)
      → IsRecorded task
      → IsRecorded (handle_all submit task s responses).0
  unfolding handle_all
  handle_all-IsRecorded task s [] r = r
  handle_all-IsRecorded task s (vertex vx ∷ responses) r =
      handle_all-IsRecorded (after_submit submit task (submit s vx)).0
        (after_submit submit task (submit s vx)).1 responses
        (after_submit-IsRecorded task (submit s vx) r)
  handle_all-IsRecorded task s (error code ∷ responses) r = handle_all-IsRecorded task s responses r
  handle_all-IsRecorded task s (preference pref ∷ responses) r = record {
    same = r.same;
    once = r.once;
  }

  -- Whatever the peer responds and whatever becomes of the vertices, the fetcher asks for no vertex
  -- twice.
  pub task_fn-once :
      (peer : Peer) (initial : List Hash) (s : S) (responses : List Response)
      → distinct (task_fn submit peer initial s responses).0.sent ≡ true
  unfolding task_fn
  task_fn-once peer initial s responses =
      (handle_all-IsRecorded (request_hashes submit (new peer initial) initial) s responses (
        request_hashes-IsRecorded (new peer initial) initial
          (record { same = refl; once = refl }))).once
