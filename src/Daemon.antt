-- ===== src/Daemon.antt =====
-- src/app/taurusd/handler.rs: how the daemon reacts to messages from peers. The API of the consensus
-- task answers each call with a parameter.
pub mod Gossip
pub mod Identity
pub mod Dispatch
pub mod Serving
pub mod Startup
use libtaurus.Prelude.{ℕ, Bool, Option, none, some, List, Result, ok, err, panic}
use libtaurus.Hash.{Hash}
use libtaurus.Vertex.{Vertex}
use libtaurus.Dag.{
  DagError, missing_parents, bad_height, conflicting_ancestors, self_referential_parent, of_vertex,
}
use libtaurus.Consensus.Task.{TaskError, of_dag, Action, add_validator}
use libtaurus.Consensus.Api.{ApiError, of_task}
use libtaurus.P2p.Broadcast.{Broadcast, Report, accept, ignore, reject, vertex}
use libtaurus.P2p.Broadcast as broadcast
use libtaurus.P2p.Request.{Request, get_vertex, get_preference, Response, ErrorCode}
use libtaurus.P2p.Request as request

-- What the handler does with a submitted vertex.
pub data Verdict : Type 0 where
  accepting rejecting ignoring : Verdict
  fetching : List Hash → Verdict

-- The match of `handle_gossipsub` on the result of `submit_vertex`.
unfoldable pub verdict : Result ApiError (List Hash) → Verdict
verdict (ok _) = accepting
verdict (err (of_task (of_dag (missing_parents missing)))) = fetching missing
verdict (err (of_task (of_dag (bad_height _ _)))) = rejecting
verdict (err (of_task (of_dag conflicting_ancestors))) = rejecting
verdict (err (of_task (of_dag self_referential_parent))) = rejecting
verdict (err (of_task (of_dag (of_vertex _)))) = rejecting
verdict _ = ignoring

module _ {MessageId Peer Topic : Type 0} where
  -- The report on a message, and the fetcher that is started for its missing ancestors, from the peer
  -- that sent it.
  abbrev pub carry_out :
      Broadcast MessageId Peer Topic → Verdict → Report MessageId Peer × Option (Peer × List Hash)
  carry_out msg accepting = (accept msg, none)
  carry_out msg (fetching missing) = (accept msg, some (msg.src, missing))
  carry_out msg rejecting = (reject msg, none)
  carry_out msg ignoring = (ignore msg, none)

  -- `handle_gossipsub`: the report on the message, and the fetcher that is started.
  unfoldable pub handle_gossipsub :
      Broadcast MessageId Peer Topic
      → (Vertex → Result ApiError (List Hash))
      → Report MessageId Peer × Option (Peer × List Hash)
  unfolding verdict
  handle_gossipsub msg submit_vertex =
      carry_out msg (verdict (submit_vertex (vertex_of msg.content)))
    where
      vertex_of : broadcast.BroadcastData → Vertex
      vertex_of (vertex vx) = vx

-- The response to a lookup.
abbrev pub answer_vertex : Result ApiError (Option Vertex) → Response
answer_vertex (ok (some vx)) = request.vertex vx
answer_vertex (ok none) = request.error request.not_found
answer_vertex (err _) = request.error request.unknown
answer_vertex panic = request.error request.unknown

abbrev pub answer_preference : Result ApiError (Option Bool) → Response
answer_preference (ok (some pref)) = request.preference pref
answer_preference (ok none) = request.error request.not_found
answer_preference (err _) = request.error request.unknown
answer_preference panic = request.error request.unknown

-- `handle_request_response`: the response that is sent.
unfoldable pub handle_request_response :
    (Hash → Result ApiError (Option Vertex))
    → (Hash → Result ApiError (Option Bool))
    → Request
    → Response
handle_request_response vertex_of preference_of (get_vertex vhash) = answer_vertex (vertex_of vhash)
handle_request_response vertex_of preference_of (get_preference vhash) =
    answer_preference (preference_of vhash)
