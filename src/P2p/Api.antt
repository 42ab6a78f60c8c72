-- ===== src/P2p/Api.antt =====
-- src/p2p/api.rs: the calls by which other tasks use the P2P task. Each sends an action on a channel that
-- is open as long as the task runs.
use libtaurus.Prelude.{Bool, Option, List, [], ◌∷◌, ◌++◌, Result, ok, err, if◌then◌else◌}
use libtaurus.Vertex.{Vertex}
use libtaurus.P2p.Broadcast as broadcast
use libtaurus.P2p.Broadcast.{Report}
use libtaurus.P2p.Request.{Request, Response}
use libtaurus.P2p.Task as task
use libtaurus.P2p.Task.{Net, Action}

-- `api::Error`
pub data P2pError : Type 0 where
  action_send response_recv : P2pError

module _ (net : Net) where
  -- `p2p_action_ch`, with the actions that were sent, the first one first.
  pub record P2pApi : Type 0 where
    pub is_open : Bool
    pub sent : List (Action net)

  -- `p2p_action_ch.send(…)?`
  abbrev pub send : P2pApi → Action net → Result P2pError P2pApi
  send api action =
      if api.is_open then ok (record api { sent = api.sent ++ action ∷ [] }) else err action_send

  abbrev pub report_message_validity :
      P2pApi → Report net.MessageId net.Peer → Result P2pError P2pApi
  report_message_validity api validation = send api (task.report_message_validity validation)

  abbrev pub submit_vertex : P2pApi → Vertex → Result P2pError P2pApi
  submit_vertex api vx = send api (task.broadcast (broadcast.vertex vx))

  abbrev pub request : P2pApi → Request → net.Requester → Option net.Peer → Result P2pError P2pApi
  request api question resp_ch opt_peer = send api (task.request question opt_peer resp_ch)

  abbrev pub respond : P2pApi → net.InboundId → Response → Result P2pError P2pApi
  respond api request_id response = send api (task.respond request_id response)

  abbrev pub block_peer : P2pApi → net.Peer → Result P2pError P2pApi
  block_peer api peer = send api (task.block_peer peer)
