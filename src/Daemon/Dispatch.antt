-- ===== src/Daemon/Dispatch.antt =====
-- src/app/taurusd/handler.rs: the dispatch of the events that the handler receives. The replies to its
-- calls of the consensus API are parameters.
use libtaurus.Prelude.{Bool, Option, none, some, List, [], ◌∷◌, Result}
use libtaurus.Hash.{Hash}
use libtaurus.Vertex.{Vertex}
use libtaurus.Consensus.Api.{ApiError}
use libtaurus.Consensus.Task as consensus
use libtaurus.P2p.Task as p2p
use libtaurus.P2p.Task.{Net, gossipsub_message, new_peer, request_message}
use libtaurus.Daemon.{handle_gossipsub, handle_request_response}

-- The calls of the consensus API that return a value.
pub record ConsensusCalls : Type 0 where
  pub submit_vertex : Vertex → Result ApiError (List Hash)
  pub get_vertex : Hash → Result ApiError (Option Vertex)
  pub get_preference : Hash → Result ApiError (Option Bool)

module _ (net : Net) where
  -- What the handler does on an event: the actions it sends to the P2P task, the validators it adds, and
  -- the fetchers it starts, each with the peer to ask and the missing vertices.
  pub record Outcome : Type 0 where
    pub actions : List (p2p.Action net)
    pub validators : List net.Peer
    pub fetchers : List (net.Peer × List Hash)

  abbrev pub started : Option (net.Peer × List Hash) → List (net.Peer × List Hash)
  started none = []
  started (some fetcher) = fetcher ∷ []

  -- The match of `task_fn` on an event of the P2P task.
  unfoldable pub handle_p2p_event : ConsensusCalls → p2p.Event net → Outcome
  unfolding handle_gossipsub handle_request_response
  handle_p2p_event calls (gossipsub_message msg) =
      let (validity, fetcher) = handle_gossipsub msg calls.submit_vertex in
      record {
        actions = p2p.report_message_validity validity ∷ [];
        validators = [];
        fetchers = started fetcher;
      }
  handle_p2p_event calls (new_peer peer) = record {
    actions = [];
    validators = peer ∷ [];
    fetchers = [];
  }
  handle_p2p_event calls (request_message request_id request) = record {
    actions =
        p2p.respond request_id
          (handle_request_response calls.get_vertex calls.get_preference request)
        ∷ [];
    validators = [];
    fetchers = [];
  }

  -- And on an event of the consensus task.
  unfoldable pub handle_consensus_event : consensus.Event → Outcome
  handle_consensus_event (consensus.new_frontier frontier) = record {
    actions = [];
    validators = [];
    fetchers = [];
  }
