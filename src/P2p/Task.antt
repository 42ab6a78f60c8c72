-- ===== src/P2p/Task.antt =====
-- src/p2p/task.rs: the P2P task. The swarm, its behaviours, and the types of its identifiers, channels,
-- addresses and topics are libp2p's; what the task asks of the swarm is listed in order.
use libtaurus.Prelude.{
  ℕ, Bool, true, if◌then◌else◌, Option, none, some, List, [], ◌∷◌, map, Key, Result, ok, err, panic,
  ◌>>=◌, ok?, unwrap,
}
use libtaurus.Map
use libtaurus.Map.{Map, get}
use libtaurus.Wire
use libtaurus.P2p.Request.{Request, Response}
use libtaurus.P2p.Broadcast.{
  Broadcast, BroadcastData, BroadcastMessage, BroadcastError, Report, broadcast_format,
}

-- The types of libp2p, and its channels.
pub record Net : Type 1 where
  pub Peer : Type 0
  pub Address : Type 0
  pub InboundId : Type 0
  pub OutboundId : Type 0
  pub MessageId : Type 0
  pub Topic : Type 0
  pub Channel : Type 0
  pub Requester : Type 0
  pub inbound-Key : Key InboundId
  pub outbound-Key : Key OutboundId

module _ (net : Net) where
  pub data Event : Type 0 where
    gossipsub_message : Broadcast net.MessageId net.Peer net.Topic → Event
    new_peer : net.Peer → Event
    request_message : net.InboundId → Request → Event

  pub data Action : Type 0 where
    block_peer : net.Peer → Action
    broadcast : BroadcastData → Action
    -- Who asks may have dropped the receiver of the answer.
    get_local_peer_id : (listening : Bool) → Action
    report_message_validity : Report net.MessageId net.Peer → Action
    request : Request → Option net.Peer → net.Requester → Action
    respond : net.InboundId → Response → Action

  -- What the task asks of the swarm and of its channels.
  pub data Command : Type 0 where
    block : net.Peer → Command
    publish : List ℕ → Command
    tell_peer_id : net.Peer → Command
    report : Report net.MessageId net.Peer → Command
    send_request : net.Peer → Request → Command
    send_response : net.Channel → Response → Command
    deliver : net.Requester → Response → Command
    add_address : net.Peer → net.Address → Command

  pub record Task : Type 0 where
    pub peer_id : Option net.Peer
    pub pending_responses : Map net.InboundId net.Channel
    pub pending_requests : Map net.OutboundId net.Requester

  pub data GossipsubEvent : Type 0 where
    message : net.Peer → net.MessageId → net.Topic → List ℕ → GossipsubEvent
    other_gossipsub : GossipsubEvent

  pub data RequestEvent : Type 0 where
    request_event : net.InboundId → Request → net.Channel → RequestEvent
    response_event : net.OutboundId → Response → RequestEvent
    other_request : RequestEvent

  pub data IdentifyEvent : Type 0 where
    received : net.Peer → List net.Address → IdentifyEvent
    other_identify : IdentifyEvent

module _ (net : Net) (encode : BroadcastMessage → Result BroadcastError (List ℕ))
    (decode : List ℕ → Result BroadcastError BroadcastMessage) where
  -- `Task::new`, without the swarm.
  abbrev pub new : Task net
  new = record { peer_id = none; pending_responses = []; pending_requests = [] }

  abbrev pub gossip :
      net.Peer → net.MessageId → net.Topic → Option BroadcastData → Option (Event net)
  gossip src id topic none = none
  gossip src id topic (some content) =
      some (gossipsub_message (record { id = id; src = src; topic = topic; content = content }))

  -- `handle_gossipsub` at the instant `now`.
  unfoldable pub handle_gossipsub : ℕ → GossipsubEvent net → Option (Event net)
  handle_gossipsub now (message src id topic bytes) =
      gossip src id topic (ok? (Wire.from_wire (broadcast_format now) encode decode bytes true))
  handle_gossipsub now other_gossipsub = none

  abbrev pub delivery : Response → Option net.Requester → List (Command net)
  delivery response none = []
  delivery response (some requester) = deliver requester response ∷ []

  -- `handle_request_response`
  unfoldable pub handle_request_response :
      Task net → RequestEvent net → Task net × List (Command net) × Option (Event net)
  handle_request_response task (request_event request_id question channel) = (
    record task {
      pending_responses =
          Map.insert ⦃key = net.inbound-Key⦄ task.pending_responses request_id channel;
    },
    [],
    some (request_message request_id question),
  )
  handle_request_response task (response_event request_id response) = (
    record task {
      pending_requests = Map.remove ⦃key = net.outbound-Key⦄ task.pending_requests request_id;
    },
    delivery response (get ⦃key = net.outbound-Key⦄ task.pending_requests request_id),
    none,
  )
  handle_request_response task other_request = (task, [], none)

  -- `handle_identify`
  unfoldable pub handle_identify : IdentifyEvent net → List (Command net) × Option (Event net)
  handle_identify (received peer addresses) =
      (map (add_address peer) addresses, some (new_peer peer))
  handle_identify other_identify = ([], none)

  abbrev pub published : Result BroadcastError (List ℕ) → List (Command net)
  published (ok bytes) = publish bytes ∷ []
  published (err e) = []
  published panic = []

  abbrev pub response_to : Response → Option net.Channel → List (Command net)
  response_to response none = []
  response_to response (some channel) = send_response channel response ∷ []

  -- `handle_inbound_action` at the instant `now`. `rid` is the identifier that the swarm gives to a
  -- request that it sends.
  unfoldable pub handle_inbound_action :
      ℕ
      → (rid : net.OutboundId) → Task net
      → Action net
      → Result (Unit {0}) (Task net × List (Command net))
  handle_inbound_action now rid task (block_peer peer) = ok (task, block peer ∷ [])
  handle_inbound_action now rid task (broadcast content) =
      ok (task, published (Wire.to_wire (broadcast_format now) encode decode content true))
  handle_inbound_action now rid task (get_local_peer_id listening) = do
    peer ← unwrap task.peer_id
    if listening then ok (task, tell_peer_id peer ∷ []) else panic
  handle_inbound_action now rid task (report_message_validity validity) =
      ok (task, report validity ∷ [])
  handle_inbound_action now rid task (request question opt_peer requester) = do
    peer ← unwrap opt_peer
    ok (
      record task {
        pending_requests = Map.insert ⦃key = net.outbound-Key⦄ task.pending_requests rid requester;
      },
      send_request peer question ∷ [],
    )
  handle_inbound_action now rid task (respond request_id response) = ok (
    record task {
      pending_responses = Map.remove ⦃key = net.inbound-Key⦄ task.pending_responses request_id;
    },
    response_to response (get ⦃key = net.inbound-Key⦄ task.pending_responses request_id),
  )
