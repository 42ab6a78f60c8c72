-- ===== src/P2p/Bootstrap.antt =====
-- src/p2p/task.rs: `join_dht`, and the dispatch of the behaviours' events in `task_fn`. What an address
-- ends in, and whether the bootstrap of kademlia starts, is libp2p's.
use libtaurus.Prelude.{
  ℕ, Bool, Option, none, some, List, [], ◌∷◌, Result, ok, err, panic, if◌then◌else◌,
}
use libtaurus.P2p.Broadcast.{BroadcastMessage, BroadcastError}
use libtaurus.P2p.Task as task
use libtaurus.P2p.Task.{
  Net, Task, Event, Command, GossipsubEvent, RequestEvent, IdentifyEvent, add_address,
}

-- The errors of `join_dht`.
pub data JoinError : Type 0 where
  malformed_address no_known_peers : JoinError

module _ (net : Net) where
  -- `addr.pop()`: the peer in which an address ends, with what is left of the address.
  module _ (pop : net.Address → Option net.Peer × net.Address) where
    -- The loop of `join_dht`: the addresses up to the first one that does not end in a peer.
    unfoldable pub add_peers : List net.Address → List (Command net) × Result JoinError (Unit {0})
    add_peers [] = ([], ok tt)
    add_peers (addr ∷ addrs) =
        let (commands, result) = add_peers addrs in
        let (last, rest) = pop addr in
        elim last [
          | some peer ↦ (add_address peer rest ∷ commands, result)
          | none ↦ ([], err malformed_address)
        ]

    -- `join_dht`, where `starts` says whether the bootstrap starts.
    unfoldable pub join_dht :
        Bool → List net.Address → List (Command net) × Result JoinError (Unit {0})
    join_dht starts boot_peers =
        let (commands, result) = add_peers boot_peers in
        elim result [
          | ok _ ↦ (commands, (if starts then ok tt else err no_known_peers))
          | err e ↦ (commands, err e)
          | panic ↦ (commands, panic)
        ]

  pub data BehaviourEvent : Type 0 where
    gossipsub : GossipsubEvent net → BehaviourEvent
    identify : IdentifyEvent net → BehaviourEvent
    requests : RequestEvent net → BehaviourEvent
    other_behaviour : BehaviourEvent

  module _ (encode : BroadcastMessage → Result BroadcastError (List ℕ))
      (decode : List ℕ → Result BroadcastError BroadcastMessage) where
    -- The branch of `task_fn` for the events of the behaviours: the event that it emits comes last.
    unfoldable pub dispatch :
        ℕ → Task net → BehaviourEvent → Task net × List (Command net) × Option (Event net)
    dispatch now state (gossipsub event) =
        (state, [], task.handle_gossipsub net encode decode now event)
    dispatch now state (identify event) =
        let (commands, emitted) = task.handle_identify net encode decode event in
        (state, commands, emitted)
    dispatch now state (requests event) = task.handle_request_response net encode decode state event
    dispatch now state other_behaviour = (state, [], none)
