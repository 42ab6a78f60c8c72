-- ===== src/P2p/Loop.antt =====
-- src/p2p/task.rs: one round of the event loop in `task_fn`. The events of the swarm are libp2p's.
use libtaurus.Prelude.{
  ℕ, ◌≡◌, refl, Bool, true, false, Option, none, some, List, [], Result, ok, panic, ◌>>=◌, unwrap,
  if◌then◌else◌,
}
use libtaurus.P2p.Bootstrap.{
  BehaviourEvent, gossipsub, identify, requests, other_behaviour, dispatch,
}
use libtaurus.P2p.Broadcast.{BroadcastMessage, BroadcastError}
use libtaurus.P2p.Task as task
use libtaurus.P2p.Task.{
  Net, Task, Event, Command, Action, handle_inbound_action, block_peer, broadcast,
  get_local_peer_id, report_message_validity, request, respond, request_event, response_event,
  other_request, received, other_identify,
}

module _ (net : Net) where
  pub data SwarmEvent : Type 0 where
    new_listen_addr : net.Address → SwarmEvent
    connection_established connection_closed : net.Peer → SwarmEvent
    outgoing_connection_error : SwarmEvent
    behaviour : BehaviourEvent net → SwarmEvent
    unhandled : SwarmEvent

  -- What the loop waits for: an event of the swarm, or an action; there is none once every sender of
  -- actions is gone.
  pub data Input : Type 0 where
    swarm_event : SwarmEvent → Input
    inbound_action : Option (Action net) → Input

  -- The task after a round, what it asks of the swarm, and the event that it emits.
  abbrev pub Round : Type 0
  Round = Task net × List (Command net) × Option (Event net)

  -- `self.events_out.send(…).unwrap()`, which needs a receiver.
  abbrev pub emit : Bool → Round → Result (Unit {0}) (Option Round)
  emit heard (state, commands, none) = ok (some (state, commands, none))
  emit heard (state, commands, some event) =
      if heard then ok (some (state, commands, some event)) else panic

  module _ (encode : BroadcastMessage → Result BroadcastError (List ℕ))
      (decode : List ℕ → Result BroadcastError BroadcastMessage) (heard : Bool) where
    -- The branch for the events of the swarm.
    unfoldable pub handle_swarm_event : ℕ → Task net → SwarmEvent → Result (Unit {0}) (Option Round)
    unfolding dispatch
    handle_swarm_event now state (new_listen_addr address) = do
      _ ← unwrap state.peer_id
      ok (some (state, [], none))
    handle_swarm_event now state (connection_established peer) = ok (some (state, [], none))
    handle_swarm_event now state (connection_closed peer) = ok (some (state, [], none))
    handle_swarm_event now state outgoing_connection_error = ok (some (state, [], none))
    handle_swarm_event now state (behaviour event) =
        emit heard (dispatch net encode decode now state event)
    handle_swarm_event now state unhandled = ok (some (state, [], none))

    -- One round; `none` is the end of the loop.
    unfoldable pub round : ℕ → net.OutboundId → Task net → Input → Result (Unit {0}) (Option Round)
    unfolding handle_swarm_event
    round now rid state (swarm_event event) = handle_swarm_event now state event
    round now rid state (inbound_action none) = ok none
    round now rid state (inbound_action (some action)) = do
      (state', commands) ← handle_inbound_action net encode decode now rid state action
      ok (some (state', commands, none))

-- A request names its peer, and who asks for the identifier of the task waits for the answer.
abbrev pub IsAddressed : (net : Net) → Input net → Type 0
IsAddressed net (inbound_action (some (request question none requester))) = ⊥
IsAddressed net (inbound_action (some (get_local_peer_id false))) = ⊥
IsAddressed net _ = Unit {0}

-- The round ended, and the task knows its own identifier as before.
pub data IsRun (net : Net) (state : Task net)
    : Result (Unit {0}) (Option (Round net)) → Type 0 where
  stopped : IsRun net state (ok none)
  continued :
      {state' : Task net} {commands : List (Command net)} {event : Option (Event net)}
      → state'.peer_id ≡ state.peer_id
      → IsRun net state (ok (some (state', commands, event)))

module _ (net : Net) (encode : BroadcastMessage → Result BroadcastError (List ℕ))
    (decode : List ℕ → Result BroadcastError BroadcastMessage) where
  emit-IsRun :
      (state : Task net) (r : Round net)
      → r.0.peer_id ≡ state.peer_id
      → IsRun net state (emit net true r)
  emit-IsRun state (state', commands, none) e = continued e
  emit-IsRun state (state', commands, some event) e = continued e

  -- A round of the loop does not panic while the task knows its own identifier, somebody listens to its
  -- events, every request that it is to send names its peer, and who asks for its identifier has kept the
  -- receiver of the answer; the task then still knows its identifier.
  pub round-IsRun :
      (now : ℕ) (rid : net.OutboundId) (state : Task net) (peer : net.Peer) (input : Input net)
      → state.peer_id ≡ some peer
      → IsAddressed net input
      → IsRun net state (round net encode decode true now rid state input)
  unfolding round handle_swarm_event dispatch handle_inbound_action task.handle_request_response
      task.handle_identify
  round-IsRun now rid state peer (swarm_event (new_listen_addr address)) k a =
      rw (k) (continued refl)
  round-IsRun now rid state peer (swarm_event (connection_established p)) k a = continued refl
  round-IsRun now rid state peer (swarm_event (connection_closed p)) k a = continued refl
  round-IsRun now rid state peer (swarm_event outgoing_connection_error) k a = continued refl
  round-IsRun now rid state peer (swarm_event (behaviour (gossipsub event))) k a =
      emit-IsRun state (dispatch net encode decode now state (gossipsub event)) refl
  round-IsRun now rid state peer (swarm_event (behaviour (identify event))) k a =
      emit-IsRun state (dispatch net encode decode now state (identify event)) refl
  round-IsRun now rid state peer (swarm_event (behaviour (requests (request_event i q c)))) k a =
      emit-IsRun state (dispatch net encode decode now state (requests (request_event i q c))) refl
  round-IsRun now rid state peer (swarm_event (behaviour (requests (response_event i r)))) k a =
      emit-IsRun state (dispatch net encode decode now state (requests (response_event i r))) refl
  round-IsRun now rid state peer (swarm_event (behaviour (requests other_request))) k a =
      continued refl
  round-IsRun now rid state peer (swarm_event (behaviour other_behaviour)) k a = continued refl
  round-IsRun now rid state peer (swarm_event unhandled) k a = continued refl
  round-IsRun now rid state peer (inbound_action none) k a = stopped
  round-IsRun now rid state peer (inbound_action (some (block_peer p))) k a = continued refl
  round-IsRun now rid state peer (inbound_action (some (broadcast content))) k a = continued refl
  round-IsRun now rid state peer (inbound_action (some (get_local_peer_id true))) k a =
      rw (k) (continued refl)
  round-IsRun now rid state peer (inbound_action (some (get_local_peer_id false))) k a = elim a [ ]
  round-IsRun now rid state peer (inbound_action (some (report_message_validity v))) k a =
      continued refl
  round-IsRun now rid state peer (inbound_action (some (request q (some p) r))) k a = continued refl
  round-IsRun now rid state peer (inbound_action (some (request q none r))) k a = elim a [ ]
  round-IsRun now rid state peer (inbound_action (some (respond i r))) k a = continued refl
