-- ===== src/P2p/Delivery.antt =====
-- Each request is answered once.
use libtaurus.Prelude.{ℕ, ◌≡◌, refl, some, List, [], ◌∷◌, Result, ok, ◌>>=◌}
use libtaurus.Map
use libtaurus.Map.{get-insert_self, get-remove_self}
use libtaurus.P2p.Request.{Request, Response}
use libtaurus.P2p.Broadcast.{BroadcastMessage, BroadcastError}
use libtaurus.P2p.Task.{
  Net, Task, respond, request, Command, deliver, send_request, send_response, request_event,
  response_event, handle_request_response, handle_inbound_action,
}

module _ (net : Net) (encode : BroadcastMessage → Result BroadcastError (List ℕ))
    (decode : List ℕ → Result BroadcastError BroadcastMessage) where
  -- A task takes a request, and later two responses with its identifier: the first response goes to the
  -- channel of that request, the second to nobody.
  abbrev pub asked_twice :
      ℕ
      → net.OutboundId
      → Task net
      → net.Peer
      → Request
      → net.Requester
      → Response
      → Response
      → Result (Unit {0}) (List (Command net) × List (Command net) × List (Command net))
  asked_twice now rid task peer question requester r₁ r₂ = do
    (task₁, sent) ←
        handle_inbound_action net encode decode now rid task
          (request question (some peer) requester)
    let (task₂, first, _) = handle_request_response net encode decode task₁ (response_event rid r₁)
    let (task₃, second, _) = handle_request_response net encode decode task₂ (response_event rid r₂)
    ok (sent, first, second)

  -- A request goes to its peer; the first response to it is delivered to the task that asked, and a
  -- second one to nobody.
  pub request-answered_once :
      (now : ℕ) (rid : net.OutboundId) (task : Task net) (peer : net.Peer) (question : Request)
      (requester : net.Requester) (r₁ r₂ : Response)
      → asked_twice now rid task peer question requester r₁ r₂
        ≡ ok (send_request peer question ∷ [], deliver requester r₁ ∷ [], [])
  unfolding handle_inbound_action handle_request_response
  request-answered_once now rid task peer question requester r₁ r₂ =
      rw
        (
          get-insert_self ⦃key = net.outbound-Key⦄ task.pending_requests rid requester,
          get-remove_self ⦃key = net.outbound-Key⦄
              (Map.insert ⦃key = net.outbound-Key⦄ task.pending_requests rid requester) rid,
        )
        refl

  -- A task receives a request, and is asked twice to respond to it.
  abbrev pub responded_twice :
      ℕ
      → net.OutboundId
      → Task net
      → net.InboundId
      → Request
      → net.Channel
      → Response
      → Response
      → Result (Unit {0}) (List (Command net) × List (Command net))
  responded_twice now rid task id question channel r₁ r₂ = do
    let (task₁, _, _) =
        handle_request_response net encode decode task (request_event id question channel)
    (task₂, first) ← handle_inbound_action net encode decode now rid task₁ (respond id r₁)
    (task₃, second) ← handle_inbound_action net encode decode now rid task₂ (respond id r₂)
    ok (first, second)

  -- The first response to a request that a peer made is sent on the channel of that request, and a
  -- second one is not sent.
  pub respond-once :
      (now : ℕ) (rid : net.OutboundId) (task : Task net) (id : net.InboundId) (question : Request)
      (channel : net.Channel) (r₁ r₂ : Response)
      → responded_twice now rid task id question channel r₁ r₂
        ≡ ok (send_response channel r₁ ∷ [], [])
  unfolding handle_inbound_action handle_request_response
  respond-once now rid task id question channel r₁ r₂ =
      rw
        (
          get-insert_self ⦃key = net.inbound-Key⦄ task.pending_responses id channel,
          get-remove_self ⦃key = net.inbound-Key⦄
              (Map.insert ⦃key = net.inbound-Key⦄ task.pending_responses id channel) id,
        )
        refl
