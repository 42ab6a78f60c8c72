-- ===== src/Daemon/Serving.antt =====
-- The handler between the P2P task and the consensus task: what peers are told of the DAG.
use libtaurus.Prelude.{
  ℕ, ◌+◌, ◌<◌, ◌≡◌, ◌≢◌, refl, Bool, Option, none, some, List, [], ◌∷◌, arith, Key, Result, ok, err,
  panic, u64_mod, ◌++◌, ◌>>=◌,
}
use libtaurus.Map
use libtaurus.Map.{get, get-insert_self, get-remove_self}
use libtaurus.Hash.{Hash, Hash-Key}
use libtaurus.Vertex.{Vertex}
use libtaurus.Dag.{
  Dag, DagError, missing_parents, bad_height, conflicting_ancestors, self_referential_parent,
  of_vertex,
}
use libtaurus.Dag.Check.{check_vertex}
use libtaurus.Dag.Query.{query}
use libtaurus.Consensus.Api as api
use libtaurus.Consensus.Api.{ApiError, Delivery, dropped, replied}
use libtaurus.Consensus.Choosing.{AreBelow}
use libtaurus.Consensus.Ending.{IsReceived, turned_down, announced, submit_vertex-IsReceived}
use libtaurus.Consensus.Steady.{Steady}
use libtaurus.Consensus.Task as task
use libtaurus.Consensus.Task.{
  Task, TaskError, Config, Effects, Reply, vertex_reply, preference_reply, submit_reply, handle,
  answer, quiet,
}
use libtaurus.P2p.Broadcast.{
  Broadcast, BroadcastMessage, BroadcastError, vertex, Acceptance, accepted, ignored, rejected,
}
use libtaurus.P2p.Request as request
use libtaurus.P2p.Request.{Request, Response, get_vertex, get_preference}
use libtaurus.P2p.Task as p2p
use libtaurus.P2p.Task.{Net}
use libtaurus.Daemon.{
  verdict, carry_out, handle_gossipsub, handle_request_response, answer_vertex, answer_preference,
}
use libtaurus.Daemon.Dispatch.{ConsensusCalls, Outcome, started, handle_p2p_event}

-- The reply of a task that handles an action; a task that panics drops the channel.
module _ {Peer : Type 0} where
  abbrev pub vertex_of : Reply Peer → Delivery (Option Vertex)
  vertex_of (vertex_reply v) = replied v
  vertex_of _ = dropped

  abbrev pub preference_of : Reply Peer → Delivery (Option (Bool × Bool))
  preference_of (preference_reply p) = replied p
  preference_of _ = dropped

  abbrev pub hashes_of : Reply Peer → Delivery (Result TaskError (List Hash))
  hashes_of (submit_reply r) = replied r
  hashes_of _ = dropped

  abbrev pub after :
      {A : Type 0}
      → (Reply Peer → Delivery A)
      → Result TaskError (Task Peer × Effects Peer)
      → Delivery A
  after f (ok (t, fx)) = f fx.reply
  after f (err e) = dropped
  after f panic = dropped

-- The calls of the handler, answered by a task in this state.
abbrev pub calls_to :
    {Peer : Type 0} ⦃key : Key Peer⦄ (hash : Vertex → Hash)
    → ℕ
    → (Vertex → List ℕ)
    → Task Peer
    → ConsensusCalls
calls_to hash rounds draws t = record {
  submit_vertex =
      λ vx. api.submit (after hashes_of (handle hash rounds draws t (api.submit-action vx)));
  get_vertex =
      λ h. api.get_vertex (after vertex_of (handle hash rounds draws t (api.get_vertex-action h)));
  get_preference = λ h.
      api.preference_of
        (after preference_of (handle hash rounds draws t (api.get_preference-action h)));
}

-- What a peer is to be told, from the DAG alone.
pub told : Dag → Request → Response
told dag (get_vertex h) = elim (get dag.vertex h) [
  | some v ↦ request.vertex v
  | none ↦ request.error request.not_found
]
told dag (get_preference h) = elim (query dag h) [
  | ok (preferred, final) ↦ request.preference preferred
  | err e ↦ request.error request.not_found
  | panic ↦ request.error request.unknown
]

-- What is to be done about a gossiped vertex, from the check of it alone: a report on the message, and
-- what is to be fetched, from whom.
module _ (net : Net) (msg : Broadcast net.MessageId net.Peer net.Topic) where
  abbrev reported : Acceptance → List (net.Peer × List Hash) → Outcome net
  reported acceptance fetchers = record {
    actions =
        p2p.report_message_validity
          (record { msg_id = msg.id; propagation_source = msg.src; acceptance = acceptance })
        ∷ [];
    validators = [];
    fetchers = fetchers;
  }

  pub judged : Result DagError (Unit {0}) → Outcome net
  judged (ok _) = reported accepted []
  judged (err (missing_parents missing)) = reported accepted ((msg.src, missing) ∷ [])
  judged (err (bad_height expected found)) = reported rejected []
  judged (err conflicting_ancestors) = reported rejected []
  judged (err self_referential_parent) = reported rejected []
  judged (err (of_vertex e)) = reported rejected []
  judged _ = reported ignored []

module _ {Peer : Type 0} ⦃key : Key Peer⦄ (hash : Vertex → Hash) (rounds : ℕ)
    (draws : Vertex → List ℕ) (t : Task Peer) where
  -- The response of the handler to a request.
  abbrev response : Request → Response
  response q =
      handle_request_response (calls_to hash rounds draws t).get_vertex
        (calls_to hash rounds draws t).get_preference q

  response-told : (q : Request) → response q ≡ told t.dag q
  unfolding handle handle_request_response told
  response-told (get_vertex h) = found (get t.dag.vertex h)
    where
      found :
          (o : Option Vertex)
          → answer_vertex (ok o)
            ≡ (elim o [ some v ↦ request.vertex v | none ↦ request.error request.not_found ])
      found (some v) = refl
      found none = refl
  response-told (get_preference h) = answered (query t.dag h)
    where
      answered :
          (r : Result DagError (Bool × Bool))
          → answer_preference (
              api.preference_of
                (after preference_of (answer r >>= λ p. ok (t, quiet hash (preference_reply p)))))
            ≡ (elim r [
              | ok (preferred, final) ↦ request.preference preferred
              | err e ↦ request.error request.not_found
              | panic ↦ request.error request.unknown
            ])
      answered (ok (preferred, final)) = refl
      answered (err e) = refl
      answered panic = refl

module _ (net : Net) ⦃key : Key net.Peer⦄
    (encode : BroadcastMessage → Result BroadcastError (List ℕ))
    (decode : List ℕ → Result BroadcastError BroadcastMessage) (hash : Vertex → Hash) (rounds : ℕ)
    (draws : Vertex → List ℕ) (t : Task net.Peer) where
  -- The actions of the handler, in order.
  perform :
      ℕ
      → net.OutboundId
      → p2p.Task net
      → List (p2p.Action net)
      → Result (Unit {0}) (p2p.Task net × List (p2p.Command net))
  perform now rid node [] = ok (node, [])
  perform now rid node (a ∷ actions) = do
    (node', commands) ← p2p.handle_inbound_action net encode decode now rid node a
    (node″, rest) ← perform now rid node' actions
    ok (node″, commands ++ rest)

  -- What becomes of an event of the P2P task, if it emits one.
  emitted :
      ℕ
      → net.OutboundId
      → p2p.Task net
      → Option (p2p.Event net)
      → Result (Unit {0}) (p2p.Task net × List (p2p.Command net))
  emitted now rid node none = ok (node, [])
  emitted now rid node (some event) =
      perform now rid node (handle_p2p_event net (calls_to hash rounds draws t) event).actions

  -- A request of a peer, from the swarm through the P2P task and the handler to the consensus task, and
  -- back.
  pub request_served :
      ℕ
      → net.OutboundId
      → p2p.Task net
      → net.InboundId
      → Request
      → net.Channel
      → Result (Unit {0}) (p2p.Task net × List (p2p.Command net))
  request_served now rid node id q channel =
      let (node', commands, event) =
        p2p.handle_request_response net encode decode node (p2p.request_event id q channel) in
      emitted now rid node' event

  -- A request of a peer is answered once, on the channel of that request, which is then no longer
  -- pending. A vertex that the DAG knows is answered by that vertex, and an unknown one by `NotFound`. A
  -- preference is answered by whether `query` finds the vertex preferred, by `NotFound` where `query`
  -- gives an error, and by `Unknown` where it panics.
  pub request_served-told :
      (now : ℕ) (rid : net.OutboundId) (node : p2p.Task net) (id : net.InboundId) (q : Request)
      (channel : net.Channel)
      → request_served now rid node id q channel
        ≡ ok (
          record node {
            pending_responses =
                Map.remove ⦃key = net.inbound-Key⦄
                  (Map.insert ⦃key = net.inbound-Key⦄ node.pending_responses id channel)
                  id;
          },
          p2p.send_response channel (told t.dag q) ∷ [],
        )
  unfolding request_served emitted perform handle_p2p_event p2p.handle_request_response
      p2p.handle_inbound_action
  request_served-told now rid node id q channel =
      rw
        (
          response-told hash rounds draws t q,
          get-insert_self ⦃key = net.inbound-Key⦄ node.pending_responses id channel,
        )
        refl

module _ (net : Net) ⦃key : Key net.Peer⦄ (hash : Vertex → Hash) (config : Config)
    (draws : Vertex → List ℕ) (t : Task net.Peer) (below : AreBelow hash t draws)
    (s : Steady hash config t) where
  -- What the handler does on a gossiped vertex, by the result of its submission.
  abbrev reaction :
      Broadcast net.MessageId net.Peer net.Topic → Result ApiError (List Hash) → Outcome net
  reaction msg r =
      let (validity, fetcher) = carry_out msg (verdict r) in
      record {
        actions = p2p.report_message_validity validity ∷ [];
        validators = [];
        fetchers = started net fetcher;
      }

  refused-judged :
      (msg : Broadcast net.MessageId net.Peer net.Topic) (e : DagError)
      → reaction msg (err (api.of_task (task.of_dag e))) ≡ judged net msg (err e)
  unfolding verdict judged
  refused-judged msg e = ground arith

  received-judged :
      (msg : Broadcast net.MessageId net.Peer net.Topic) (vx : Vertex) {t' : Task net.Peer}
      {fx : Effects net.Peer}
      → IsReceived hash draws t vx t' fx
      → reaction msg (api.submit (hashes_of fx.reply)) ≡ judged net msg (check_vertex hash t.dag vx)
  unfolding verdict judged
  received-judged msg vx (turned_down {e} c) = rw (c) (refused-judged msg e)
  received-judged msg vx (announced c _ a) = rw (c, a.reply) refl

  -- On every state of the consensus task that is reached from its start, the vertices submitted having
  -- heights that a `u64` holds, other than 0, a gossiped vertex with such a height is judged by
  -- `check_vertex` alone, if the random indices are below the number of validators and the rounds for
  -- the retries are enough. It is accepted if the check passes, or finds parents missing, which then are
  -- fetched from the peer that sent it. It is rejected for a wrong height, conflicting or
  -- self-referential ancestors, and a malformed vertex, and ignored otherwise.
  pub handle_gossipsub-judged :
      (msg : Broadcast net.MessageId net.Peer net.Topic) (vx : Vertex)
      → msg.content ≡ vertex vx
      → vx.height < u64_mod
      → vx.height ≢ 0
      → (rounds : ℕ) × ((k : ℕ)
          → handle_p2p_event net (calls_to hash (k + rounds) draws t) (p2p.gossipsub_message msg)
            ≡ judged net msg (check_vertex hash t.dag vx))
  unfolding handle_p2p_event handle_gossipsub judged
  handle_gossipsub-judged msg vx content small risen =
      let (rounds, t', fx, again, r) =
        submit_vertex-IsReceived hash config draws t below s vx small risen in
      (rounds, λ k. rw (content, again k, received-judged msg vx r) refl)
