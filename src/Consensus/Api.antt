-- ===== src/Consensus/Api.antt =====
-- src/consensus/api.rs: the calls by which other tasks use the consensus task. How a call's messages
-- fare is a parameter of it: the reply arrives, or the channel or the timer fails.
use libtaurus.Prelude.{ℕ, Bool, Option, none, some, List, map, Result, ok, err, ◌>>=◌, map_err}
use libtaurus.Hash.{Hash}
use libtaurus.Vertex.{Vertex}
use libtaurus.Consensus.Task.{
  TaskError, Action, add_validator, get_accepted_frontier, get_preference, get_vertex_action,
  record_peer_preference, submit_vertex,
}

-- `api::Error`
pub data ApiError : Type 0 where
  action_send : ApiError
  of_task : TaskError → ApiError
  timer_elapsed response_recv : ApiError

abbrev pub default_timeout : ℕ
default_timeout = 60

-- What becomes of a request: its action is not sent, no reply comes in time, the reply channel is
-- dropped, or a reply arrives.
pub data Delivery (A : Type 0) : Type 0 where
  not_sent late dropped : Delivery A
  replied : A → Delivery A

-- `timeout(…, resp_receiver).await??`, after the `send(…)?` of the action.
abbrev pub receive : {A : Type 0} → Delivery A → Result ApiError A
receive not_sent = err action_send
receive late = err timer_elapsed
receive dropped = err response_recv
receive (replied a) = ok a

pub record VertexMeta : Type 0 where
  pub hash : Hash
  pub height : ℕ

-- `From<&Vertex> for VertexMeta`
abbrev pub meta_of : (Vertex → Hash) → Vertex → VertexMeta
meta_of hash vx = record { hash = hash vx; height = vx.height }

abbrev pub get_vertex : Delivery (Option Vertex) → Result ApiError (Option Vertex)
get_vertex reply = receive reply

abbrev pub get_frontier : Delivery (List Vertex) → Result ApiError (List Vertex)
get_frontier reply = receive reply

abbrev pub get_frontier_meta :
    (Vertex → Hash) → Delivery (List Vertex) → Result ApiError (List VertexMeta)
get_frontier_meta hash reply = do vertices ← get_frontier reply; ok (map (meta_of hash) vertices)

-- The preference without its finality.
abbrev pub preferred : Option (Bool × Bool) → Option Bool
preferred none = none
preferred (some (pref, final)) = some pref

-- `get_preference`
abbrev pub preference_of : Delivery (Option (Bool × Bool)) → Result ApiError (Option Bool)
preference_of reply = do p ← receive reply; ok (preferred p)

-- `submit_vertex`, whose third `?` is on the reply itself.
abbrev pub submit : Delivery (Result TaskError (List Hash)) → Result ApiError (List Hash)
submit reply = do r ← receive reply; map_err of_task r

-- The actions that the calls send.
module _ {Peer : Type 0} where
  abbrev pub get_vertex-action : Hash → Action Peer
  get_vertex-action vhash = get_vertex_action vhash

  abbrev pub get_frontier-action : Action Peer
  get_frontier-action = get_accepted_frontier

  abbrev pub get_preference-action : Hash → Action Peer
  get_preference-action vhash = get_preference vhash

  abbrev pub submit-action : Vertex → Action Peer
  submit-action vx = submit_vertex vx

  abbrev pub add_validator-action : Peer → Action Peer
  add_validator-action validator = add_validator validator

  abbrev pub record_peer_preference-action : Hash → Bool → Action Peer
  record_peer_preference-action vhash preference = record_peer_preference vhash preference
