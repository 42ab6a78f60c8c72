-- ===== src/Examples/Node.antt =====
-- The RPC methods and the identity of a node, at concrete inputs.
use libtaurus.Prelude.{
  ℕ, zero, suc, arith, ◌≡◌, ◌↔◌, refl, Bool, true, false, Option, none, some, List, [], ◌∷◌, ℕ-Key,
  Result, ok, err,
}
use libtaurus.Map
use libtaurus.Hash.{Hash}
use libtaurus.Vertex.{Vertex}
use libtaurus.Consensus.Api.{Delivery, late}
use libtaurus.Consensus.Task.{TaskError}
use libtaurus.Daemon.Identity.{Files, get_peer_identity_key, get_peer_identity_key-lasts}
use libtaurus.P2p.Api.{P2pApi}
use libtaurus.P2p.Broadcast as broadcast
use libtaurus.P2p.Bootstrap.{add_peers, join_dht, malformed_address}
use libtaurus.P2p.Task as task
use libtaurus.Rpc.{busy}
use libtaurus.Rpc.Handlers.{submit_vertex, submit_vertex-publishes}
use libtaurus.Dag.Tests.{v0}
use libtaurus.Examples.Tasks.{net}

abbrev api : P2pApi net
api = record { is_open = true; sent = [] }

abbrev one : Option Vertex → Option Vertex
one p = p

abbrev slow : Vertex → Delivery (Result TaskError (List Hash))
slow vx = late

submit_vertex-publishes_example :
    ((submit_vertex net one api slow (some v0)).0.sent ≡ task.broadcast (broadcast.vertex v0) ∷ [])
    × (((submit_vertex net one api slow (some v0)).1 ≡ err busy) ↔ (slow v0 ≡ late))
    × ((hs : List Hash)
        → ((submit_vertex net one api slow (some v0)).1 ≡ ok hs)
          ↔ (slow v0 ≡ Delivery.replied (ok hs)))
submit_vertex-publishes_example = submit_vertex-publishes net one api slow (some v0) v0 refl refl

abbrev encode : ℕ → Option (List ℕ)
encode key = some (key ∷ [])

abbrev decode : List ℕ → Option ℕ
decode [] = none
decode (key ∷ rest) = some key

codec : (key : ℕ) (bytes : List ℕ) → encode key ≡ some bytes → decode bytes ≡ some key
codec key [] e = cc
codec key (k ∷ rest) e = ground (arith, e)

abbrev identity_key : Bool → Files ℕ → ℕ → ℕ → Result (Unit {0}) (Files ℕ × ℕ)
identity_key = get_peer_identity_key {Location = ℕ} encode decode

saved : identity_key true [] 1 7 ≡ ok ((1, 7 ∷ []) ∷ [], 7)
unfolding get_peer_identity_key Map.get Map.insert
saved = refl

get_peer_identity_key-lasts_example :
    identity_key false ((1, 7 ∷ []) ∷ []) 1 9 ≡ ok ((1, 7 ∷ []) ∷ [], 7)
get_peer_identity_key-lasts_example =
    get_peer_identity_key-lasts {Location = ℕ} encode decode codec true false [] ((1, 7 ∷ []) ∷ [])
      1 7 9 7 saved

-- An address that does not end in a peer stops the bootstrap.
abbrev ending : ℕ → Option ℕ × ℕ
ending zero = (none, 0)
ending (suc n) = (some (suc n), suc n)

stopped :
    join_dht net ending true (5 ∷ 0 ∷ 6 ∷ []) ≡ (task.add_address 5 5 ∷ [], err malformed_address)
unfolding join_dht add_peers
stopped = refl
