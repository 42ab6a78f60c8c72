-- ===== src/Rpc/Handlers.antt =====
-- src/rpc/handlers.rs: the methods of the RPC server. `one` decodes the parameters of a call.
use mathlib.Core.Path.{subst}
use libtaurus.Prelude.{
  ◌≡◌, ◌↔◌, refl, sym, true, Option, none, some, List, [], ◌∷◌, ◌++◌, Result, ok, err, panic,
  map_err,
}
use libtaurus.Hash.{Hash}
use libtaurus.Vertex.{Vertex}
use libtaurus.Rpc.{RpcError, rpc_error_of, unknown, busy, bad_arg}
use libtaurus.Consensus.Task.{TaskError}
use libtaurus.Consensus.Api as consensus
use libtaurus.Consensus.Api.{Delivery, VertexMeta, replied, late}
use libtaurus.P2p.Api as p2p
use libtaurus.P2p.Api.{P2pApi}
use libtaurus.P2p.Broadcast as broadcast
use libtaurus.P2p.Task as task
use libtaurus.P2p.Task.{Net}

abbrev pub get_frontier : Delivery (List Vertex) → Result RpcError (List Vertex)
get_frontier reply = map_err rpc_error_of (consensus.get_frontier reply)

abbrev pub get_frontier_meta :
    (Vertex → Hash) → Delivery (List Vertex) → Result RpcError (List VertexMeta)
get_frontier_meta hash reply = map_err rpc_error_of (consensus.get_frontier_meta hash reply)

module _ (net : Net) {Params : Type 0} (one : Params → Option Vertex) where
  -- The end of `submit_vertex`, once the vertex is published or not.
  abbrev pub published :
      P2pApi net
      → Result p2p.P2pError (P2pApi net)
      → Delivery (Result TaskError (List Hash))
      → P2pApi net × Result RpcError (List Hash)
  published api (ok api') reply = (api', map_err rpc_error_of (consensus.submit reply))
  published api (err _) reply = (api, err unknown)
  published api panic reply = (api, panic)

  -- `submit_vertex`, where `reply` is what the consensus task answers about a vertex.
  unfoldable pub submit_vertex :
      P2pApi net
      → (Vertex → Delivery (Result TaskError (List Hash)))
      → Params
      → P2pApi net × Result RpcError (List Hash)
  submit_vertex api reply params = elim (one params) [
    | some vertex ↦ published api (p2p.submit_vertex net api vertex) (reply vertex)
    | none ↦ (api, err bad_arg)
  ]

  submit_vertex-runs :
      (api : P2pApi net) (reply : Vertex → Delivery (Result TaskError (List Hash)))
      (params : Params) (vx : Vertex)
      → one params ≡ some vx
      → api.is_open ≡ true
      → submit_vertex api reply params ≡ (
        record api { sent = api.sent ++ task.broadcast (broadcast.vertex vx) ∷ [] },
        map_err rpc_error_of (consensus.submit (reply vx)),
      )
  unfolding submit_vertex
  submit_vertex-runs api reply params vx e o = rw (submit_vertex, e, o) refl

  submitted_busy :
      (d : Delivery (Result TaskError (List Hash)))
      → (map_err rpc_error_of (consensus.submit d) ≡ err busy) ↔ (d ≡ late)
  submitted_busy consensus.not_sent = ((λ e. cc), (λ e. cc))
  submitted_busy late = ((λ e. refl), (λ e. refl))
  submitted_busy consensus.dropped = ((λ e. cc), (λ e. cc))
  submitted_busy (replied (ok hs)) = ((λ e. cc), (λ e. cc))
  submitted_busy (replied (err e')) = ((λ e. cc), (λ e. cc))
  submitted_busy (replied panic) = ((λ e. cc), (λ e. cc))

  submitted_ok :
      (d : Delivery (Result TaskError (List Hash))) (hs : List Hash)
      → (map_err rpc_error_of (consensus.submit d) ≡ ok hs) ↔ (d ≡ replied (ok hs))
  submitted_ok consensus.not_sent hs = ((λ e. cc), (λ e. cc))
  submitted_ok late hs = ((λ e. cc), (λ e. cc))
  submitted_ok consensus.dropped hs = ((λ e. cc), (λ e. cc))
  submitted_ok (replied (ok hs')) hs = ((λ e. cc), (λ e. cc))
  submitted_ok (replied (err e')) hs = ((λ e. cc), (λ e. cc))
  submitted_ok (replied panic) hs = ((λ e. cc), (λ e. cc))

  -- A submitted vertex that the parameters decode to is published once while the P2P task runs, whatever
  -- the consensus task replies; the caller is told that the server is busy exactly when that reply is
  -- late, and gets hashes exactly when the consensus task accepts the vertex with them.
  pub submit_vertex-publishes :
      (api : P2pApi net) (reply : Vertex → Delivery (Result TaskError (List Hash)))
      (params : Params) (vx : Vertex)
      → one params ≡ some vx
      → api.is_open ≡ true
      → ((submit_vertex api reply params).0.sent
          ≡ api.sent ++ task.broadcast (broadcast.vertex vx) ∷ [])
        × (((submit_vertex api reply params).1 ≡ err busy) ↔ (reply vx ≡ late))
        × ((hs : List Hash)
            → ((submit_vertex api reply params).1 ≡ ok hs) ↔ (reply vx ≡ replied (ok hs)))
  submit_vertex-publishes api reply params vx e o =
      subst
        (λ (r : P2pApi net × Result RpcError (List Hash)).
          (r.0.sent ≡ api.sent ++ task.broadcast (broadcast.vertex vx) ∷ [])
          × ((r.1 ≡ err busy) ↔ (reply vx ≡ late))
          × ((hs : List Hash) → (r.1 ≡ ok hs) ↔ (reply vx ≡ replied (ok hs))))
        (sym (submit_vertex-runs api reply params vx e o))
        (refl, submitted_busy (reply vx), submitted_ok (reply vx))
